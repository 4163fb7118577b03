-- ===== src/Receipt/Moves.antt =====
-- How the rows of import_runs may change: one listed move of the import state machine of
-- crates/chatgpt-archive/src/receipt/state.rs at a time, with the evidence of a run fixed.
pub mod Statements
use ratatoskr_chatgpt.Prelude.{
  ℕ, ◌≤◌, ◌≡◌, refl, sym, subst, Bool, true, false, Option, none, some, List, [], ◌∷◌, ◌++◌, arith,
  if◌then◌else◌, ◌==◌, Option-cases, Bool-cases, inl, inr,
}
use ratatoskr_chatgpt.Import.{received}
use ratatoskr_chatgpt.Import.Machine.{◌⟶◌, rank}
use ratatoskr_chatgpt.Effect.Guards.{Preorder}
use ratatoskr_chatgpt.Receipt.World.{RunRow, Db, Shared, Tick}
use ratatoskr_chatgpt.Receipt.Sql.{update}
use ratatoskr_chatgpt.Receipt.Repository.{find_run}

-- One listed move of a run, which keeps its declaration, the digest and the length from `hashed` on,
-- and the export from `stored` on.
pub record Moves (r r' : RunRow) : Type 0 where
  pub id : r'.id ≡ r.id
  pub account_ref : r'.account_ref ≡ r.account_ref
  pub acquisition_mode : r'.acquisition_mode ≡ r.acquisition_mode
  pub media_type : r'.media_type ≡ r.media_type
  pub moved : r.state ⟶ r'.state
  pub digest_kept : 1 ≤ rank r.state → r'.sha256_hex ≡ r.sha256_hex
  pub length_kept : 1 ≤ rank r.state → r'.byte_length ≡ r.byte_length
  pub export_kept : 2 ≤ rank r.state → r'.export_id ≡ r.export_id

-- What one statement may do to the run of an identity: nothing, create it at `received`, or make one
-- listed move.
pub data RunStep : Option RunRow → Option RunRow → Type 0 where
  unmoved : {o o' : Option RunRow} → o' ≡ o → RunStep o o'
  created :
      {o o' : Option RunRow} {r : RunRow}
      → o ≡ none
      → o' ≡ some r
      → r.state ≡ received
      → RunStep o o'
  moved :
      {o o' : Option RunRow} {r r' : RunRow} → o ≡ some r → o' ≡ some r' → Moves r r' → RunStep o o'

pub record Write (rs rs' : List RunRow) : Type 0 where
  pub at : (id : ℕ) → RunStep (find_run id rs) (find_run id rs')

-- A call of the schedule.
pub data IsScheduled (t : Tick) : List Tick → Type 0 where
  first : {ts : List Tick} → IsScheduled t (t ∷ ts)
  later : {u : Tick} {ts : List Tick} → IsScheduled t ts → IsScheduled t (u ∷ ts)

-- The rows come about by writes that move each run at most once, and by what the others of the
-- schedule do to the rows that they find.
pub data Follows (ticks : List Tick) : Db → Db → Type 0 where
  done : {db : Db} → Follows ticks db db
  writes :
      {db db' db'' : Db} → Write db.runs db'.runs → Follows ticks db' db'' → Follows ticks db db''
  others :
      {db db'' : Db} (t : Tick) (s : Shared)
      → IsScheduled t ticks
      → s.db ≡ db
      → Follows ticks (t.others s).db db''
      → Follows ticks db db''

pub Follows-trans :
    {ticks : List Tick} {a b c : Db} → Follows ticks a b → Follows ticks b c → Follows ticks a c
Follows-trans done g = g
Follows-trans (writes w f) g = writes w (Follows-trans f g)
Follows-trans (others t s i e f) g = others t s i e (Follows-trans f g)

pub Write-refl : (rs : List RunRow) → Write rs rs
Write-refl rs = record { at = λ id. unmoved refl }

find_run-append :
    (id : ℕ) (rs : List RunRow) (row : RunRow)
    → find_run id (rs ++ row ∷ [])
      ≡ elim (find_run id rs) [ none ↦ if row.id == id then some row else none | some r ↦ some r ]
unfolding find_run
find_run-append id [] row = refl
find_run-append id (x ∷ rs) row = ground (arith, find_run-append id rs row)

-- A row that is added at `received` changes no other.
pub Write-append :
    (rs : List RunRow) (row : RunRow) → row.state ≡ received → Write rs (rs ++ row ∷ [])
Write-append rs row fresh = record {
  at = λ id. elim (Option-cases (find_run id rs)) [
    | inl e ↦ elim (Bool-cases (row.id == id)) [
      | inl k ↦ created {r = row} e (rw (find_run-append id rs row, e, k) refl) fresh
      | inr k ↦ unmoved (rw (find_run-append id rs row, e, k) refl)
    ]
    | inr (r, e) ↦ unmoved (rw (find_run-append id rs row, e) refl)
  ];
}

id-if : (b : Bool) (r s : RunRow) → s.id ≡ r.id → (if b then s else r).id ≡ r.id
id-if true r s e = e
id-if false r s e = refl

pub find_run-update :
    (p : RunRow → Bool) (f : RunRow → RunRow)
    → ((r : RunRow) → (f r).id ≡ r.id)
    → (id : ℕ) (rs : List RunRow) (r : RunRow) → find_run id rs ≡ some r
    → find_run id (update p f rs) ≡ some (if p r then f r else r)
unfolding find_run update
find_run-update p f keeps id [] r h = cc
find_run-update p f keeps id (x ∷ rs) r h =
    ground (arith, id-if (p x) x (f x) (keeps x), find_run-update p f keeps id rs r)

find_run-update-none :
    (p : RunRow → Bool) (f : RunRow → RunRow)
    → ((r : RunRow) → (f r).id ≡ r.id)
    → (id : ℕ) (rs : List RunRow) → find_run id rs ≡ none
    → find_run id (update p f rs) ≡ none
unfolding find_run update
find_run-update-none p f keeps id [] h = refl
find_run-update-none p f keeps id (x ∷ rs) h =
    ground (arith, id-if (p x) x (f x) (keeps x), find_run-update-none p f keeps id rs)

-- A guarded update that lets the rows that it takes move.
pub Write-update :
    (p : RunRow → Bool) (f : RunRow → RunRow)
    → ((r : RunRow) → (f r).id ≡ r.id)
    → ((r : RunRow) → p r ≡ true → Moves r (f r))
    → (rs : List RunRow) → Write rs (update p f rs)
Write-update p f keeps makes rs = record {
  at = λ id. elim (Option-cases (find_run id rs)) [
    | inl e ↦ unmoved (rw (e) (find_run-update-none p f keeps id rs e))
    | inr (r, e) ↦ elim (Bool-cases (p r)) [
      | inl k ↦ moved e (rw (find_run-update p f keeps id rs r e, k) refl) (makes r k)
      | inr k ↦ unmoved (rw (find_run-update p f keeps id rs r e, k, e) refl)
    ]
  ];
}

-- The order on the rows: one comes about from the other so.
unfoldable pub following : List Tick → Preorder Db
following ticks = record { rel = Follows ticks; same = λ db. done; chain = Follows-trans }
