-- ===== src/Receipt/Moves/Statements.antt =====
-- The statements of crates/chatgpt-archive/src/receipt/pg.rs and the moves of the runs.
use ratatoskr_chatgpt.Prelude.{
  List, ℕ, ◌≤◌, ◌≡◌, refl, sym, subst, Bool, true, some, String, [], ◌∷◌, ◌++◌, arith,
  if◌then◌else◌, str_eq_iff,
}
use ratatoskr_chatgpt.Import.{
  ImportState, received, hashed, stored, failed, duplicate, as_str, is_terminal,
}
use ratatoskr_chatgpt.Import.Spelling.{as_str-injective}
use ratatoskr_chatgpt.Import.Machine.{◌⟶◌, hash, store, repeat, fail, rank}
use ratatoskr_chatgpt.Receipt.World.{Tick, RunRow, Db, Export, OperationRow}
use ratatoskr_chatgpt.Receipt.Sql.{Statement, is_state, sits_at, update, update_runs}
use ratatoskr_chatgpt.Receipt.Repository.{fresh_run, insert_run, set_hashed, set_state}
use ratatoskr_chatgpt.Receipt.Publish.{insert_operation, upsert_account, insert_export, set_stored}
use ratatoskr_chatgpt.Receipt.Orderly.{Respects, Accepts}
use ratatoskr_chatgpt.Receipt.Moves.{
  Moves, Write, Write-refl, Write-append, Write-update, done, writes, following,
}

pub sits_at-state : (id : ℕ) (s : ImportState) (r : RunRow) → sits_at id s r ≡ true → r.state ≡ s
unfolding is_state
sits_at-state id s r h =
    as_str-injective r.state s ((str_eq_iff (as_str r.state) (as_str s)).0 (ground arith))

-- A row that makes a listed move, and keeps what it is.
Moves-to :
    (r : RunRow) (s t : ImportState) (finished : Bool)
    → r.state ≡ s
    → s ⟶ t
    → Moves r (record r { state = t; finished = finished })
Moves-to r s t finished e move = record {
  id = refl;
  account_ref = refl;
  acquisition_mode = refl;
  media_type = refl;
  moved = subst (λ u. u ⟶ t) (sym e) move;
  digest_kept = λ h. refl;
  length_kept = λ h. refl;
  export_kept = λ h. refl;
}

Moves-set_hashed :
    (r : RunRow) (sha256_hex : String) (byte_length : ℕ)
    → r.state ≡ received
    → Moves r (set_hashed sha256_hex byte_length r)
unfolding set_hashed
Moves-set_hashed r sha256_hex byte_length e = record {
  id = refl;
  account_ref = refl;
  acquisition_mode = refl;
  media_type = refl;
  moved = subst (λ u. u ⟶ hashed) (sym e) hash;
  digest_kept = λ h. absurd (before e h);
  length_kept = λ h. absurd (before e h);
  export_kept = λ h. refl;
}
  where
    before : r.state ≡ received → 1 ≤ rank r.state → ⊥
    before e h = ground arith

Moves-set_stored :
    (r : RunRow) (export_id : ℕ) → r.state ≡ hashed → Moves r (set_stored export_id r)
unfolding set_stored
Moves-set_stored r export_id e = record {
  id = refl;
  account_ref = refl;
  acquisition_mode = refl;
  media_type = refl;
  moved = subst (λ u. u ⟶ stored) (sym e) store;
  digest_kept = λ h. refl;
  length_kept = λ h. refl;
  export_kept = λ h. absurd (ground arith);
}

-- `finished_at` is set exactly where the target is terminal: the list of spellings in the repository
-- and the test of the machine agree.
pub set_state_lem :
    (t : ImportState) (r : RunRow)
    → set_state t r ≡ record r { state = t; finished = if is_terminal t then true else r.finished }
unfolding set_state as_str is_terminal
set_state_lem received r = refl
set_state_lem _ r = refl

Moves-set_state : (r : RunRow) (s t : ImportState) → r.state ≡ s → s ⟶ t → Moves r (set_state t r)
Moves-set_state r s t e move = subst (Moves r) (sym (set_state_lem t r)) (Moves-to r s t _ e move)

update_runs-runs :
    (p : RunRow → Bool) (f : RunRow → RunRow) (db : Db) (n : ℕ) (db' : Db)
    → update_runs p f db ≡ some (n, db')
    → db'.runs ≡ update p f db.runs
unfolding update_runs
update_runs-runs p f db n db' e = ground arith

module _ (ticks : List Tick) (p : RunRow → Bool) (f : RunRow → RunRow) where
  Respects-update_runs :
      ((r : RunRow) → (f r).id ≡ r.id)
      → ((r : RunRow) → p r ≡ true → Moves r (f r))
      → Respects (following ticks) (update_runs p f)
  unfolding following
  Respects-update_runs keeps makes = record {
    at = λ db n db' e.
        writes
          (subst (Write db.runs) (sym (update_runs-runs p f db n db' e))
            (Write-update p f keeps makes db.runs))
          done;
  }

-- A statement that leaves the runs alone.
Respects-of_runs :
    (ticks : List Tick) {A : Type 0} (st : Statement A)
    → ((db : Db) (a : A) (db' : Db) → st db ≡ some (a, db') → db'.runs ≡ db.runs)
    → Respects (following ticks) st
unfolding following
Respects-of_runs ticks st same = record {
  at = λ db a db' e.
      writes (subst (Write db.runs) (sym (same db a db' e)) (Write-refl db.runs)) done;
}

Respects-insert_run :
    (ticks : List Tick) (row : RunRow)
    → row.state ≡ received
    → Respects (following ticks) (insert_run row)
unfolding insert_run following
Respects-insert_run ticks row fresh = record {
  at = λ db a db' e.
      writes (subst (Write db.runs) (sym (runs-insert db a db' e)) (Write-append db.runs row fresh))
        done;
}
  where
    runs-insert :
        (db : Db) (a : Unit) (db' : Db)
        → insert_run row db ≡ some (a, db')
        → db'.runs ≡ db.runs ++ row ∷ []
    runs-insert db a db' e = ground arith

insert_operation-runs :
    (row : OperationRow) (db : Db) (a : Unit) (db' : Db)
    → insert_operation row db ≡ some (a, db')
    → db'.runs ≡ db.runs
unfolding insert_operation
insert_operation-runs row db a db' e = ground arith

upsert_account-runs :
    (id : ℕ) (account : String) (db : Db) (a : ℕ) (db' : Db)
    → upsert_account id account db ≡ some (a, db')
    → db'.runs ≡ db.runs
unfolding upsert_account
upsert_account-runs id account db a db' e = ground arith

insert_export-runs :
    (row : Export) (db : Db) (a : Unit) (db' : Db)
    → insert_export row db ≡ some (a, db')
    → db'.runs ≡ db.runs
unfolding insert_export
insert_export-runs row db a db' e = ground arith

set_state-id : (t : ImportState) (r : RunRow) → (set_state t r).id ≡ r.id
unfolding set_state
set_state-id t r = ground arith

pub following-Accepts : (ticks : List Tick) → Accepts (following ticks)
unfolding set_hashed set_stored fresh_run
following-Accepts ticks = record {
  creates = λ id account mode media_type. Respects-insert_run ticks _ refl;
  hashes = λ id sha256_hex byte_length.
      Respects-update_runs ticks _ _ (λ r. refl)
        (λ r h. Moves-set_hashed r sha256_hex _ (sits_at-state id received r h));
  fails = λ id s open_stage.
      Respects-update_runs ticks _ _ (set_state-id failed)
        (λ r h. Moves-set_state r s failed (sits_at-state id s r h) (fail open_stage));
  repeats = λ id.
      Respects-update_runs ticks _ _ (set_state-id duplicate)
        (λ r h. Moves-set_state r hashed duplicate (sits_at-state id hashed r h) repeat);
  stores = λ id export_id.
      Respects-update_runs ticks _ _ (λ r. refl)
        (λ r h. Moves-set_stored r export_id (sits_at-state id hashed r h));
  binds = λ row. Respects-of_runs ticks _ (insert_operation-runs row);
  owns = λ id account. Respects-of_runs ticks _ (upsert_account-runs id account);
  exports = λ request e a c. Respects-of_runs ticks _ (insert_export-runs _);
}
