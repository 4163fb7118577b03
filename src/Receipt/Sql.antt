-- ===== src/Receipt/Sql.antt =====
-- Statements and transactions over the rows, as crates/chatgpt-archive/src/receipt/pg.rs runs them.
-- A statement outside a transaction may find that others came first; within a transaction nobody
-- does, and an error undoes what the transaction did to the rows.
pub mod Rules
use ratatoskr_chatgpt.Prelude.{
  ℕ, suc, Bool, Option, none, some, List, [], ◌∷◌, ◌&&◌, if◌then◌else◌, ◌==◌, str_eq,
}
use ratatoskr_chatgpt.Effect.{Result, ok, err, Exec, pure, raise, map_err, ◌>>=◌, ◌>>◌}
use ratatoskr_chatgpt.Import.{ImportState, as_str}
use ratatoskr_chatgpt.Receipt.World.{RunRow, Db, World, wait, io}
use ratatoskr_chatgpt.Receipt.Records.{RepositoryError, backend, conflict}

-- A statement on the rows, or `none` where a constraint of the schema refuses it.
abbrev pub Statement : Type 0 → Type 0
Statement A = Db → Option (A × Db)

unfoldable pub answer : {A : Type 0} → Option (A × Db) → World → Result RepositoryError A × World
answer none w = (err backend, w)
answer (some (a, db)) w = (ok a, record w { shared = record w.shared { db = db } })

-- A statement of its own, committed at once.
unfoldable pub sql : {A : Type 0} → Statement A → Exec RepositoryError World A
unfolding answer wait
sql st w = let (w', fault) = wait w in if fault then (err backend, w') else answer (st w'.db) w'

-- A statement within a transaction.
unfoldable pub sql_in : {A : Type 0} → Statement A → Exec RepositoryError World A
unfolding answer io
sql_in st = do map_err (λ _. backend) io; λ w. answer (st w.db) w

unfoldable pub settle_transaction :
    {A : Type 0} → Db → Result RepositoryError A × World → Result RepositoryError A × World
settle_transaction before (ok a, w) = (ok a, w)
settle_transaction before (err e, w) =
    (err e, record w { shared = record w.shared { db = before } })

-- `pool.begin()`, the body and `commit()`; the rows go back to what they were on every error.
unfoldable pub transaction :
    {A : Type 0} → Exec RepositoryError World A → Exec RepositoryError World A
unfolding settle_transaction wait io
transaction body w =
    let (w', fault) = wait w in
    if fault
    then (err backend, w')
    else settle_transaction w'.db ((body >>= λ a. map_err (λ _. backend) io >> pure a) w')

-- `state = $expected`, which compares the spellings.
unfoldable pub is_state : ImportState → ImportState → Bool
is_state a b = str_eq (as_str a) (as_str b)

-- `id = $1 AND state = $2`
abbrev pub sits_at : ℕ → ImportState → RunRow → Bool
sits_at id state row = row.id == id && is_state row.state state

-- `UPDATE import_runs SET … WHERE …`: the number of rows that matched, and the rows after it.
unfoldable pub affected : (RunRow → Bool) → List RunRow → ℕ
affected p [] = 0
affected p (r ∷ rs) = let rest = affected p rs in if p r then suc rest else rest

unfoldable pub update : (RunRow → Bool) → (RunRow → RunRow) → List RunRow → List RunRow
update p f [] = []
update p f (r ∷ rs) = (if p r then f r else r) ∷ update p f rs

unfoldable pub update_runs : (RunRow → Bool) → (RunRow → RunRow) → Statement ℕ
unfolding affected update
update_runs p f db = some (affected p db.runs, record db { runs = update p f db.runs })

-- A query changes no row.
unfoldable pub query : {A : Type 0} → (Db → A) → Statement A
query f db = some (f db, db)

unfoldable pub unless_conflict : ℕ → Exec RepositoryError World Unit
unless_conflict rows = if rows == 0 then raise conflict else pure tt
