-- ===== src/Receipt/Repository.antt =====
-- The `PostgreSQL` repository of crates/chatgpt-archive/src/receipt/pg.rs behind the seam of
-- receipt/repository.rs: the import runs. `Receipt/Publish` has the exports.
pub mod Rules
pub mod Quiet
use mathlib.Core.Option
use ratatoskr_chatgpt.Prelude.{
  ℕ, String, Bool, true, false, Option, none, some, List, [], ◌∷◌, ◌++◌, ◌||◌, if◌then◌else◌, ◌==◌,
  str_eq, any,
}
use ratatoskr_chatgpt.Effect.{Exec, pure, ◌>>=◌, ◌>>◌}
use ratatoskr_chatgpt.Import.{ImportState, received, hashed, as_str}
use ratatoskr_chatgpt.Receipt.Mode.{AcquisitionMode, consumer_export}
use ratatoskr_chatgpt.Receipt.Mode
use ratatoskr_chatgpt.Receipt.World.{RunRow, World, Env, mint_id}
use ratatoskr_chatgpt.Receipt.Records.{RepositoryError, RunRecord, to_i64}
use ratatoskr_chatgpt.Receipt.Sql.{
  Statement, sql, is_state, sits_at, update_runs, query, unless_conflict,
}

unfoldable pub insert_run : RunRow → Statement Unit
insert_run row db =
    if any (λ r. r.id == row.id) db.runs
    then none
    else some (tt, record db { runs = db.runs ++ row ∷ [] })

unfoldable pub fresh_run : ℕ → String → AcquisitionMode → String → RunRow
fresh_run id account mode media_type = record {
  id = id;
  account_ref = some account;
  acquisition_mode = some (Mode.as_str mode);
  media_type = some media_type;
  state = received;
  sha256_hex = none;
  byte_length = none;
  export_id = none;
  finished = false;
}

unfoldable pub create_run : Env → String → AcquisitionMode → String → Exec RepositoryError World ℕ
unfolding sql insert_run fresh_run
create_run env account mode media_type = do
  id ← mint_id env
  sql (insert_run (fresh_run id account mode media_type))
  pure id

unfoldable pub set_hashed : String → ℕ → RunRow → RunRow
set_hashed sha256_hex byte_length row = record row {
  state = hashed;
  sha256_hex = some sha256_hex;
  byte_length = some byte_length;
}

unfoldable pub record_hash : ℕ → String → ℕ → Exec RepositoryError World Unit
unfolding sql update_runs unless_conflict set_hashed to_i64
record_hash id sha256_hex byte_length = do
  rows ← sql (update_runs (sits_at id received) (set_hashed sha256_hex (to_i64 byte_length)))
  unless_conflict rows

abbrev pub terminal_states : List String
terminal_states = "completed" ∷ "partial" ∷ "failed" ∷ "duplicate" ∷ "quarantined" ∷ []

-- A terminal target also sets `finished_at`.
unfoldable pub set_state : ImportState → RunRow → RunRow
set_state target row =
    if any (str_eq (as_str target)) terminal_states
    then record row { state = target; finished = true }
    else record row { state = target }

unfoldable pub mark_run : ℕ → ImportState → ImportState → Exec RepositoryError World Unit
unfolding sql update_runs unless_conflict set_state
mark_run id expected target = do
  rows ← sql (update_runs (sits_at id expected) (set_state target))
  unless_conflict rows

unfoldable pub find_run : ℕ → List RunRow → Option RunRow
find_run id [] = none
find_run id (r ∷ rs) = if r.id == id then some r else find_run id rs

unfoldable pub or_else : {A : Type 0} → A → Option A → A
or_else a none = a
or_else a (some b) = b

unfoldable pub into_record : RunRow → RunRecord
unfolding or_else
into_record row = record {
  id = row.id;
  account_external_ref = or_else "" row.account_ref;
  acquisition_mode = or_else (Mode.as_str consumer_export) row.acquisition_mode;
  media_type = or_else "application/octet-stream" row.media_type;
  state = row.state;
  sha256_hex = row.sha256_hex;
  byte_length = row.byte_length;
  export_id = row.export_id;
}

unfoldable pub load_run : ℕ → Exec RepositoryError World (Option RunRecord)
unfolding sql query find_run into_record
load_run id = do row ← sql (query (λ db. find_run id db.runs)); pure (Option.map into_record row)

unfoldable pub resumable : RunRow → Bool
resumable row = is_state row.state received || is_state row.state hashed

unfoldable pub resumable_rows : List RunRow → List RunRecord
resumable_rows [] = []
resumable_rows (r ∷ rs) =
    let rest = resumable_rows rs in if resumable r then into_record r ∷ rest else rest

unfoldable pub list_resumable : Exec RepositoryError World (List RunRecord)
unfolding sql query resumable_rows resumable into_record
list_resumable = sql (query (λ db. resumable_rows db.runs))
