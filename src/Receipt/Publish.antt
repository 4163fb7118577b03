-- ===== src/Receipt/Publish.antt =====
-- The exports and the Platform operations of the repository of
-- crates/chatgpt-archive/src/receipt/pg.rs.
pub mod Rules
pub mod Quiet
use ratatoskr_chatgpt.Prelude.{
  ℕ, String, Bool, false, Option, none, some, List, [], ◌∷◌, ◌++◌, ◌&&◌, ◌||◌, if◌then◌else◌, ◌==◌,
  str_eq, any,
}
use ratatoskr_chatgpt.Effect.{Exec, pure, raise, map_err, ◌>>=◌, ◌>>◌}
use ratatoskr_chatgpt.Import.{hashed, stored}
use ratatoskr_chatgpt.Receipt.Mode.{AcquisitionMode, consumer_export}
use ratatoskr_chatgpt.Receipt.Mode
use ratatoskr_chatgpt.Receipt.World.{Account, Export, RunRow, OperationRow, World, Env, mint_id}
use ratatoskr_chatgpt.Receipt.BlobStore.{RegistrationError, register_blob}
use ratatoskr_chatgpt.Receipt.Records.{
  RepositoryError, backend, blob_unavailable, duplicate_existing, PublishedExport, PublishRequest,
  to_i64,
}
use ratatoskr_chatgpt.Receipt.Sql.{
  Statement, sql, sql_in, transaction, sits_at, update_runs, query, unless_conflict,
}

-- The accounts with a reference, of any kind.
unfoldable pub account_is : String → ℕ → List Account → Bool
account_is external_ref id accounts =
    any (λ a. a.id == id && str_eq a.external_ref external_ref) accounts

unfoldable pub find_digest : (ℕ → Bool) → String → List Export → Option ℕ
find_digest owned sha256_hex [] = none
find_digest owned sha256_hex (e ∷ es) =
    if owned e.account_id && str_eq e.sha256_hex sha256_hex
    then some e.id
    else find_digest owned sha256_hex es

unfoldable pub find_export_by_digest : String → String → Exec RepositoryError World (Option ℕ)
unfolding sql query find_digest account_is
find_export_by_digest account sha256_hex =
    sql (query (λ db. find_digest (λ id. account_is account id db.accounts) sha256_hex db.exports))

unfoldable pub is_some_id : ℕ → Option ℕ → Bool
is_some_id id none = false
is_some_id id (some other) = other == id

-- The oldest run that produced an export.
unfoldable pub find_run_of_export : ℕ → List RunRow → Option ℕ
unfolding is_some_id
find_run_of_export export_id [] = none
find_run_of_export export_id (r ∷ rs) =
    if is_some_id export_id r.export_id then some r.id else find_run_of_export export_id rs

-- `INSERT INTO platform_operation_imports … ON CONFLICT (operation_id) DO NOTHING`, with the two
-- references that the schema checks of a row that is stored.
unfoldable pub insert_operation : OperationRow → Statement Unit
insert_operation row db =
    if any (λ o. o.operation_id == row.operation_id) db.operations
    then some (tt, db)
    else if any (λ r. r.id == row.import_run_id) db.runs
        && any (λ e. e.id == row.export_id) db.exports
    then some (tt, record db { operations = db.operations ++ row ∷ [] })
    else none

unfoldable pub bind_to : ℕ → ℕ → Option ℕ → Exec RepositoryError World Unit
unfolding sql insert_operation
bind_to export_id operation_id none = raise backend
bind_to export_id operation_id (some run_id) = sql (
    insert_operation
      (record { operation_id = operation_id; import_run_id = run_id; export_id = export_id }))

unfoldable pub bind_platform_operation : ℕ → ℕ → Exec RepositoryError World Unit
unfolding sql query find_run_of_export bind_to
bind_platform_operation export_id operation_id = do
  run_id ← sql (query (λ db. find_run_of_export export_id db.runs))
  bind_to export_id operation_id run_id

unfoldable pub find_account : String → List Account → Option ℕ
find_account external_ref [] = none
find_account external_ref (a ∷ rest) =
    if str_eq a.external_kind "personal" && str_eq a.external_ref external_ref
    then some a.id
    else find_account external_ref rest

-- The insert of an account that answers the account that is there already.
unfoldable pub upsert_account : ℕ → String → Statement ℕ
unfolding find_account
upsert_account id external_ref db = elim (find_account external_ref db.accounts) [
  | some old ↦ some (old, db)
  | none ↦
      if any (λ a. a.id == id) db.accounts
      then none
      else some (
        id,
        record db {
          accounts =
              db.accounts
              ++ record { id = id; external_kind = "personal"; external_ref = external_ref } ∷ [];
        },
      )
]

unfoldable pub unless_duplicate : Option ℕ → Exec RepositoryError World Unit
unless_duplicate none = pure tt
unless_duplicate (some existing) = raise (duplicate_existing existing)

unfoldable pub registration_failed : RegistrationError → RepositoryError
registration_failed RegistrationError.database = backend
registration_failed RegistrationError.unavailable = blob_unavailable

-- The insert of an export, whose identity is new and whose digest is new to the account.
unfoldable pub insert_export : Export → Statement Unit
insert_export row db =
    if any
      (λ e. e.id == row.id || e.account_id == row.account_id && str_eq e.sha256_hex row.sha256_hex)
      db.exports
    then none
    else some (tt, record db { exports = db.exports ++ row ∷ [] })

unfoldable pub set_stored : ℕ → RunRow → RunRow
set_stored export_id row = record row { state = stored; export_id = some export_id }

unfoldable pub bind_new : ℕ → ℕ → Option ℕ → Exec RepositoryError World Unit
unfolding sql_in insert_operation
bind_new run_id export_id none = pure tt
bind_new run_id export_id (some operation_id) = sql_in (
    insert_operation
      (record { operation_id = operation_id; import_run_id = run_id; export_id = export_id }))

unfoldable pub new_export : PublishRequest → ℕ → ℕ → ℕ → Export
unfolding to_i64
new_export request export_id ai_archive_id account_id = record {
  id = export_id;
  ai_archive_id = ai_archive_id;
  account_id = account_id;
  acquisition_mode = Mode.as_str request.mode;
  blob_ref = request.blob_ref;
  sha256_hex = request.sha256_hex;
  byte_length = to_i64 request.byte_length;
}

-- What `publish_export` does in its transaction.
unfoldable pub publish_body : Env → PublishRequest → Exec RepositoryError World PublishedExport
unfolding sql_in query find_digest upsert_account unless_duplicate registration_failed register_blob
    insert_export new_export update_runs set_stored unless_conflict bind_new
publish_body env request = do
  fresh_account ← mint_id env
  account_id ← sql_in (upsert_account fresh_account request.account_external_ref)
  existing ←
      sql_in (query (λ db. find_digest (λ id. id == account_id) request.sha256_hex db.exports))
  unless_duplicate existing
  map_err registration_failed (register_blob env request.blob_ref request.run_id)
  export_id ← mint_id env
  ai_archive_id ← mint_id env
  sql_in (insert_export (new_export request export_id ai_archive_id account_id))
  advanced ← sql_in (update_runs (sits_at request.run_id hashed) (set_stored export_id))
  unless_conflict advanced
  bind_new request.run_id export_id request.platform_operation
  pure (record { export_id = export_id; ai_archive_id = ai_archive_id })

unfoldable pub publish_export : Env → PublishRequest → Exec RepositoryError World PublishedExport
unfolding transaction publish_body
publish_export env request = transaction (publish_body env request)
