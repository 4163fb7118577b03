-- ===== src/Receipt/Settle/Rules.antt =====
-- Orders on the rows under the settlement of crates/chatgpt-archive/src/receipt/mod.rs.
use ratatoskr_chatgpt.Prelude.{ℕ, String, false, ◌≡◌, Option, none, some, List}
use ratatoskr_chatgpt.Effect.{Result, ok, err}
use ratatoskr_chatgpt.Effect.Guards.{Preorder, Guards}
use ratatoskr_chatgpt.Import.{ImportState, is_terminal}
use ratatoskr_chatgpt.Receipt.World.{Db, Env, IoError}
use ratatoskr_chatgpt.Receipt.Records.{RepositoryError, duplicate_existing, PublishedExport}
use ratatoskr_chatgpt.Receipt.Settle.{
  fail_run, publish_opened, publish_staged, bind_operation, settle_duplicate, settle_published,
  settle_found, settle_hashed, HashedContext,
}
use ratatoskr_chatgpt.Receipt.Sql.Rules.{sql_rules}
use ratatoskr_chatgpt.Receipt.BlobStore.Rules.{Guards-read_file, Guards-store}
use ratatoskr_chatgpt.Receipt.Repository.Rules.{Guards-mark_failed, Guards-mark_duplicate}
use ratatoskr_chatgpt.Receipt.Publish.Rules.{
  Guards-find_export_by_digest, Guards-bind_platform_operation, Guards-publish_export,
}
use ratatoskr_chatgpt.Receipt.Orderly.{keeping, Accepts}

module _ (R : Preorder Db) where
  Guards-publish_opened :
      (env : Env) (media_type : String) (opened : Result IoError (List ℕ))
      → Guards (keeping R) (publish_opened env media_type opened)
  unfolding publish_opened
  Guards-publish_opened env media_type (ok bytes) = search (sql_rules, Guards-store)
  Guards-publish_opened env media_type (err e) = search sql_rules

  Guards-publish_staged :
      (env : Env) (media_type : String) (id : ℕ)
      → Guards (keeping R) (publish_staged env media_type id)
  unfolding publish_staged
  Guards-publish_staged env media_type id =
      search (sql_rules, Guards-read_file, Guards-publish_opened)

module _ (R : Preorder Db) (accepts : Accepts R) where
  -- Failing a run that is not terminal.
  pub Guards-fail_run :
      (id : ℕ) (expected : ImportState)
      → is_terminal expected ≡ false
      → Guards (keeping R) (fail_run id expected)
  unfolding fail_run
  Guards-fail_run id expected open_stage =
      search (sql_rules, Guards-mark_failed R accepts, open_stage)

  Guards-bind_operation :
      (existing : ℕ) (operation : Option ℕ) → Guards (keeping R) (bind_operation existing operation)
  unfolding bind_operation
  Guards-bind_operation existing none = search sql_rules
  Guards-bind_operation existing (some operation) =
      search (sql_rules, Guards-bind_platform_operation R accepts)

  Guards-settle_duplicate :
      (context : HashedContext) (operation : Option ℕ) (existing : ℕ)
      → Guards (keeping R) (settle_duplicate context operation existing)
  unfolding settle_duplicate
  Guards-settle_duplicate context operation existing =
      search (sql_rules, Guards-bind_operation, Guards-mark_duplicate R accepts)

  Guards-settle_published :
      (context : HashedContext) (operation : Option ℕ)
      (published : Result RepositoryError PublishedExport)
      → Guards (keeping R) (settle_published context operation published)
  unfolding settle_published
  Guards-settle_published context operation (ok p) = search sql_rules
  Guards-settle_published context operation (err (duplicate_existing existing)) =
      Guards-settle_duplicate context operation existing
  Guards-settle_published context operation (err _) = search sql_rules

  Guards-settle_found :
      (env : Env) (context : HashedContext) (operation found : Option ℕ)
      → Guards (keeping R) (settle_found env context operation found)
  unfolding settle_found
  Guards-settle_found env context operation (some existing) =
      Guards-settle_duplicate context operation existing
  Guards-settle_found env context operation none =
      search (
        sql_rules,
        Guards-publish_staged R,
        Guards-publish_export R accepts,
        Guards-settle_published,
      )

  pub Guards-settle_hashed :
      (env : Env) (context : HashedContext) (operation : Option ℕ)
      → Guards (keeping R) (settle_hashed env context operation)
  unfolding settle_hashed
  Guards-settle_hashed env context operation =
      search (sql_rules, Guards-find_export_by_digest R accepts, Guards-settle_found)
