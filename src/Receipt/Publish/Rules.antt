-- ===== src/Receipt/Publish/Rules.antt =====
-- Orders on the rows under the export operations of crates/chatgpt-archive/src/receipt/pg.rs.
use ratatoskr_chatgpt.Prelude.{ℕ, String, Option, none, some}
use ratatoskr_chatgpt.Effect.Guards.{Preorder, Guards}
use ratatoskr_chatgpt.Receipt.World.{Db, Env}
use ratatoskr_chatgpt.Receipt.Records.{PublishRequest}
use ratatoskr_chatgpt.Receipt.Publish.{
  find_export_by_digest, bind_to, bind_platform_operation, unless_duplicate, bind_new, publish_body,
  publish_export,
}
use ratatoskr_chatgpt.Receipt.Sql.Rules.{sql_rules}
use ratatoskr_chatgpt.Receipt.BlobStore.Rules.{Guards-register_blob}
use ratatoskr_chatgpt.Receipt.Orderly.{keeping, Accepts}

module _ (R : Preorder Db) (accepts : Accepts R) where
  pub Guards-find_export_by_digest :
      (account sha256_hex : String) → Guards (keeping R) (find_export_by_digest account sha256_hex)
  unfolding find_export_by_digest
  Guards-find_export_by_digest account sha256_hex = search sql_rules

  Guards-bind_to :
      (export_id operation_id : ℕ) (run_id : Option ℕ)
      → Guards (keeping R) (bind_to export_id operation_id run_id)
  unfolding bind_to
  Guards-bind_to export_id operation_id none = search sql_rules
  Guards-bind_to export_id operation_id (some run_id) = search (sql_rules, accepts.binds)

  pub Guards-bind_platform_operation :
      (export_id operation_id : ℕ)
      → Guards (keeping R) (bind_platform_operation export_id operation_id)
  unfolding bind_platform_operation
  Guards-bind_platform_operation export_id operation_id = search (sql_rules, Guards-bind_to)

  Guards-unless_duplicate : (found : Option ℕ) → Guards (keeping R) (unless_duplicate found)
  unfolding unless_duplicate
  Guards-unless_duplicate none = search sql_rules
  Guards-unless_duplicate (some existing) = search sql_rules

  Guards-bind_new :
      (run_id export_id : ℕ) (operation : Option ℕ)
      → Guards (keeping R) (bind_new run_id export_id operation)
  unfolding bind_new
  Guards-bind_new run_id export_id none = search sql_rules
  Guards-bind_new run_id export_id (some operation_id) = search (sql_rules, accepts.binds)

  Guards-publish_body :
      (env : Env) (request : PublishRequest) → Guards (keeping R) (publish_body env request)
  unfolding publish_body
  Guards-publish_body env request =
      search
        (
          sql_rules, Guards-unless_duplicate, Guards-bind_new, Guards-register_blob, accepts.owns,
          accepts.exports, accepts.stores,
        )
        depth 16

  pub Guards-publish_export :
      (env : Env) (request : PublishRequest) → Guards (keeping R) (publish_export env request)
  unfolding publish_export
  Guards-publish_export env request = search (sql_rules, Guards-publish_body)
