-- ===== src/Receipt/Repository/Rules.antt =====
-- Orders on the rows under the run operations of crates/chatgpt-archive/src/receipt/pg.rs.
use ratatoskr_chatgpt.Prelude.{ℕ, String, ◌≡◌, false}
use ratatoskr_chatgpt.Effect.Guards.{Preorder, Guards}
use ratatoskr_chatgpt.Import.{ImportState, hashed, failed, duplicate, is_terminal}
use ratatoskr_chatgpt.Receipt.Mode.{AcquisitionMode}
use ratatoskr_chatgpt.Receipt.World.{Db, Env}
use ratatoskr_chatgpt.Receipt.Repository.{
  create_run, record_hash, mark_run, load_run, list_resumable,
}
use ratatoskr_chatgpt.Receipt.Sql.Rules.{sql_rules}
use ratatoskr_chatgpt.Receipt.Orderly.{keeping, Accepts}

module _ (R : Preorder Db) (accepts : Accepts R) where
  pub Guards-create_run :
      (env : Env) (account : String) (mode : AcquisitionMode) (media_type : String)
      → Guards (keeping R) (create_run env account mode media_type)
  unfolding create_run
  Guards-create_run env account mode media_type = search (sql_rules, accepts.creates) depth 7

  pub Guards-record_hash :
      (id : ℕ) (sha256_hex : String) (byte_length : ℕ)
      → Guards (keeping R) (record_hash id sha256_hex byte_length)
  unfolding record_hash
  Guards-record_hash id sha256_hex byte_length = search (sql_rules, accepts.hashes)

  pub Guards-mark_failed :
      (id : ℕ) (expected : ImportState)
      → is_terminal expected ≡ false
      → Guards (keeping R) (mark_run id expected failed)
  unfolding mark_run
  Guards-mark_failed id expected open_stage = search (sql_rules, accepts.fails, open_stage)

  pub Guards-mark_duplicate : (id : ℕ) → Guards (keeping R) (mark_run id hashed duplicate)
  unfolding mark_run
  Guards-mark_duplicate id = search (sql_rules, accepts.repeats)

  pub Guards-load_run : (id : ℕ) → Guards (keeping R) (load_run id)
  unfolding load_run
  Guards-load_run id = search sql_rules

  pub Guards-list_resumable : Guards (keeping R) list_resumable
  unfolding list_resumable
  Guards-list_resumable = search sql_rules
