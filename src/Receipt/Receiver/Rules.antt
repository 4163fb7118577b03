-- ===== src/Receipt/Receiver/Rules.antt =====
-- Orders on the rows under `receive_inner` of crates/chatgpt-archive/src/receipt/mod.rs.
use ratatoskr_chatgpt.Prelude.{ℕ, String, false, refl, ◌≡◌, List}
use ratatoskr_chatgpt.Effect.{Result, ok, err}
use ratatoskr_chatgpt.Effect.Guards.{Preorder, Guards}
use ratatoskr_chatgpt.Import.{received, is_terminal}
use ratatoskr_chatgpt.Receipt.World.{Db, Env}
use ratatoskr_chatgpt.Receipt.Settle.{ReceiptError, lift}
use ratatoskr_chatgpt.Receipt.Staging.{Item, StagingFailure}
use ratatoskr_chatgpt.Receipt.Receiver.{
  Upload, abandon, accept, receive_staged, receive_run, receive_inner,
}
use ratatoskr_chatgpt.Receipt.Sql.Rules.{sql_rules}
use ratatoskr_chatgpt.Receipt.Repository.Rules.{Guards-create_run, Guards-record_hash}
use ratatoskr_chatgpt.Receipt.Staging.Rules.{Guards-stream_to_staging, Guards-remove_file}
use ratatoskr_chatgpt.Receipt.Settle.Rules.{Guards-fail_run, Guards-settle_hashed}
use ratatoskr_chatgpt.Receipt.Orderly.{keeping, Accepts}

received_open : is_terminal received ≡ false
unfolding is_terminal
received_open = refl

module _ (R : Preorder Db) (accepts : Accepts R) where
  pub Guards-lift : {A : Type 0} (r : Result ReceiptError A) → Guards (keeping R) (lift r)
  Guards-lift r = record { at = (keeping R).same }

  Guards-abandon : (id : ℕ) (e : ReceiptError) → Guards (keeping R) (abandon id e)
  unfolding abandon
  Guards-abandon id e =
      search (sql_rules, Guards-remove_file, Guards-fail_run R accepts, received_open)

  Guards-accept :
      (env : Env) (upload : Upload) (id : ℕ) (sha256_hex : String) (byte_length : ℕ)
      → Guards (keeping R) (accept env upload id sha256_hex byte_length)
  unfolding accept
  Guards-accept env upload id sha256_hex byte_length =
      search
        (
          sql_rules,
          Guards-remove_file,
          Guards-record_hash R accepts,
          Guards-settle_hashed R accepts,
          Guards-lift,
        )
        depth 8

  Guards-receive_staged :
      (env : Env) (upload : Upload) (id : ℕ) (staged : Result StagingFailure (String × ℕ))
      → Guards (keeping R) (receive_staged env upload id staged)
  unfolding receive_staged
  Guards-receive_staged env upload id (err failure) = Guards-abandon id _
  Guards-receive_staged env upload id (ok (sha256_hex, byte_length)) =
      search (sql_rules, Guards-abandon, Guards-accept)

  Guards-receive_run :
      (env : Env) (upload : Upload) (items : List Item) (id : ℕ)
      → Guards (keeping R) (receive_run env upload items id)
  unfolding receive_run
  Guards-receive_run env upload items id = search (
    sql_rules,
    Guards-stream_to_staging,
    Guards-receive_staged,
    Guards-fail_run R accepts,
    received_open,
  )

  pub Guards-receive_inner :
      (env : Env) (upload : Upload) (items : List Item)
      → Guards (keeping R) (receive_inner env upload items)
  unfolding receive_inner
  Guards-receive_inner env upload items =
      search (sql_rules, Guards-create_run R accepts, Guards-receive_run)
