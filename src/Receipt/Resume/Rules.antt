-- ===== src/Receipt/Resume/Rules.antt =====
-- Orders on the rows under `resume` of crates/chatgpt-archive/src/receipt/mod.rs, for an order that
-- lets a run be failed from whatever stage it is found at.
use ratatoskr_chatgpt.Prelude.{ℕ, String, Option, none, some, List, [], ◌∷◌}
use ratatoskr_chatgpt.Effect.{Result, ok, err}
use ratatoskr_chatgpt.Effect.Guards.{Preorder, Guards, Guards-bind, Guards-attempt}
use ratatoskr_chatgpt.Import.{ImportState, received, hashed, failed}
use ratatoskr_chatgpt.Receipt.World.{Db, Env, IoError}
use ratatoskr_chatgpt.Receipt.Records.{RepositoryError, RunRecord}
use ratatoskr_chatgpt.Receipt.Sql.{sits_at, update_runs}
use ratatoskr_chatgpt.Receipt.Repository.{set_state, mark_run}
use ratatoskr_chatgpt.Receipt.Settle.{ReceiptError, fail_run}
use ratatoskr_chatgpt.Receipt.Resume.{
  refuse_drifted, check_hashed, verify_staged, give_up, rehash, reverify, settle_resumed,
  resume_from, resume_found, resume, resume_all, sweep_listed, sweep_interrupted,
}
use ratatoskr_chatgpt.Receipt.Sql.Rules.{sql_rules}
use ratatoskr_chatgpt.Receipt.Repository.Rules.{
  Guards-record_hash, Guards-load_run, Guards-list_resumable,
}
use ratatoskr_chatgpt.Receipt.Staging.Rules.{Guards-remove_file, Guards-hash_file}
use ratatoskr_chatgpt.Receipt.Settle.Rules.{Guards-settle_hashed}
use ratatoskr_chatgpt.Receipt.Receiver.Rules.{Guards-lift}
use ratatoskr_chatgpt.Receipt.Orderly.{keeping, Respects, Accepts}

module _ (R : Preorder Db) (accepts : Accepts R)
    (overrules : (id : ℕ) (state : ImportState)
      → Respects R (update_runs (sits_at id state) (set_state failed))) where
  Guards-mark_any : (id : ℕ) (state : ImportState) → Guards (keeping R) (mark_run id state failed)
  unfolding mark_run
  Guards-mark_any id state = search (sql_rules, overrules)

  Guards-fail_any : (id : ℕ) (state : ImportState) → Guards (keeping R) (fail_run id state)
  unfolding fail_run
  Guards-fail_any id state = search (sql_rules, Guards-mark_any)

  Guards-refuse_drifted :
      (id : ℕ) (found : Result RepositoryError (Option RunRecord))
      → Guards (keeping R) (refuse_drifted id found)
  unfolding refuse_drifted
  Guards-refuse_drifted id (ok (some found)) = search (sql_rules, Guards-mark_any)
  Guards-refuse_drifted id (ok none) = search sql_rules
  Guards-refuse_drifted id (err e) = search sql_rules

  Guards-check_hashed :
      (id : ℕ) (expected_hex : String) (expected_length : ℕ) (actual : Result IoError (String × ℕ))
      → Guards (keeping R) (check_hashed id expected_hex expected_length actual)
  unfolding check_hashed
  Guards-check_hashed id expected_hex expected_length (ok (actual_hex, actual_length)) =
      search (sql_rules, Guards-load_run R accepts, Guards-refuse_drifted) depth 8
  Guards-check_hashed id expected_hex expected_length (err e) = search sql_rules

  pub Guards-verify_staged :
      (env : Env) (id : ℕ) (expected_hex : String) (expected_length : ℕ)
      → Guards (keeping R) (verify_staged env id expected_hex expected_length)
  unfolding verify_staged
  Guards-verify_staged env id expected_hex expected_length =
      search (sql_rules, Guards-hash_file R, Guards-check_hashed)

  Guards-give_up :
      {A : Type 0} (id : ℕ) (state : ImportState) (r : Result ReceiptError A)
      → Guards (keeping R) (give_up id state r)
  unfolding give_up
  Guards-give_up id state (ok a) = search sql_rules
  Guards-give_up id state (err e) = search (sql_rules, Guards-fail_any)

  Guards-rehash : (env : Env) (found : RunRecord) → Guards (keeping R) (rehash env found)
  unfolding rehash
  Guards-rehash env found =
      search (sql_rules, Guards-hash_file R, Guards-give_up, Guards-record_hash R accepts) depth 9

  Guards-reverify :
      (env : Env) (found : RunRecord) (expected : Option String)
      → Guards (keeping R) (reverify env found expected)
  unfolding reverify
  Guards-reverify env found none = search sql_rules
  Guards-reverify env found (some expected_hex) =
      search (sql_rules, Guards-verify_staged, Guards-give_up) depth 8

  Guards-settle_resumed :
      (env : Env) (found : RunRecord) (evidence : String × ℕ)
      → Guards (keeping R) (settle_resumed env found evidence)
  unfolding settle_resumed
  Guards-settle_resumed env found (sha256_hex, byte_length) =
      search
        (sql_rules, Guards-settle_hashed R accepts, Guards-remove_file R, Guards-lift R accepts)
        depth 9

  Guards-resume_from :
      (env : Env) (found : RunRecord) (state : ImportState)
      → Guards (keeping R) (resume_from env found state)
  unfolding resume_from
  Guards-resume_from env found received = search (sql_rules, Guards-rehash, Guards-settle_resumed)
  Guards-resume_from env found hashed = search (sql_rules, Guards-reverify, Guards-settle_resumed)
  Guards-resume_from env found _ = search sql_rules

  Guards-resume_found :
      (env : Env) (found : Option RunRecord) → Guards (keeping R) (resume_found env found)
  unfolding resume_found
  Guards-resume_found env none = search sql_rules
  Guards-resume_found env (some found) = Guards-resume_from env found found.state

  pub Guards-resume : (env : Env) (id : ℕ) → Guards (keeping R) (resume env id)
  unfolding resume
  Guards-resume env id = search (sql_rules, Guards-load_run R accepts, Guards-resume_found)

  Guards-resume_all :
      (env : Env) (records : List RunRecord) → Guards (keeping R) (resume_all env records)
  unfolding resume_all
  Guards-resume_all env [] = search sql_rules
  Guards-resume_all env (r ∷ rs) =
      Guards-bind _ _ (Guards-attempt _ (Guards-resume env r.id)) (λ _. Guards-resume_all env rs)

  Guards-sweep_listed :
      (env : Env) (records : Result RepositoryError (List RunRecord))
      → Guards (keeping R) (sweep_listed env records)
  unfolding sweep_listed
  Guards-sweep_listed env (ok records) = search (sql_rules, Guards-resume_all)
  Guards-sweep_listed env (err e) = search sql_rules

  pub Guards-sweep_interrupted : (env : Env) → Guards (keeping R) (sweep_interrupted env)
  unfolding sweep_interrupted
  Guards-sweep_interrupted env =
      Guards-bind _ _ (Guards-attempt _ (Guards-list_resumable R accepts))
        (λ records. Guards-sweep_listed env records)
