-- ===== src/Receipt/Resume.antt =====
-- `ArchiveReceiver::resume` and `sweep_interrupted` of crates/chatgpt-archive/src/receipt/mod.rs: what
-- the next start of the service does with a run that a crash cut short.
pub mod Rules
pub mod Guarantees
pub mod Drift
use ratatoskr_chatgpt.Prelude.{
  ℕ, String, Option, none, some, List, [], ◌∷◌, ◌&&◌, if◌then◌else◌, ◌==◌, str_eq, length,
}
use ratatoskr_chatgpt.Effect.{Result, ok, err, pure, raise, map_err, attempt, ◌>>=◌, ◌>>◌}
use ratatoskr_chatgpt.Import.{ImportState, received, hashed, failed}
use ratatoskr_chatgpt.Receipt.World.{Env, IoError, not_found, other}
use ratatoskr_chatgpt.Receipt.Records.{RepositoryError, backend, RunRecord}
use ratatoskr_chatgpt.Receipt.Repository.{record_hash, mark_run, load_run, list_resumable}
use ratatoskr_chatgpt.Receipt.Staging.{remove_file, hash_file}
use ratatoskr_chatgpt.Receipt.Settle.{
  ReceiptOutcome, ReceiptError, staging_evidence_lost, storage, repository, Receipt, lift, fail_run,
  settle_hashed,
}

-- A file that is not there is lost evidence; any other failure is a storage fault.
read_error : IoError → ReceiptError
read_error not_found = staging_evidence_lost
read_error other = storage

-- Fails a run from the stage at which it is found now.
refuse_drifted : ℕ → Result RepositoryError (Option RunRecord) → Receipt Unit
refuse_drifted id (ok (some found)) = do attempt (mark_run id found.state failed); pure tt
refuse_drifted id (ok none) = pure tt
refuse_drifted id (err _) = pure tt

check_hashed : ℕ → String → ℕ → Result IoError (String × ℕ) → Receipt Unit
unfolding read_error refuse_drifted
check_hashed id expected_hex expected_length (ok (actual_hex, actual_length)) =
    if str_eq actual_hex expected_hex && actual_length == expected_length
    then pure tt
    else (do found ← attempt (load_run id); refuse_drifted id found; raise staging_evidence_lost)
check_hashed id expected_hex expected_length (err e) = raise (read_error e)

unfoldable pub verify_staged : Env → ℕ → String → ℕ → Receipt Unit
unfolding check_hashed
verify_staged env id expected_hex expected_length = do
  actual ← attempt (hash_file env id)
  check_hashed id expected_hex expected_length actual

-- Fails the run from the stage that was read, and answers the error.
give_up : {A : Type 0} → ℕ → ImportState → Result ReceiptError A → Receipt A
give_up id state (ok a) = pure a
give_up id state (err e) = do fail_run id state; raise e

-- A run at `received`: the digest of whatever was staged becomes its evidence.
rehash : Env → RunRecord → Receipt (String × ℕ)
unfolding read_error give_up
rehash env found = do
  hash ← attempt (map_err read_error (hash_file env found.id))
  (sha256_hex, byte_length) ← give_up found.id found.state hash
  map_err repository (record_hash found.id sha256_hex byte_length)
  pure (sha256_hex, byte_length)

length_or_zero : Option ℕ → ℕ
length_or_zero none = 0
length_or_zero (some n) = n

-- A run at `hashed`: what was staged has to be what was recorded.
reverify : Env → RunRecord → Option String → Receipt (String × ℕ)
unfolding length_or_zero give_up
reverify env found none = raise (repository backend)
reverify env found (some expected_hex) = do
  verified ← attempt (verify_staged env found.id expected_hex (length_or_zero found.byte_length))
  give_up found.id found.state verified
  pure (expected_hex, length_or_zero found.byte_length)

settle_resumed : Env → RunRecord → String × ℕ → Receipt (Option ReceiptOutcome)
settle_resumed env found (sha256_hex, byte_length) = do
  outcome ← attempt (
      settle_hashed env
        (record {
          run_id = found.id;
          tenant = found.account_external_ref;
          mode_spelling = found.acquisition_mode;
          media_type = found.media_type;
          sha256_hex = sha256_hex;
          byte_length = byte_length;
        })
        none)
  remove_file found.id
  settled ← lift outcome
  pure (some settled)

-- Only the first two stages are resumed; a terminal stage and those of later work are left alone.
resume_from : Env → RunRecord → ImportState → Receipt (Option ReceiptOutcome)
unfolding rehash reverify settle_resumed
resume_from env found received = do evidence ← rehash env found; settle_resumed env found evidence
resume_from env found hashed = do
  evidence ← reverify env found found.sha256_hex
  settle_resumed env found evidence
resume_from env found _ = pure none

resume_found : Env → Option RunRecord → Receipt (Option ReceiptOutcome)
unfolding resume_from
resume_found env none = raise staging_evidence_lost
resume_found env (some found) = resume_from env found found.state

unfoldable pub resume : Env → ℕ → Receipt (Option ReceiptOutcome)
unfolding resume_found
resume env id = do found ← map_err repository (load_run id); resume_found env found

resume_all : Env → List RunRecord → Receipt Unit
unfolding resume
resume_all env [] = pure tt
resume_all env (r ∷ rs) = do attempt (resume env r.id); resume_all env rs

sweep_listed : Env → Result RepositoryError (List RunRecord) → Receipt ℕ
unfolding resume_all
sweep_listed env (err _) = pure 0
sweep_listed env (ok records) = do resume_all env records; pure (length records)

unfoldable pub sweep_interrupted : Env → Receipt ℕ
unfolding sweep_listed
sweep_interrupted env = do records ← attempt list_resumable; sweep_listed env records
