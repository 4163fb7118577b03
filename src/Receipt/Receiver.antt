-- ===== src/Receipt/Receiver.antt =====
-- `ArchiveReceiver::receive_inner` of crates/chatgpt-archive/src/receipt/mod.rs and its three public
-- forms: one upload from its first byte to its terminal class. The counters and the log lines are
-- left out: nothing reads them back.
pub mod Rules
pub mod Guarantees
pub mod Outcomes
use ratatoskr_chatgpt.Prelude.{
  ℕ, String, Bool, false, Option, none, some, List, not, if◌then◌else◌, ◌==◌, ltb, str_eq,
}
use ratatoskr_chatgpt.Effect.{Result, ok, err, raise, map_err, attempt, ◌>>=◌, ◌>>◌}
use ratatoskr_chatgpt.Import.{received}
use ratatoskr_chatgpt.Receipt.Mode.{AcquisitionMode, consumer_export}
use ratatoskr_chatgpt.Receipt.Mode
use ratatoskr_chatgpt.Receipt.World.{Env}
use ratatoskr_chatgpt.Receipt.Repository.{create_run, record_hash}
use ratatoskr_chatgpt.Receipt.Staging.{
  Item, StagingFailure, overgrown, stream_broken, disk, stream_to_staging, remove_file,
}
use ratatoskr_chatgpt.Receipt.Settle.{
  ReceiptOutcome, ReceiptError, declared_size_exceeded, stream_overgrown, stream_failed, storage,
  invalid_media_type, digest_mismatch, repository, ReceiptExpectations, Receipt, lift, fail_run,
  settle_hashed,
}

-- The arguments of `receive_inner` but the stream.
pub record Upload : Type 0 where
  pub tenant : String
  pub mode : AcquisitionMode
  pub media_type : String
  pub declared_length : Option ℕ
  pub expectations : ReceiptExpectations

staging_error : StagingFailure → ReceiptError
staging_error overgrown = stream_overgrown
staging_error stream_broken = stream_failed
staging_error disk = storage

-- `is_some_and(|declared| declared > max)` and the two tests beside it.
declared_over : ℕ → Option ℕ → Bool
declared_over limit none = false
declared_over limit (some declared) = ltb limit declared

declared_other : ℕ → Option ℕ → Bool
declared_other byte_length none = false
declared_other byte_length (some declared) = not (declared == byte_length)

expected_other : String → Option String → Bool
expected_other sha256_hex none = false
expected_other sha256_hex (some expected) = not (str_eq expected sha256_hex)

-- Removes the staging file, fails the run and answers the error.
abandon : ℕ → ReceiptError → Receipt ReceiptOutcome
abandon id e = do remove_file id; fail_run id received; raise e

-- A full body that agrees with what was declared: it is recorded, settled, and its file removed.
accept : Env → Upload → ℕ → String → ℕ → Receipt ReceiptOutcome
accept env upload id sha256_hex byte_length = do
  map_err repository (record_hash id sha256_hex byte_length)
  outcome ← attempt (
      settle_hashed env
        (record {
          run_id = id;
          tenant = upload.tenant;
          mode_spelling = Mode.as_str upload.mode;
          media_type = upload.media_type;
          sha256_hex = sha256_hex;
          byte_length = byte_length;
        })
        upload.expectations.platform_operation)
  remove_file id
  lift outcome

receive_staged : Env → Upload → ℕ → Result StagingFailure (String × ℕ) → Receipt ReceiptOutcome
unfolding abandon staging_error accept declared_other expected_other
receive_staged env upload id (err failure) = abandon id (staging_error failure)
receive_staged env upload id (ok (sha256_hex, byte_length)) =
    if declared_other byte_length upload.declared_length
    then abandon id stream_failed
    else if expected_other sha256_hex upload.expectations.expected_sha256_hex
    then abandon id digest_mismatch
    else accept env upload id sha256_hex byte_length

receive_run : Env → Upload → List Item → ℕ → Receipt ReceiptOutcome
unfolding receive_staged declared_over
receive_run env upload items id =
    if declared_over env.max_archive_bytes upload.declared_length
    then (do fail_run id received; raise declared_size_exceeded)
    else (do staged ← attempt (stream_to_staging env id items); receive_staged env upload id staged)

unfoldable pub receive_inner : Env → Upload → List Item → Receipt ReceiptOutcome
unfolding receive_run
receive_inner env upload items =
    if env.is_media_type upload.media_type
    then (do
      id ← map_err repository (create_run env upload.tenant upload.mode upload.media_type)
      receive_run env upload items id)
    else raise invalid_media_type

-- `receive`: nothing was fixed before the upload.
unfoldable pub receive :
    Env → String → AcquisitionMode → String → Option ℕ → List Item → Receipt ReceiptOutcome
unfolding receive_inner
receive env tenant mode media_type declared_length items =
    receive_inner env
      (record {
        tenant = tenant;
        mode = mode;
        media_type = media_type;
        declared_length = declared_length;
        expectations = record { expected_sha256_hex = none; platform_operation = none };
      })
      items

-- `receive_with_expected_digest`: the digest was fixed before the upload.
unfoldable pub receive_with_expected_digest :
    Env → String → AcquisitionMode → String → Option ℕ → String → List Item → Receipt ReceiptOutcome
unfolding receive_inner
receive_with_expected_digest env tenant mode media_type declared_length expected items =
    receive_inner env
      (record {
        tenant = tenant;
        mode = mode;
        media_type = media_type;
        declared_length = declared_length;
        expectations = record { expected_sha256_hex = some expected; platform_operation = none };
      })
      items

-- `receive_platform_archive`: the digest, the length and the operation come with the claims.
unfoldable pub receive_platform_archive :
    Env → String → String → ℕ → String → ℕ → List Item → Receipt ReceiptOutcome
unfolding receive_inner
receive_platform_archive env tenant media_type declared_length expected operation items =
    receive_inner env
      (record {
        tenant = tenant;
        mode = consumer_export;
        media_type = media_type;
        declared_length = some declared_length;
        expectations = record {
          expected_sha256_hex = some expected;
          platform_operation = some operation;
        };
      })
      items
