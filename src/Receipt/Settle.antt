-- ===== src/Receipt/Settle.antt =====
-- What `ArchiveReceiver` of crates/chatgpt-archive/src/receipt/mod.rs answers, and how it walks a
-- run that has its digest to a terminal class.
pub mod Rules
pub mod Outcomes
use ratatoskr_chatgpt.Prelude.{ℕ, String, Option, none, some, List}
use ratatoskr_chatgpt.Effect.{Result, ok, err, Exec, pure, raise, map_err, attempt, ◌>>=◌, ◌>>◌}
use ratatoskr_chatgpt.Import.{ImportState, hashed, failed}
use ratatoskr_chatgpt.Receipt.Mode.{AcquisitionMode, consumer_export}
use ratatoskr_chatgpt.Receipt.Mode
use ratatoskr_chatgpt.Receipt.World.{BlobRef, World, Env, IoError}
use ratatoskr_chatgpt.Receipt.Records.{RepositoryError, duplicate_existing, PublishedExport}
use ratatoskr_chatgpt.Receipt.Repository.{mark_run}
use ratatoskr_chatgpt.Receipt.Publish.{
  find_export_by_digest, bind_platform_operation, publish_export,
}
use ratatoskr_chatgpt.Receipt.BlobStore.{store, read_file}

pub data ReceiptOutcome : Type 0 where
  -- The export, the archive, the digest and the length.
  stored : ℕ → ℕ → String → ℕ → ReceiptOutcome
  -- The export that was there before, the digest and the length.
  duplicate : ℕ → String → ℕ → ReceiptOutcome

pub data ReceiptError : Type 0 where
  declared_size_exceeded stream_overgrown stream_failed storage : ReceiptError
  staging_evidence_lost invalid_media_type digest_mismatch : ReceiptError
  repository : RepositoryError → ReceiptError

-- `HashedContext`
pub record HashedContext : Type 0 where
  pub run_id : ℕ
  pub tenant : String
  pub mode_spelling : String
  pub media_type : String
  pub sha256_hex : String
  pub byte_length : ℕ

-- What a trusted boundary fixed before the upload: the digest and the Platform operation.
pub record ReceiptExpectations : Type 0 where
  pub expected_sha256_hex : Option String
  pub platform_operation : Option ℕ

abbrev pub Receipt : Type 0 → Type 0
Receipt A = Exec ReceiptError World A

-- `fail_run`, which passes over the refusal of a writer who already recorded an outcome.
unfoldable pub fail_run : ℕ → ImportState → Receipt Unit
fail_run id expected = do attempt (mark_run id expected failed); pure tt

-- The reading of the staging file while the blob store receives it: a refused read breaks the
-- stream.
publish_opened : Env → String → Result IoError (List ℕ) → Receipt BlobRef
publish_opened env media_type (err _) = raise storage
publish_opened env media_type (ok bytes) = map_err (λ _. storage) (store env media_type (ok bytes))

unfoldable pub publish_staged : Env → String → ℕ → Receipt BlobRef
unfolding publish_opened
publish_staged env media_type id = do
  opened ← attempt (read_file id)
  publish_opened env media_type opened

bind_operation : ℕ → Option ℕ → Receipt Unit
bind_operation existing none = pure tt
bind_operation existing (some operation) =
    map_err repository (bind_platform_operation existing operation)

settle_duplicate : HashedContext → Option ℕ → ℕ → Receipt ReceiptOutcome
unfolding bind_operation
settle_duplicate context operation existing = do
  bind_operation existing operation
  map_err repository (mark_run context.run_id hashed ImportState.duplicate)
  pure (duplicate existing context.sha256_hex context.byte_length)

settle_published :
    HashedContext → Option ℕ → Result RepositoryError PublishedExport → Receipt ReceiptOutcome
unfolding settle_duplicate
settle_published context operation (ok p) =
    pure (stored p.export_id p.ai_archive_id context.sha256_hex context.byte_length)
settle_published context operation (err (duplicate_existing existing)) =
    settle_duplicate context operation existing
settle_published context operation (err e) = raise (repository e)

mode_or_consumer : Option AcquisitionMode → AcquisitionMode
mode_or_consumer none = consumer_export
mode_or_consumer (some mode) = mode

settle_found : Env → HashedContext → Option ℕ → Option ℕ → Receipt ReceiptOutcome
unfolding settle_duplicate settle_published publish_staged mode_or_consumer
settle_found env context operation (some existing) = settle_duplicate context operation existing
settle_found env context operation none = do
  blob_ref ← publish_staged env context.media_type context.run_id
  published ← attempt (
      publish_export env (record {
        run_id = context.run_id;
        account_external_ref = context.tenant;
        mode = mode_or_consumer (Mode.parse context.mode_spelling);
        blob_ref = blob_ref;
        sha256_hex = context.sha256_hex;
        byte_length = context.byte_length;
        platform_operation = operation;
      }))
  settle_published context operation published

-- Walks a hashed run to its terminal class: duplicate check, publication, export.
unfoldable pub settle_hashed : Env → HashedContext → Option ℕ → Receipt ReceiptOutcome
unfolding settle_found
settle_hashed env context operation = do
  found ← map_err repository (find_export_by_digest context.tenant context.sha256_hex)
  settle_found env context operation found

abbrev pub lift : {A : Type 0} → Result ReceiptError A → Receipt A
lift r w = (r, w)
