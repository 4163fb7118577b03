-- ===== src/Receipt/Records.antt =====
-- What crosses the persistence seam of crates/chatgpt-archive/src/receipt/repository.rs.
use ratatoskr_chatgpt.Prelude.{ℕ, String, Option, if◌then◌else◌, leb}
use ratatoskr_chatgpt.Import.{ImportState}
use ratatoskr_chatgpt.Receipt.Mode.{AcquisitionMode}
use ratatoskr_chatgpt.Receipt.World.{BlobRef}

pub data RepositoryError : Type 0 where
  backend conflict blob_unavailable : RepositoryError
  duplicate_existing : ℕ → RepositoryError

pub record PublishedExport : Type 0 where
  pub export_id : ℕ
  pub ai_archive_id : ℕ

pub record PublishRequest : Type 0 where
  pub run_id : ℕ
  pub account_external_ref : String
  pub mode : AcquisitionMode
  pub blob_ref : BlobRef
  pub sha256_hex : String
  pub byte_length : ℕ
  pub platform_operation : Option ℕ

pub record RunRecord : Type 0 where
  pub id : ℕ
  pub account_external_ref : String
  pub acquisition_mode : String
  pub media_type : String
  pub state : ImportState
  pub sha256_hex : Option String
  pub byte_length : Option ℕ
  pub export_id : Option ℕ

abbrev pub i64_max : ℕ
i64_max = 9223372036854775807

unfoldable pub to_i64 : ℕ → ℕ
to_i64 value = if leb value i64_max then value else i64_max
