-- ===== src/Reconciliation/Model.antt =====
-- The evidence that reconciliation reads and writes: the parsed records of
-- crates/chatgpt-archive/src/synthetic_parser/model.rs, the histories of
-- crates/chatgpt-archive/src/reconciliation/model.rs and the reports of reconciliation/report.rs.
-- A floating-point number stands for its text.
use ratatoskr_chatgpt.Prelude.{ℕ, String, Bool, Option, List}
use ratatoskr_chatgpt.Json.{Json}
use ratatoskr_chatgpt.Receipt.World.{BlobRef}

pub data MessageRole : Type 0 where
  system user assistant tool internal unknown_role : MessageRole

pub data ContentPartKind : Type 0 where
  text tool_call tool_result image file unknown_part : ContentPartKind

pub data InstructionKind : Type 0 where
  instruction system_prompt unknown_instruction : InstructionKind

pub data AssetKind : Type 0 where
  uploaded generated unknown_asset : AssetKind

pub data AssetAvailability : Type 0 where
  missing quarantined verified : AssetAvailability

pub record ParsedContentPart : Type 0 where
  pub ordinal : ℕ
  pub kind : ContentPartKind
  pub payload : Json

pub record ParsedMessage : Type 0 where
  pub external_id : String
  pub parent_external_id : Option String
  pub role : MessageRole
  pub created_at_epoch_seconds : Option String
  pub updated_at_epoch_seconds : Option String
  pub model_slug : Option String
  pub provider_metadata : Json
  pub parts : List ParsedContentPart

pub record ParsedConversation : Type 0 where
  pub external_id : String
  pub title : Option String
  pub created_at_epoch_seconds : Option String
  pub updated_at_epoch_seconds : Option String
  pub provider_metadata : Json
  pub messages : List ParsedMessage

pub record ParsedInstruction : Type 0 where
  pub external_id : Option String
  pub ordinal : ℕ
  pub kind : InstructionKind
  pub content : Json
  pub provider_metadata : Json

pub record ParsedProject : Type 0 where
  pub external_id : String
  pub title : Option String
  pub description : Option String
  pub instructions : List ParsedInstruction
  pub conversation_external_ids : List String
  pub asset_external_ids : List String
  pub provider_metadata : Json

pub record ParsedCanvasDocument : Type 0 where
  pub external_id : String
  pub project_external_id : Option String
  pub conversation_external_id : Option String
  pub content : List Json
  pub provider_metadata : Json

pub data AssetAnomaly : Type 0 where
  missing_artifact extracted_artifact_quarantined blob_verification_failed : AssetAnomaly
  digest_mismatch length_mismatch media_type_mismatch : AssetAnomaly
  invalid_declaration ambiguous_artifact : AssetAnomaly

pub record ParsedAsset : Type 0 where
  pub external_id : String
  pub kind : AssetKind
  pub project_external_id : Option String
  pub conversation_external_id : Option String
  pub display_name : Option String
  pub media_type : Option String
  pub availability : AssetAvailability
  pub blob : Option BlobRef
  pub anomaly : Option AssetAnomaly
  pub provider_metadata : Json

pub record RawRecord : Type 0 where
  pub path : String
  pub payload : Json

-- `parser` is the name and the version of the parser.
pub record ParsedConversations : Type 0 where
  pub schema_id : String
  pub parser_name : String
  pub parser_version : String
  pub conversations : List ParsedConversation
  pub projects : List ParsedProject
  pub canvas_documents : List ParsedCanvasDocument
  pub assets : List ParsedAsset
  pub raw_records : List RawRecord

pub record ArchiveSnapshot : Type 0 where
  pub archive_id : String
  pub sequence : ℕ
  pub parsed : ParsedConversations

-- The digests of reconciliation/digest.rs, which hash canonical JSON.
pub record Digests : Type 0 where
  pub conversation_digest : ParsedConversation → String
  pub message_digest : ParsedMessage → String
  pub project_digest : ParsedProject → String
  pub instruction_digest : ParsedInstruction → String
  pub canvas_digest : ParsedCanvasDocument → String
  pub asset_digest : ParsedAsset → String

pub data ObservationState : Type 0 where
  present missing_from_latest_snapshot : ObservationState

pub record Observation : Type 0 where
  pub archive_id : String
  pub state : ObservationState
  pub revision_digest : Option String
  pub orphaned : Bool

-- The revisions of one identity, by their digests, in first-seen order, and what each archive
-- observed of it. `MessageHistory`, `InstructionHistory`, `CanvasDocumentHistory` and `AssetHistory`
-- have these fields.
pub record History : Type 0 where
  pub external_id : String
  pub revisions : List String
  pub observations : List Observation

pub record ConversationHistory : Type 0 where
  pub history : History
  pub open history use *
  pub messages : List History

pub record ProjectHistory : Type 0 where
  pub history : History
  pub open history use *
  pub instructions : List History

pub data WarningCode : Type 0 where
  missing_parent self_parent cross_conversation_parent : WarningCode

pub record ReconciliationWarning : Type 0 where
  pub code : WarningCode
  pub conversation_external_id : String
  pub message_external_id : Option String

pub data CoverageGap : Type 0 where
  project_relationships_unobserved assets_unobserved canvas_documents_unobserved : CoverageGap
  assets_missing assets_quarantined : CoverageGap

pub record RevisionStatistics : Type 0 where
  pub new_revisions : ℕ
  pub reused_revisions : ℕ
  pub present_conversation_observations : ℕ
  pub missing_conversation_observations : ℕ

pub data Completeness : Type 0 where
  unknown structurally_partial : Completeness

pub record ArchiveCompletenessReport : Type 0 where
  pub archive_id : String
  pub schema_id : String
  pub parser_id : String
  pub conversations_discovered : ℕ
  pub messages_discovered : ℕ
  pub projects_discovered : ℕ
  pub instructions_discovered : ℕ
  pub canvas_documents_discovered : ℕ
  pub asset_references_discovered : ℕ
  pub verified_assets : ℕ
  pub missing_assets : ℕ
  pub quarantined_assets : ℕ
  pub orphan_messages : ℕ
  pub parse_warning_count : ℕ
  pub warnings : List ReconciliationWarning
  pub gaps : List CoverageGap
  pub revision_statistics : RevisionStatistics
  pub completeness : Completeness

pub record CumulativeCompletenessReport : Type 0 where
  pub unique_conversations : ℕ
  pub unique_messages : ℕ
  pub unique_projects : ℕ
  pub unique_canvas_documents : ℕ
  pub unique_assets : ℕ
  pub conversation_revisions : ℕ
  pub message_revisions : ℕ
  pub project_revisions : ℕ
  pub canvas_document_revisions : ℕ
  pub asset_revisions : ℕ
  pub warnings : List ReconciliationWarning
  pub parse_warning_count : ℕ
  pub gaps : List CoverageGap
  pub revision_statistics : RevisionStatistics
  pub completeness : Completeness
