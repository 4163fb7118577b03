-- ===== src/Parser/Archive.antt =====
-- crates/chatgpt-archive/src/synthetic_parser/mod.rs: the parser of an archive, and how the registry
-- runs it on the entries of one, with the media types that archive.rs gives them.
use ratatoskr_chatgpt.Prelude.{
  ℕ, String, Bool, not, ◌&&◌, Option, none, some, List, [], ◌∷◌, if◌then◌else◌, str_eq,
}
use ratatoskr_chatgpt.Effect.{ok, Exec, pure, raise, map_err, ◌>>=◌}
use ratatoskr_chatgpt.Receipt.World.{BlobRef, Env, World}
use ratatoskr_chatgpt.Receipt.BlobStore.{BlobStoreError, unavailable, stream}
use ratatoskr_chatgpt.Receipt.BlobStore
use ratatoskr_chatgpt.Reconciliation.Model.{ParsedConversations, ParsedAsset, RawRecord}
use ratatoskr_chatgpt.Parser.Input.{Readers}
use ratatoskr_chatgpt.Parser.Decode.{
  SyntheticParserError, unexpected_selection, storage_unavailable, ParserId, parse_documents,
}
use ratatoskr_chatgpt.Parser.Assets.{ExtractedArtifact, settle, parse_assets}
use ratatoskr_chatgpt.Parser.Registry.{same_id, synthetic_registration}

pub data EntryKind : Type 0 where
  directory json html media text unknown : EntryKind

-- `archive::media_type`
abbrev pub media_type : EntryKind → String
media_type json = "application/json"
media_type html = "text/html"
media_type text = "text/plain"
media_type _ = "application/octet-stream"

pub record ParserArtifactEvidence : Type 0 where
  pub path : String
  pub bytes : List ℕ
  pub is_quarantined : Bool

-- `ParserExecutionInput`; of the inventory the paths and the kinds of its entries are read.
pub record ExecutionInput : Type 0 where
  pub entries : List (String × EntryKind)
  pub artifacts : List ParserArtifactEvidence

-- `ParserExecutionError`
pub data ExecutionError : Type 0 where
  failed storage : ExecutionError

-- `SyntheticArchiveInput`
pub record ArchiveInput : Type 0 where
  pub selected : ParserId
  pub conversations_json : List ℕ
  pub projects_json : Option (List ℕ)
  pub canvas_json : Option (List ℕ)
  pub assets_json : Option (List ℕ)
  pub extracted_artifacts : List ExtractedArtifact

abbrev with_assets : ParsedConversations → List ParsedAsset → List RawRecord → ParsedConversations
with_assets parsed assets records = record {
  schema_id = parsed.schema_id;
  parser_name = parsed.parser_name;
  parser_version = parsed.parser_version;
  conversations = parsed.conversations;
  projects = parsed.projects;
  canvas_documents = parsed.canvas_documents;
  assets = assets;
  raw_records = records;
}

parse_archive : Env → Readers → ArchiveInput → Exec SyntheticParserError World ParsedConversations
unfolding same_id parse_documents settle parse_assets
parse_archive env readers input =
    if not (same_id input.selected synthetic_registration.id)
    then raise unexpected_selection
    else (do
      parsed ← settle (
          parse_documents readers input.conversations_json input.projects_json input.canvas_json
            input.selected)
      (assets, records) ←
          parse_assets env readers.assets input.assets_json input.extracted_artifacts
            parsed.raw_records
      pure (with_assets parsed assets records))

-- The first entry under a path that is not quarantined.
unfoldable pub evidence : String → List ParserArtifactEvidence → Option (List ℕ)
evidence name [] = none
evidence name (a ∷ artifacts) =
    let rest = evidence name artifacts in
    if str_eq a.path name && not a.is_quarantined then some a.bytes else rest

unfoldable pub kind_of : String → List (String × EntryKind) → EntryKind
kind_of path [] = unknown
kind_of path ((name, kind) ∷ entries) =
    let rest = kind_of path entries in if str_eq name path then kind else rest

abbrev store_fault : BlobStoreError → ExecutionError
store_fault unavailable = storage
store_fault stream = storage
store_fault _ = failed

abbrev parser_fault : SyntheticParserError → ExecutionError
parser_fault storage_unavailable = storage
parser_fault _ = failed

abbrev artifact_of : ParserArtifactEvidence → BlobRef → ExtractedArtifact
artifact_of a blob = record { entry_path = a.path; blob = blob; is_quarantined = a.is_quarantined }

extract_entries :
    Env
    → List (String × EntryKind)
    → List ParserArtifactEvidence
    → Exec ExecutionError World (List ExtractedArtifact)
unfolding kind_of map_err
extract_entries env entries [] = pure []
extract_entries env entries (a ∷ artifacts) = do
  blob ←
      map_err store_fault (BlobStore.store env (media_type (kind_of a.path entries)) (ok a.bytes))
  rest ← extract_entries env entries artifacts
  pure (artifact_of a blob ∷ rest)

extract_for :
    Env → ExecutionInput → Option (List ℕ) → Exec ExecutionError World (List ExtractedArtifact)
unfolding extract_entries
extract_for env input none = pure []
extract_for env input (some source) = extract_entries env input.entries input.artifacts

execute_on :
    Env → Readers → ExecutionInput → Option (List ℕ) → Exec ExecutionError World ParsedConversations
unfolding extract_for evidence parse_archive map_err
execute_on env readers input none = raise failed
execute_on env readers input (some conversations) = do
  extracted ← extract_for env input (evidence "assets.json" input.artifacts)
  map_err parser_fault (
      parse_archive env readers (record {
        selected = synthetic_registration.id;
        conversations_json = conversations;
        projects_json = evidence "projects.json" input.artifacts;
        canvas_json = evidence "canvas.json" input.artifacts;
        assets_json = evidence "assets.json" input.artifacts;
        extracted_artifacts = extracted;
      }))

unfoldable pub execute_registered :
    Env → Readers → ExecutionInput → Exec ExecutionError World ParsedConversations
unfolding execute_on
execute_registered env readers input =
    execute_on env readers input (evidence "conversations.json" input.artifacts)
