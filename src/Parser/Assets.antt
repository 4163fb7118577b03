-- ===== src/Parser/Assets.antt =====
-- crates/chatgpt-archive/src/synthetic_parser/assets.rs: the verification of declared files.
pub mod Verdicts
use ratatoskr_chatgpt.Prelude.{
  ℕ, suc, String, Bool, true, false, not, Option, none, some, List, [], ◌∷◌, if◌then◌else◌, str_eq,
  ◌==◌,
}
use ratatoskr_chatgpt.Json.{object}
use ratatoskr_chatgpt.Effect.{Result, ok, err, Exec, pure, raise, attempt, ◌>>=◌}
use ratatoskr_chatgpt.Outbox.Store.{select}
use ratatoskr_chatgpt.Receipt.World.{BlobRef, Env, World}
use ratatoskr_chatgpt.Receipt.BlobStore.{BlobStoreError, unavailable, stream}
use ratatoskr_chatgpt.Receipt.BlobStore
use ratatoskr_chatgpt.Reconciliation.Model.{
  AssetAvailability, quarantined, verified, AssetAnomaly, missing_artifact,
  extracted_artifact_quarantined, blob_verification_failed, digest_mismatch, length_mismatch,
  media_type_mismatch, invalid_declaration, ambiguous_artifact, AssetKind, uploaded, generated,
  unknown_asset, ParsedAsset, RawRecord,
}
use ratatoskr_chatgpt.Reconciliation.Model
use ratatoskr_chatgpt.Parser.Input.{AssetInput}
use ratatoskr_chatgpt.Parser.Parts.{record_extra}
use ratatoskr_chatgpt.Parser.Decode.{
  SyntheticParserError, invalid_document, storage_unavailable, at_index,
}

-- `ExtractedArtifact`: what the archive held at a path.
pub record ExtractedArtifact : Type 0 where
  pub entry_path : String
  pub blob : BlobRef
  pub is_quarantined : Bool

-- `Verdict`
pub record Verdict : Type 0 where
  pub availability : AssetAvailability
  pub blob : Option BlobRef
  pub anomaly : Option AssetAnomaly

quarantine : AssetAnomaly → Verdict
quarantine anomaly = record { availability = quarantined; blob = none; anomaly = some anomaly }

unfoldable pub check_media_type : BlobRef → Option String → Verdict
unfolding quarantine
check_media_type blob none = quarantine invalid_declaration
check_media_type blob (some declared) =
    if not (str_eq declared blob.media_type)
    then quarantine media_type_mismatch
    else record { availability = verified; blob = some blob; anomaly = none }

unfoldable pub check_length : AssetInput → BlobRef → Option ℕ → Verdict
unfolding check_media_type
check_length input blob none = quarantine invalid_declaration
check_length input blob (some declared) =
    if not (declared == blob.length_bytes)
    then quarantine length_mismatch
    else check_media_type blob input.media_type

unfoldable pub check_declaration : AssetInput → BlobRef → Option String → Verdict
unfolding check_length
check_declaration input blob none = quarantine invalid_declaration
check_declaration input blob (some declared) =
    if not (str_eq declared blob.digest_hex)
    then quarantine digest_mismatch
    else check_length input blob input.length_bytes

-- `match blob_store.verify(…)` and what follows it.
unfoldable pub judge :
    AssetInput → BlobRef → Result BlobStoreError Unit → Result SyntheticParserError Verdict
unfolding check_declaration
judge input blob (ok u) = ok (check_declaration input blob input.sha256)
judge input blob (err unavailable) = err storage_unavailable
judge input blob (err stream) = err storage_unavailable
judge input blob (err _) = ok (quarantine blob_verification_failed)

unfoldable pub settle :
    {A : Type 0} → Result SyntheticParserError A → Exec SyntheticParserError World A
settle r w = (r, w)

unfoldable pub verify_artifact :
    Env → AssetInput → ExtractedArtifact → Exec SyntheticParserError World Verdict
unfolding judge settle
verify_artifact env input artifact =
    if artifact.is_quarantined
    then pure (quarantine extracted_artifact_quarantined)
    else attempt (BlobStore.verify env artifact.blob) >>= λ r. settle (judge input artifact.blob r)

unfoldable pub verify_matching :
    Env → AssetInput → List ExtractedArtifact → Exec SyntheticParserError World Verdict
unfolding verify_artifact
verify_matching env input [] = pure (quarantine missing_artifact)
verify_matching env input (artifact ∷ []) = verify_artifact env input artifact
verify_matching env input (artifact ∷ other ∷ rest) = pure (quarantine ambiguous_artifact)

unfoldable pub verify_path :
    Env
    → AssetInput
    → List ExtractedArtifact
    → Option String
    → Exec SyntheticParserError World Verdict
unfolding verify_matching select
verify_path env input artifacts none =
    pure (record { availability = Model.missing; blob = none; anomaly = none })
verify_path env input artifacts (some path) =
    verify_matching env input (select (λ a. str_eq a.entry_path path) artifacts)

unfoldable pub verify_asset :
    Env → AssetInput → List ExtractedArtifact → Exec SyntheticParserError World Verdict
unfolding verify_path
verify_asset env input artifacts = verify_path env input artifacts input.archive_path

asset_kind : String → AssetKind
asset_kind kind =
    if str_eq kind "uploaded"
    then uploaded
    else if str_eq kind "generated"
    then generated
    else unknown_asset

abbrev asset_of : AssetInput → Verdict → ParsedAsset
asset_of input verdict = record {
  external_id = input.id;
  kind = asset_kind input.kind;
  project_external_id = input.project_id;
  conversation_external_id = input.conversation_id;
  display_name = input.display_name;
  media_type = input.media_type;
  availability = verdict.availability;
  blob = verdict.blob;
  anomaly = verdict.anomaly;
  provider_metadata = object input.extra;
}

-- `parse_one` for each declaration from `index` on.
parse_all :
    Env
    → List ExtractedArtifact
    → ℕ
    → List AssetInput
    → List RawRecord
    → Exec SyntheticParserError World (List ParsedAsset × List RawRecord)
unfolding verify_asset record_extra asset_kind
parse_all env artifacts index [] records = pure ([], records)
parse_all env artifacts index (input ∷ inputs) records = do
  verdict ← verify_asset env input artifacts
  rest ←
      parse_all env artifacts (suc index) inputs
        (record_extra (at_index "/assets/" index) input.extra records)
  pure (asset_of input verdict ∷ rest.0, rest.1)

parse_inputs :
    Env
    → List ExtractedArtifact
    → Option (List AssetInput)
    → List RawRecord
    → Exec SyntheticParserError World (List ParsedAsset × List RawRecord)
unfolding parse_all
parse_inputs env artifacts none records = raise invalid_document
parse_inputs env artifacts (some inputs) records = parse_all env artifacts 0 inputs records

unfoldable pub parse_assets :
    Env
    → (List ℕ → Option (List AssetInput))
    → Option (List ℕ)
    → List ExtractedArtifact
    → List RawRecord
    → Exec SyntheticParserError World (List ParsedAsset × List RawRecord)
unfolding parse_inputs
parse_assets env read none artifacts records = pure ([], records)
parse_assets env read (some source) artifacts records =
    parse_inputs env artifacts (read source) records
