-- ===== src/Parser/Assets/Verdicts.antt =====
-- Which declared files crates/chatgpt-archive/src/synthetic_parser/assets.rs accepts.
use ratatoskr_chatgpt.Prelude.{
  ℕ, ◌≡◌, refl, inl, inr, String, Bool, true, false, not, ◌&&◌, Option, none, some, List, [], ◌∷◌,
  if◌then◌else◌, ◌==◌, str_eq, Bool-cases,
}
use ratatoskr_chatgpt.Effect.{Result, ok, err, pure, ◌>>=◌}
use ratatoskr_chatgpt.Outbox.Store.{select}
use ratatoskr_chatgpt.Outbox.Marks.{not_null}
use ratatoskr_chatgpt.Receipt.World.{BlobRef, Env, World}
use ratatoskr_chatgpt.Receipt.BlobStore.{BlobStoreError, unavailable, invalid_media_type, stream}
use ratatoskr_chatgpt.Receipt.BlobStore
use ratatoskr_chatgpt.Reconciliation.Model.{AssetAvailability, verified, quarantined}
use ratatoskr_chatgpt.Parser.Input.{AssetInput}
use ratatoskr_chatgpt.Parser.Decode.{SyntheticParserError, storage_unavailable}
use ratatoskr_chatgpt.Parser.Assets.{
  ExtractedArtifact, Verdict, check_media_type, check_length, check_declaration, judge,
  verify_artifact, verify_matching, verify_path, verify_asset,
}

abbrev declares_text : Option String → String → Bool
declares_text none s = false
declares_text (some t) s = str_eq t s

abbrev declares_length : Option ℕ → ℕ → Bool
declares_length none n = false
declares_length (some m) n = m == n

abbrev stands : Result BlobStoreError Unit → Bool
stands (ok u) = true
stands (err e) = false

-- The declaration is complete and agrees with the blob.
abbrev is_complete : AssetInput → BlobRef → Bool
is_complete input blob =
    declares_text input.sha256 blob.digest_hex
    && (declares_length input.length_bytes blob.length_bytes
        && declares_text input.media_type blob.media_type)

abbrev blob_if : Bool → BlobRef → Option BlobRef
blob_if b blob = if b then some blob else none

-- The blob that a declaration may be given: the only artifact under its path, neither quarantined
-- nor lost or changed in the store.
abbrev pub fitting : Env → World → AssetInput → List ExtractedArtifact → Option BlobRef
fitting env w input [] = none
fitting env w input (a ∷ []) =
    blob_if
      (not a.is_quarantined
        && (stands (BlobStore.verify env a.blob w).0 && is_complete input a.blob))
      a.blob
fitting env w input (a ∷ b ∷ rest) = none

abbrev pub named : Option String → List ExtractedArtifact → List ExtractedArtifact
named none artifacts = []
named (some path) artifacts = select (λ a. str_eq a.entry_path path) artifacts

abbrev is_verified : AssetAvailability → Bool
is_verified verified = true
is_verified _ = false

abbrev is_withheld : AssetAvailability → Bool
is_withheld quarantined = true
is_withheld _ = false

pub Settles : Option BlobRef → Result SyntheticParserError Verdict → Type 0
Settles fit (ok v) =
    (v.blob ≡ fit)
    × (is_verified v.availability ≡ not_null fit)
    × (is_withheld v.availability ≡ not_null v.anomaly)
Settles fit (err e) = (e ≡ storage_unavailable) × (fit ≡ none)

check_media_type-Settles :
    (blob : BlobRef) (declared : Option String)
    → Settles
        (blob_if (declares_text declared blob.media_type) blob)
        (ok (check_media_type blob declared))
unfolding Settles check_media_type
check_media_type-Settles blob none = (refl, refl, refl)
check_media_type-Settles blob (some t) = elim (Bool-cases (str_eq t blob.media_type)) [
  | inl k ↦ rw (k) (refl, refl, refl)
  | inr k ↦ rw (k) (refl, refl, refl)
]

check_length-Settles :
    (input : AssetInput) (blob : BlobRef) (declared : Option ℕ)
    → Settles
        (blob_if
          (declares_length declared blob.length_bytes
            && declares_text input.media_type blob.media_type)
          blob)
        (ok (check_length input blob declared))
unfolding Settles check_length
check_length-Settles input blob none = (refl, refl, refl)
check_length-Settles input blob (some n) = elim (Bool-cases (n == blob.length_bytes)) [
  | inl k ↦ rw (k) (check_media_type-Settles blob input.media_type)
  | inr k ↦ rw (k) (refl, refl, refl)
]

check_declaration-Settles :
    (input : AssetInput) (blob : BlobRef) (declared : Option String)
    → Settles
        (blob_if
          (declares_text declared blob.digest_hex
            && (declares_length input.length_bytes blob.length_bytes
                && declares_text input.media_type blob.media_type))
          blob)
        (ok (check_declaration input blob declared))
unfolding Settles check_declaration
check_declaration-Settles input blob none = (refl, refl, refl)
check_declaration-Settles input blob (some t) = elim (Bool-cases (str_eq t blob.digest_hex)) [
  | inl k ↦ rw (k) (check_length-Settles input blob input.length_bytes)
  | inr k ↦ rw (k) (refl, refl, refl)
]

judge-Settles :
    (input : AssetInput) (blob : BlobRef) (r : Result BlobStoreError Unit)
    → Settles (blob_if (stands r && is_complete input blob) blob) (judge input blob r)
unfolding Settles judge
judge-Settles input blob (ok u) = check_declaration-Settles input blob input.sha256
judge-Settles input blob (err unavailable) = (refl, refl)
judge-Settles input blob (err stream) = (refl, refl)
judge-Settles input blob (err invalid_media_type) = (refl, refl, refl)
judge-Settles input blob (err BlobStore.missing) = (refl, refl, refl)

verify_artifact-Settles :
    (env : Env) (w : World) (input : AssetInput) (a : ExtractedArtifact)
    → Settles
        (blob_if
          (not a.is_quarantined
            && (stands (BlobStore.verify env a.blob w).0 && is_complete input a.blob))
          a.blob)
        (verify_artifact env input a w).0
unfolding Settles verify_artifact ◌>>=◌
verify_artifact-Settles env w input a = elim (Bool-cases a.is_quarantined) [
  | inl k ↦ rw (k) (refl, refl, refl)
  | inr k ↦ rw (k) (judge-Settles input a.blob (BlobStore.verify env a.blob w).0)
]

verify_matching-Settles :
    (env : Env) (w : World) (input : AssetInput) (found : List ExtractedArtifact)
    → Settles (fitting env w input found) (verify_matching env input found w).0
unfolding Settles verify_matching pure
verify_matching-Settles env w input [] = (refl, refl, refl)
verify_matching-Settles env w input (a ∷ []) = verify_artifact-Settles env w input a
verify_matching-Settles env w input (a ∷ b ∷ rest) = (refl, refl, refl)

verify_path-Settles :
    (env : Env) (w : World) (input : AssetInput) (artifacts : List ExtractedArtifact)
    (path : Option String)
    → Settles
        (fitting env w input (named path artifacts))
        (verify_path env input artifacts path w).0
unfolding Settles verify_path pure
verify_path-Settles env w input artifacts none = (refl, refl, refl)
verify_path-Settles env w input artifacts (some path) =
    verify_matching-Settles env w input (select (λ a. str_eq a.entry_path path) artifacts)

-- A declared file is verified, and its blob given, exactly when one artifact stands under its path,
-- that is not quarantined, verifies in the store and has the digest, the length and the media type
-- that are declared; it is quarantined exactly when an anomaly is named; and the only error is the
-- one of a store that is not available, for a file that is not verified then.
pub verify_asset-Settles :
    (env : Env) (w : World) (input : AssetInput) (artifacts : List ExtractedArtifact)
    → Settles
        (fitting env w input (named input.archive_path artifacts))
        (verify_asset env input artifacts w).0
unfolding verify_asset
verify_asset-Settles env w input artifacts =
    verify_path-Settles env w input artifacts input.archive_path
