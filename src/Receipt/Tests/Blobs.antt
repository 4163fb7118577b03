-- ===== src/Receipt/Tests/Blobs.antt =====
-- The blob store and the staging files of a small world.
use ratatoskr_chatgpt.Prelude.{ℕ, ◌≡◌, refl, String, false, some, List, [], ◌∷◌, arith, length}
use ratatoskr_chatgpt.Effect.{ok, err}
use ratatoskr_chatgpt.Receipt.World.{quiet, Shared}
use ratatoskr_chatgpt.Receipt.BlobStore.{file}
use ratatoskr_chatgpt.Receipt.BlobStore.{missing, object, store, verify, erase, register_blob}
use ratatoskr_chatgpt.Receipt.BlobStore.Contents.{
  ref_of, store-verify, erase-verify, register_blob-verify, register_blob-corrupt,
}
use ratatoskr_chatgpt.Prelude.{str_eq}
use ratatoskr_chatgpt.Receipt.Staging.{overgrown, stream_to_staging}
use ratatoskr_chatgpt.Receipt.Staging.Contents.{
  joined, chunks, stream_to_staging-fits, stream_to_staging-exceeds,
}
use ratatoskr_chatgpt.Receipt.Tests.{
  small_env, one_shared, body, large_body, one_file, nothing_old, stored_shared, corrupt_shared,
  below,
}

stream_to_staging-fits_example :
    (fs : List (ℕ × List ℕ)) × (file 7 fs ≡ some (joined body))
    × (stream_to_staging small_env 7 (chunks body) (quiet one_shared [] 8)
        ≡ (ok (small_env.sha256_hex (joined body), length (joined body)), quiet one_shared fs 8))
stream_to_staging-fits_example =
    stream_to_staging-fits small_env 7 one_shared 8 below body [] (omega arith)

stream_to_staging-exceeds_example :
    (stream_to_staging small_env 7 (chunks large_body) (quiet one_shared [] 8)).0 ≡ err overgrown
stream_to_staging-exceeds_example =
    stream_to_staging-exceeds small_env 7 one_shared 8 below large_body [] (omega arith)

store-verify_example :
    (s : Shared) × (store small_env "application/zip" (ok (1 ∷ [])) (quiet one_shared [] 8)
      ≡ (ok (ref_of small_env "application/zip" (1 ∷ [])), quiet s [] 8))
    × (verify small_env (ref_of small_env "application/zip" (1 ∷ [])) (quiet s [] 8)
        ≡ (ok tt, quiet s [] 8))
    × (object "5feceb66" s.objects ≡ some (1 ∷ []))
    × ((other : String)
        → str_eq "5feceb66" other ≡ false
        → object other s.objects ≡ object other [])
store-verify_example =
    store-verify small_env one_shared [] 8 "application/zip" (1 ∷ []) refl nothing_old

erase-verify_example :
    (s : Shared) × (erase small_env
        (ref_of small_env "application/zip" (1 ∷ []))
        (quiet stored_shared [] 8)
      ≡ (ok tt, quiet s [] 8))
    × (verify small_env (ref_of small_env "application/zip" (1 ∷ [])) (quiet s [] 8)
        ≡ (err missing, quiet s [] 8))
    × (erase small_env (ref_of small_env "application/zip" (1 ∷ [])) (quiet s [] 8)
        ≡ (ok tt, quiet s [] 8))
    × ((other : String)
        → str_eq "5feceb66" other ≡ false
        → object other s.objects ≡ object other stored_shared.objects)
unfolding object
erase-verify_example =
    erase-verify small_env stored_shared [] 8 (ref_of small_env "application/zip" (1 ∷ [])) (1 ∷ [])
      refl refl refl

register_blob-verify_example :
    (s : Shared) × (register_blob small_env
        (ref_of small_env "application/zip" (1 ∷ []))
        7
        (quiet one_shared one_file 8)
      ≡ (ok tt, quiet s one_file 8))
    × (verify small_env (ref_of small_env "application/zip" (1 ∷ [])) (quiet s one_file 8)
        ≡ (ok tt, quiet s one_file 8))
unfolding file
register_blob-verify_example =
    register_blob-verify small_env one_shared one_file 8
      (ref_of small_env "application/zip" (1 ∷ [])) 7 (1 ∷ []) refl refl refl refl nothing_old

register_blob-corrupt_example :
    (s : Shared) × (register_blob small_env
        (ref_of small_env "application/zip" (1 ∷ []))
        7
        (quiet corrupt_shared one_file 8)
      ≡ (ok tt, quiet s one_file 8))
    × (verify small_env (ref_of small_env "application/zip" (1 ∷ [])) (quiet s one_file 8)
        ≡ (err missing, quiet s one_file 8))
unfolding file object
register_blob-corrupt_example =
    register_blob-corrupt small_env corrupt_shared one_file 8
      (ref_of small_env "application/zip" (1 ∷ [])) 7 (1 ∷ []) refl refl refl refl [] refl refl
