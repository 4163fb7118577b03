-- ===== src/Receipt/Staging/Contents.antt =====
-- What the staging of an upload leaves on the disk and answers, when no call fails.
use ratatoskr_chatgpt.Prelude.{
  refl, none, ℕ, false, true, ◌+◌, ◌≤◌, ◌<◌, ◌≡◌, ◌∙◌, ap, some, List, [], ◌∷◌, ◌++◌, map, arith,
  length, length-append, ltb,
}
use native.Mathlib.Decide.{dec_le}
use mathlib.Core.List.{append-nil, append_assoc}
use ratatoskr_chatgpt.Effect.{pure, Result, ok, err, ◌>>=◌}
use ratatoskr_chatgpt.Receipt.World.{quiet, World, Shared, Env, io}
use ratatoskr_chatgpt.Receipt.BlobStore.{file}
use ratatoskr_chatgpt.Receipt.Staging.{
  delete_file, remove_file, Item, StagingFailure, chunk, overgrown, u64_max, saturating_add,
  without, stage_items, stream_to_staging,
}

-- The bytes of a body that came in chunks.
abbrev pub joined : List (List ℕ) → List ℕ
joined [] = []
joined (c ∷ cs) = c ++ joined cs

abbrev pub chunks : List (List ℕ) → List Item
chunks = map chunk

file_self :
    (id : ℕ) (bytes : List ℕ) (rest : List (ℕ × List ℕ)) → file id ((id, bytes) ∷ rest) ≡ some bytes
unfolding file
file_self id bytes rest = ground arith

module _ (env : Env) (id : ℕ) (s : Shared) (minted : ℕ)
    (fits : env.max_archive_bytes < u64_max) where
  counted :
      (fed bytes : List ℕ)
      → length fed + length bytes ≤ env.max_archive_bytes
      → saturating_add (length fed) (length bytes) ≡ length (fed ++ bytes)
  unfolding saturating_add
  counted fed bytes small = omega (arith, length-append fed bytes)

  under_limit :
      (fed bytes : List ℕ)
      → length fed + length bytes ≤ env.max_archive_bytes
      → ltb env.max_archive_bytes (length (fed ++ bytes)) ≡ false
  under_limit fed bytes small = ground (arith, length-append fed bytes)

  over_limit :
      (a b : ℕ)
      → env.max_archive_bytes < a + b
      → ltb env.max_archive_bytes (saturating_add a b) ≡ true
  unfolding saturating_add
  over_limit a b large = ground arith

  -- One chunk that stays within the maximum.
  stage_items-chunk :
      (fed bytes : List ℕ) (items : List Item) (fs : List (ℕ × List ℕ))
      → length fed + length bytes ≤ env.max_archive_bytes
      → stage_items env id fed (length fed) (chunk bytes ∷ items) (quiet s fs minted)
        ≡ stage_items env id
            (fed ++ bytes)
            (length (fed ++ bytes))
            items
            (quiet s ((id, fed ++ bytes) ∷ without id fs) minted)
  unfolding stage_items io ◌>>=◌
  stage_items-chunk fed bytes items fs small =
      rw (counted fed bytes small) (rw (under_limit fed bytes small))

  stage_items-over :
      (fed bytes : List ℕ) (items : List Item) (fs : List (ℕ × List ℕ))
      → env.max_archive_bytes < length fed + length bytes
      → (stage_items env id fed (length fed) (chunk bytes ∷ items) (quiet s fs minted)).0
        ≡ err overgrown
  unfolding stage_items ◌>>=◌
  stage_items-over fed bytes items fs large = rw (over_limit (length fed) (length bytes) large)

  -- What the loop leaves of a whole body.
  stage_items-fits :
      (fed : List ℕ) (cs : List (List ℕ)) (fs : List (ℕ × List ℕ))
      → file id fs ≡ some fed
      → length fed + length (joined cs) ≤ env.max_archive_bytes
      → (fs' : List (ℕ × List ℕ)) × (file id fs' ≡ some (fed ++ joined cs))
        × (stage_items env id fed (length fed) (chunks cs) (quiet s fs minted)
            ≡ (ok (fed ++ joined cs, length (fed ++ joined cs)), quiet s fs' minted))
  unfolding stage_items ◌>>=◌
  stage_items-fits fed [] fs at small = (fs, rw append-nil at, rw append-nil)
  stage_items-fits fed (c ∷ cs) fs at small =
      let (fs', at', run) =
        stage_items-fits (fed ++ c) cs ((id, fed ++ c) ∷ without id fs) (file_self id _ _)
          (omega (arith, length-append fed c, length-append c (joined cs))) in
      let first =
        stage_items-chunk fed c (chunks cs) fs (omega (arith, length-append c (joined cs))) in
      (fs', rw append_assoc at at', rw (append_assoc fed c (joined cs)) at (first ∙ run))

  -- A body that exceeds the maximum is refused, whichever chunk crosses it.
  stage_items-exceeds :
      (fed : List ℕ) (cs : List (List ℕ)) (fs : List (ℕ × List ℕ))
      → length fed ≤ env.max_archive_bytes
      → env.max_archive_bytes < length fed + length (joined cs)
      → (stage_items env id fed (length fed) (chunks cs) (quiet s fs minted)).0 ≡ err overgrown
  stage_items-exceeds fed [] fs below large = absurd (omega arith)
  stage_items-exceeds fed (c ∷ cs) fs below large =
      elim (dec_le (length fed + length c) env.max_archive_bytes) [
        | yes small ↦
            ap (λ (r : Result StagingFailure (List ℕ × ℕ) × World). r.0)
              (stage_items-chunk fed c (chunks cs) fs small)
            ∙ stage_items-exceeds (fed ++ c) cs ((id, fed ++ c) ∷ without id fs)
                (omega (arith, length-append fed c))
                (omega (arith, length-append fed c, length-append c (joined cs)))
        | no big ↦ stage_items-over fed c (chunks cs) fs (omega arith)
      ]

  -- With a maximum below the largest length that is counted and no failing call, a body in chunks
  -- that together stay within the maximum is staged whole: the answer is the digest and the length
  -- of the chunks put together, the staging file holds just these bytes, and the rows, the objects
  -- and the identities are as before.
  pub stream_to_staging-fits :
      (cs : List (List ℕ)) (fs : List (ℕ × List ℕ))
      → length (joined cs) ≤ env.max_archive_bytes
      → (fs' : List (ℕ × List ℕ)) × (file id fs' ≡ some (joined cs))
        × (stream_to_staging env id (chunks cs) (quiet s fs minted)
            ≡ (ok (env.sha256_hex (joined cs), length (joined cs)), quiet s fs' minted))
  unfolding stream_to_staging io ◌>>=◌
  stream_to_staging-fits cs fs small =
      let (fs', at, run) =
        stage_items-fits [] cs ((id, []) ∷ without id fs) (file_self id [] _) (omega arith) in
      (fs', at, rw run)

  -- With a maximum below the largest length that is counted and no failing call, a body in chunks
  -- that together exceed the maximum is refused as overgrown, whichever chunk crosses it.
  pub stream_to_staging-exceeds :
      (cs : List (List ℕ)) (fs : List (ℕ × List ℕ))
      → env.max_archive_bytes < length (joined cs)
      → (stream_to_staging env id (chunks cs) (quiet s fs minted)).0 ≡ err overgrown
  unfolding stream_to_staging io ◌>>=◌
  stream_to_staging-exceeds cs fs large =
      rw (stage_items-exceeds [] cs ((id, []) ∷ without id fs) (omega arith) (omega arith))

pub remove_file_lem :
    {E : Type 0} (id : ℕ) (s : Shared) (fs : List (ℕ × List ℕ)) (minted : ℕ)
    → remove_file {E = E} id (quiet s fs minted) ≡ (ok tt, quiet s (without id fs) minted)
unfolding remove_file delete_file io pure ◌>>=◌
remove_file_lem id s fs minted = refl

pub file-without : (id : ℕ) (fs : List (ℕ × List ℕ)) → file id (without id fs) ≡ none
unfolding file without
file-without id [] = refl
file-without id ((name, bytes) ∷ fs) = ground (arith, file-without id fs)
