-- ===== src/Receipt/Staging.antt =====
-- The streaming of an upload into its staging file, `stream_to_staging` of
-- crates/chatgpt-archive/src/receipt/mod.rs, and the small operations on staging files beside it.
-- The running state of the hasher is the bytes that it was fed: a SHA-256 that is updated chunk by
-- chunk is that of the chunks put together. A chunk reaches the file when it is written.
pub mod Rules
pub mod Contents
use ratatoskr_chatgpt.Prelude.{
  ℕ, ◌+◌, min, String, List, [], ◌∷◌, ◌++◌, if◌then◌else◌, ◌==◌, ltb, length,
}
use ratatoskr_chatgpt.Effect.{ok, Exec, pure, raise, map_err, attempt, ◌>>=◌, ◌>>◌}
use ratatoskr_chatgpt.Receipt.World.{World, Env, IoError, io}
use ratatoskr_chatgpt.Receipt.BlobStore.{read_file}

-- An item of the upload stream: a chunk of the body, or the failure that ends it.
pub data Item : Type 0 where
  chunk : List ℕ → Item
  broken : Item

pub data StagingFailure : Type 0 where
  overgrown stream_broken disk : StagingFailure

abbrev pub u64_max : ℕ
u64_max = 18446744073709551615

unfoldable pub saturating_add : ℕ → ℕ → ℕ
saturating_add a b = min (a + b) u64_max

unfoldable pub without : ℕ → List (ℕ × List ℕ) → List (ℕ × List ℕ)
without id [] = []
without id ((name, bytes) ∷ rest) =
    let others = without id rest in if name == id then others else (name, bytes) ∷ others

unfoldable pub put_file : {E : Type 0} → ℕ → List ℕ → Exec E World Unit
unfolding without
put_file id bytes w = (ok tt, record w { files = (id, bytes) ∷ without id w.files })

-- The loop over the stream: the hasher holds `fed`, and `total` bytes were counted.
unfoldable pub stage_items :
    Env → ℕ → List ℕ → ℕ → List Item → Exec StagingFailure World (List ℕ × ℕ)
unfolding put_file saturating_add
stage_items env id fed total [] = pure (fed, total)
stage_items env id fed total (broken ∷ items) = raise stream_broken
stage_items env id fed total (chunk bytes ∷ items) =
    let count = saturating_add total (length bytes) in
    let rest = stage_items env id (fed ++ bytes) count items in
    if ltb env.max_archive_bytes count
    then raise overgrown
    else do map_err (λ _. disk) io; put_file id (fed ++ bytes); rest

-- Creation, the permissions, the loop, the flush and the sync.
unfoldable pub stream_to_staging : Env → ℕ → List Item → Exec StagingFailure World (String × ℕ)
unfolding put_file stage_items
stream_to_staging env id items = do
  map_err (λ _. disk) io
  put_file id []
  map_err (λ _. disk) io
  (fed, total) ← stage_items env id [] 0 items
  map_err (λ _. disk) io
  map_err (λ _. disk) io
  pure (env.sha256_hex fed, total)

delete_file : ℕ → Exec IoError World Unit
unfolding io without
delete_file id = do io; λ w. (ok tt, record w { files = without id w.files })

-- `let _ = remove_file(…)`: a failure is passed over, and a file that is not there stays so.
unfoldable pub remove_file : {E : Type 0} → ℕ → Exec E World Unit
unfolding delete_file
remove_file id = do attempt (delete_file id); pure tt

unfoldable pub hash_file : Env → ℕ → Exec IoError World (String × ℕ)
unfolding read_file
hash_file env id = do bytes ← read_file id; pure (env.sha256_hex bytes, length bytes)
