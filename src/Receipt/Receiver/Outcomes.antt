-- ===== src/Receipt/Receiver/Outcomes.antt =====
-- How a whole receipt ends, when no call fails and nobody else writes.
use ratatoskr_chatgpt.Prelude.{
  ℕ, suc, ◌≤◌, ◌<◌, ◌≡◌, ◌⊎◌, String, Bool, true, false, none, some, List, [], ◌∷◌, ◌++◌, ◌==◌, any,
  length,
}
use ratatoskr_chatgpt.Import.{received}
use ratatoskr_chatgpt.Receipt.Mode
use ratatoskr_chatgpt.Receipt.World.{Env, RunRow, Shared}
use ratatoskr_chatgpt.Receipt.Records.{to_i64}
use ratatoskr_chatgpt.Receipt.Sql.{update, sits_at}
use ratatoskr_chatgpt.Receipt.Repository.{fresh_run, set_hashed}
use ratatoskr_chatgpt.Receipt.Repository.Quiet.{with_runs}
use ratatoskr_chatgpt.Receipt.BlobStore.{object}
use ratatoskr_chatgpt.Receipt.Publish.{find_digest, find_account}
use ratatoskr_chatgpt.Receipt.Staging.{u64_max}
use ratatoskr_chatgpt.Receipt.Staging.Contents.{joined}
use ratatoskr_chatgpt.Receipt.Settle.{HashedContext}
use ratatoskr_chatgpt.Receipt.Receiver.{Upload}

module _ (env : Env) (upload : Upload) (s : Shared) (fs : List (ℕ × List ℕ)) (minted : ℕ)
    (cs : List (List ℕ)) (account_id : ℕ) (below : env.max_archive_bytes < u64_max)
    (valid : env.is_media_type upload.media_type ≡ true)
    (small : length (joined cs) ≤ env.max_archive_bytes)
    (declared : (upload.declared_length ≡ none)
      ⊎ (upload.declared_length ≡ some (length (joined cs))))
    (expected : (upload.expectations.expected_sha256_hex ≡ none)
      ⊎ (upload.expectations.expected_sha256_hex ≡ some (env.sha256_hex (joined cs))))
    (no_operation : upload.expectations.platform_operation ≡ none)
    (new_run : any (λ r. r.id == env.mint minted) s.db.runs ≡ false)
    (known : find_account upload.tenant s.db.accounts ≡ some account_id)
    (new : (owned : ℕ → Bool) → find_digest owned (env.sha256_hex (joined cs)) s.db.exports ≡ none)
    (new_export : any (λ e. e.id == env.mint (suc (suc minted))) s.db.exports ≡ false)
    (only : (old : List ℕ)
      → object (env.sha256_hex (joined cs)) s.objects ≡ some old
      → old ≡ joined cs) where
  abbrev run_id : ℕ
  run_id = env.mint minted

  abbrev sha : String
  sha = env.sha256_hex (joined cs)

  abbrev row : RunRow
  row = fresh_run run_id upload.tenant upload.mode upload.media_type

  abbrev begun : Shared
  begun = with_runs s (s.db.runs ++ row ∷ [])

  abbrev hashed_row : RunRow
  hashed_row = set_hashed sha (to_i64 (length (joined cs))) row

  abbrev recorded : Shared
  recorded = with_runs s (
      update (sits_at run_id received) (set_hashed sha (to_i64 (length (joined cs)))) begun.db.runs)

  abbrev context : HashedContext
  context = record {
    run_id = run_id;
    tenant = upload.tenant;
    mode_spelling = Mode.as_str upload.mode;
    media_type = upload.media_type;
    sha256_hex = sha;
    byte_length = length (joined cs);
  }
