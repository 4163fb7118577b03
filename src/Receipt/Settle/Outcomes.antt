-- ===== src/Receipt/Settle/Outcomes.antt =====
-- How the settlement of a hashed run ends, when no call fails and nobody else writes.
use ratatoskr_chatgpt.Prelude.{
  All, ap, arith, str_eq, ◌&&◌, Bool, true, false, suc, ◌++◌, ◌==◌, any, [], ◌∷◌, ℕ, ◌≡◌, refl, ◌∙◌,
  sym, Option, none, some, List,
}
use ratatoskr_chatgpt.Effect.{pure, ok, ◌>>=◌}
use ratatoskr_chatgpt.Import.{ImportState, hashed, is_terminal}
use ratatoskr_chatgpt.Receipt.World.{Account, Export, Env, RunRow, Shared, quiet, wait}
use ratatoskr_chatgpt.Receipt.Sql.{sql, answer, query, update, sits_at}
use ratatoskr_chatgpt.Receipt.Repository.{find_run, set_state}
use ratatoskr_chatgpt.Receipt.Repository.Quiet.{with_runs, sits_at_found, mark_run_lem}
use ratatoskr_chatgpt.Receipt.Publish.{find_account, find_digest, account_is, find_export_by_digest}
use ratatoskr_chatgpt.Receipt.Soundness.Statements.{set_state-id}
use ratatoskr_chatgpt.Receipt.Moves.Statements.{set_state_lem}
use ratatoskr_chatgpt.Receipt.Moves.{find_run-update}
use ratatoskr_chatgpt.Receipt.Mode
use ratatoskr_chatgpt.Receipt.Records.{PublishRequest}
use ratatoskr_chatgpt.Receipt.BlobStore.{object, file}
use ratatoskr_chatgpt.Receipt.BlobStore.Contents.{with_objects, published, ref_of}
use ratatoskr_chatgpt.Receipt.Settle.{
  mode_or_consumer, duplicate, HashedContext, bind_operation, settle_duplicate, settle_found,
  settle_hashed,
}

-- The digest of the run under an account of its tenant.
abbrev pub is_held : HashedContext → List Account → Export → Bool
is_held context accounts e =
    str_eq e.sha256_hex context.sha256_hex
    && any (λ a. a.id == e.account_id && str_eq a.external_ref context.tenant) accounts

find_digest-held :
    (context : HashedContext) (accounts : List Account) (before later : List Export)
    (existing : Export)
    → is_held context accounts existing ≡ true
    → All (λ e. is_held context accounts e ≡ false) before
    → find_digest
        (λ id. account_is context.tenant id accounts)
        context.sha256_hex
        (before ++ existing ∷ later)
      ≡ some existing.id
unfolding find_digest account_is
find_digest-held context accounts [] later existing held others = ground arith
find_digest-held context accounts (e ∷ before) later existing held others =
    ground (arith, others.0, find_digest-held context accounts before later existing held others.1)

module _ (env : Env) (s : Shared) (fs : List (ℕ × List ℕ)) (minted : ℕ) (context : HashedContext)
    (row : RunRow) (found : find_run context.run_id s.db.runs ≡ some row)
    (at : row.state ≡ hashed) where
  find_lem :
      (answered : Option ℕ)
      → find_digest
          (λ id. account_is context.tenant id s.db.accounts)
          context.sha256_hex
          s.db.exports
        ≡ answered
      → find_export_by_digest context.tenant context.sha256_hex (quiet s fs minted)
        ≡ (ok answered, quiet s fs minted)
  unfolding find_export_by_digest sql answer query wait
  find_lem answered e = rw (e) refl

  -- With no failing call and no Platform operation to bind, a hashed run whose digest an export of an
  -- account of its tenant already has is marked as a duplicate. The answer names that export, the
  -- first one of those, whatever exports of other digests or other tenants come before it; no export
  -- and no account changes.
  pub settle_hashed-repeats :
      (before later : List Export) (existing : Export)
      → s.db.exports ≡ before ++ existing ∷ later
      → is_held context s.db.accounts existing ≡ true
      → All (λ e. is_held context s.db.accounts e ≡ false) before
      → (s' : Shared) × (settle_hashed env context none (quiet s fs minted)
          ≡ (ok (duplicate existing.id context.sha256_hex context.byte_length), quiet s' fs minted))
        × (find_run context.run_id s'.db.runs
            ≡ some (record row { state = ImportState.duplicate; finished = true }))
        × (s'.db.exports ≡ s.db.exports)
        × (s'.db.accounts ≡ s.db.accounts)
  unfolding settle_hashed settle_found settle_duplicate bind_operation pure ◌>>=◌ is_terminal
  settle_hashed-repeats before later existing are held others = (
    with_runs s
        (update (sits_at context.run_id row.state) (set_state ImportState.duplicate) s.db.runs),
    rw
        (find_lem (some existing.id)
          (rw (are) (find_digest-held context s.db.accounts before later existing held others)))
        (rw (sym at)
          (rw (mark_run_lem s fs minted context.run_id row found ImportState.duplicate) refl)),
    find_run-update (sits_at context.run_id row.state) (set_state ImportState.duplicate)
          (set_state-id ImportState.duplicate) context.run_id s.db.runs row found
        ∙ rw (sits_at_found context.run_id s.db.runs row found)
            (ap some (set_state_lem ImportState.duplicate row)),
    refl,
    refl,
  )

module _ (env : Env) (s : Shared) (fs : List (ℕ × List ℕ)) (minted : ℕ) (context : HashedContext)
    (row : RunRow) (account_id : ℕ) (bytes : List ℕ)
    (found : find_run context.run_id s.db.runs ≡ some row) (at : row.state ≡ hashed)
    (known : find_account context.tenant s.db.accounts ≡ some account_id)
    (new : (owned : ℕ → Bool) → find_digest owned context.sha256_hex s.db.exports ≡ none)
    (fresh : any (λ e. e.id == env.mint (suc minted)) s.db.exports ≡ false)
    (valid : env.is_media_type context.media_type ≡ true)
    (staged : file context.run_id fs ≡ some bytes)
    (only : (old : List ℕ) → object (env.sha256_hex bytes) s.objects ≡ some old → old ≡ bytes) where
  abbrev held_objects : Shared
  held_objects = with_objects s (published (env.sha256_hex bytes) bytes s.objects)

  abbrev request : PublishRequest
  request = record {
    run_id = context.run_id;
    account_external_ref = context.tenant;
    mode = mode_or_consumer (Mode.parse context.mode_spelling);
    blob_ref = ref_of env context.media_type bytes;
    sha256_hex = context.sha256_hex;
    byte_length = context.byte_length;
    platform_operation = none;
  }
