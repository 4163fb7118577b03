-- ===== src/Receipt/Publish/Quiet.antt =====
-- What the publication of an export answers and leaves, when no call fails and nobody else writes.
use ratatoskr_chatgpt.Prelude.{
  ℕ, suc, ◌≡◌, refl, sym, subst, String, Bool, true, false, none, some, List, [], ◌∷◌, ◌++◌, ◌&&◌,
  ◌||◌, ◌==◌, arith, str_eq, any,
}
use ratatoskr_chatgpt.Effect.{ok, pure, ◌>>=◌}
use ratatoskr_chatgpt.Import.{hashed}
use ratatoskr_chatgpt.Receipt.World.{wait, Env, Export, RunRow, Shared, quiet, io, mint_id}
use ratatoskr_chatgpt.Receipt.Records.{PublishRequest}
use ratatoskr_chatgpt.Receipt.BlobStore.{object, register_blob}
use ratatoskr_chatgpt.Receipt.BlobStore.Contents.{ref_of, register_blob-store}
use ratatoskr_chatgpt.Receipt.Sql.{
  transaction, settle_transaction, sql_in, answer, query, update, update_runs, sits_at,
  unless_conflict,
}
use ratatoskr_chatgpt.Receipt.Repository.{find_run}
use ratatoskr_chatgpt.Receipt.Repository.Quiet.{some_rows}
use ratatoskr_chatgpt.Receipt.Publish.{
  publish_export, find_digest, find_account, upsert_account, unless_duplicate, insert_export,
  set_stored, bind_new, new_export, publish_body,
}

no_clash :
    (id account : ℕ) (sha256_hex : String) (es : List Export)
    → any (λ e. e.id == id) es ≡ false
    → find_digest (λ o. true) sha256_hex es ≡ none
    → any (λ e. e.id == id || e.account_id == account && str_eq e.sha256_hex sha256_hex) es ≡ false
unfolding find_digest
no_clash id account sha256_hex [] h k = refl
no_clash id account sha256_hex (e ∷ es) h k = ground (arith, no_clash id account sha256_hex es)

abbrev pub with_export : Shared → Export → List RunRow → Shared
with_export s e runs = record s {
  db = record s.db { exports = s.db.exports ++ e ∷ []; runs = runs };
}

module _ (env : Env) (s : Shared) (fs : List (ℕ × List ℕ)) (minted : ℕ) (request : PublishRequest)
    (row : RunRow) (account_id : ℕ) (bytes : List ℕ)
    (found : find_run request.run_id s.db.runs ≡ some row) (at : row.state ≡ hashed)
    (known : find_account request.account_external_ref s.db.accounts ≡ some account_id)
    (new : (owned : ℕ → Bool) → find_digest owned request.sha256_hex s.db.exports ≡ none)
    (fresh : any (λ e. e.id == env.mint (suc minted)) s.db.exports ≡ false) (media_type : String)
    (answered : request.blob_ref ≡ ref_of env media_type bytes)
    (held : object (env.sha256_hex bytes) s.objects ≡ some bytes)
    (no_operation : request.platform_operation ≡ none) where
  abbrev pub after : Shared
  after =
      with_export s
        (new_export request (env.mint (suc minted)) (env.mint (suc (suc minted))) account_id)
        (update (sits_at request.run_id row.state) (set_stored (env.mint (suc minted))) s.db.runs)

  register_lem :
      (n : ℕ)
      → register_blob env request.blob_ref request.run_id (quiet s fs n) ≡ (ok tt, quiet s fs n)
  register_lem n =
      subst (λ b. register_blob env b request.run_id (quiet s fs n) ≡ (ok tt, quiet s fs n))
        (sym answered) (register_blob-store env s fs n media_type bytes request.run_id held)

  publish_body_lem : publish_body env request (quiet s fs minted) ≡ (
    ok (record { export_id = env.mint (suc minted); ai_archive_id = env.mint (suc (suc minted)) }),
    quiet after fs (suc (suc (suc minted))),
  )
  unfolding publish_body mint_id sql_in answer query upsert_account unless_duplicate insert_export
      update_runs unless_conflict bind_new new_export pure io ◌>>=◌
  publish_body_lem = rw (known) (
      rw (new (λ id. id == account_id)) (
        rw (register_lem (suc minted)) (
          rw
            (no_clash (env.mint (suc minted)) account_id request.sha256_hex s.db.exports fresh
              (new (λ o. true)))
            (rw (sym at)
              (rw (some_rows s fs minted request.run_id row found) (rw (no_operation) refl))))))

  pub publish_export_lem : publish_export env request (quiet s fs minted) ≡ (
    ok (record { export_id = env.mint (suc minted); ai_archive_id = env.mint (suc (suc minted)) }),
    quiet after fs (suc (suc (suc minted))),
  )
  unfolding publish_export transaction settle_transaction wait io pure ◌>>=◌
  publish_export_lem = rw (publish_body_lem) refl
