-- ===== src/Receipt/Staging/Rules.antt =====
-- Orders on the rows under the staging of crates/chatgpt-archive/src/receipt/mod.rs.
use ratatoskr_chatgpt.Prelude.{ℕ, List, ◌++◌, [], ◌∷◌}
use ratatoskr_chatgpt.Effect.Guards.{Preorder, Guards, Guards-bind}
use ratatoskr_chatgpt.Receipt.World.{Db, Env}
use ratatoskr_chatgpt.Receipt.Staging.{
  Item, chunk, broken, put_file, stage_items, stream_to_staging, delete_file, remove_file,
  hash_file,
}
use ratatoskr_chatgpt.Receipt.Sql.Rules.{Guards-io, sql_rules}
use ratatoskr_chatgpt.Receipt.BlobStore.Rules.{Guards-read_file}
use ratatoskr_chatgpt.Receipt.Orderly.{keeping}

module _ (R : Preorder Db) where
  Guards-put_file :
      {E : Type 0} (id : ℕ) (bytes : List ℕ) → Guards (keeping R) (put_file {E = E} id bytes)
  unfolding put_file keeping
  Guards-put_file id bytes = record { at = λ w o. (o, R.same w.db) }

  Guards-stage_items :
      (env : Env) (id : ℕ) (fed : List ℕ) (total : ℕ) (items : List Item)
      → Guards (keeping R) (stage_items env id fed total items)
  unfolding stage_items
  Guards-stage_items env id fed total [] = search sql_rules
  Guards-stage_items env id fed total (broken ∷ items) = search sql_rules
  Guards-stage_items env id fed total (chunk bytes ∷ items) =
      let rest = λ (count : ℕ). Guards-stage_items env id (fed ++ bytes) count items in
      search (sql_rules, Guards-put_file, rest)

  pub Guards-stream_to_staging :
      (env : Env) (id : ℕ) (items : List Item) → Guards (keeping R) (stream_to_staging env id items)
  unfolding stream_to_staging
  Guards-stream_to_staging env id items =
      search (sql_rules, Guards-put_file, Guards-stage_items) depth 10

  Guards-delete_file : (id : ℕ) → Guards (keeping R) (delete_file id)
  unfolding delete_file
  Guards-delete_file id =
      Guards-bind _ _ (Guards-io R) (λ _. unfold keeping in record { at = λ w o. (o, R.same w.db) })

  pub Guards-remove_file : {E : Type 0} (id : ℕ) → Guards (keeping R) (remove_file {E = E} id)
  unfolding remove_file
  Guards-remove_file id = search (sql_rules, Guards-delete_file)

  pub Guards-hash_file : (env : Env) (id : ℕ) → Guards (keeping R) (hash_file env id)
  unfolding hash_file
  Guards-hash_file env id = search (sql_rules, Guards-read_file)
