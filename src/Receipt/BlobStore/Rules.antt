-- ===== src/Receipt/BlobStore/Rules.antt =====
-- Orders on the rows under the operations of crates/chatgpt-archive/src/blob_store.rs.
use ratatoskr_chatgpt.Prelude.{ℕ, String, List, Option, none, some}
use ratatoskr_chatgpt.Effect.{Result, ok, err}
use ratatoskr_chatgpt.Effect.Guards.{Preorder, Guards}
use ratatoskr_chatgpt.Receipt.World.{Db, Env, IoError, BlobRef}
use ratatoskr_chatgpt.Receipt.BlobStore.{
  objects_of, link, put_objects, publish_object, receive, store, check_object, verify, found_file,
  read_file, restore, restore_unless, register_blob, BlobStoreError,
}
use ratatoskr_chatgpt.Receipt.Sql.Rules.{sql_rules}
use ratatoskr_chatgpt.Receipt.Orderly.{keeping}

module _ (R : Preorder Db) where
  Guards-objects_of : {E : Type 0} → Guards (keeping R) (objects_of {E = E})
  unfolding objects_of keeping
  Guards-objects_of = record { at = λ w o. (o, R.same w.db) }

  Guards-put_objects :
      {E : Type 0} (os : List (String × List ℕ)) → Guards (keeping R) (put_objects {E = E} os)
  unfolding put_objects keeping
  Guards-put_objects os = record { at = λ w o. (o, R.same w.db) }

  Guards-link :
      {E : Type 0} (hex : String) (bytes : List ℕ) (os : List (String × List ℕ))
      (found : Option (List ℕ))
      → Guards (keeping R) (link {E = E} hex bytes os found)
  unfolding link
  Guards-link hex bytes os none = Guards-put_objects _
  Guards-link hex bytes os (some old) = search sql_rules

  Guards-publish_object :
      {E : Type 0} (hex : String) (bytes : List ℕ)
      → Guards (keeping R) (publish_object {E = E} hex bytes)
  unfolding publish_object
  Guards-publish_object hex bytes = search (sql_rules, Guards-objects_of, Guards-link)

  Guards-receive :
      (env : Env) (media_type : String) (delivered : Result IoError (List ℕ))
      → Guards (keeping R) (receive env media_type delivered)
  unfolding receive
  Guards-receive env media_type (ok bytes) = search (sql_rules, Guards-publish_object) depth 8
  Guards-receive env media_type (err e) = search sql_rules

  pub Guards-store :
      (env : Env) (media_type : String) (delivered : Result IoError (List ℕ))
      → Guards (keeping R) (store env media_type delivered)
  unfolding store
  Guards-store env media_type delivered = search (sql_rules, Guards-receive)

  Guards-check_object :
      (env : Env) (reference : BlobRef) (found : Option (List ℕ))
      → Guards (keeping R) (check_object env reference found)
  unfolding check_object
  Guards-check_object env reference none = search sql_rules
  Guards-check_object env reference (some bytes) = search sql_rules

  Guards-verify : (env : Env) (reference : BlobRef) → Guards (keeping R) (verify env reference)
  unfolding verify
  Guards-verify env reference = search (sql_rules, Guards-objects_of, Guards-check_object) depth 7

  Guards-found_file : (found : Option (List ℕ)) → Guards (keeping R) (found_file found)
  unfolding found_file
  Guards-found_file none = search sql_rules
  Guards-found_file (some bytes) = search sql_rules

  pub Guards-read_file : (id : ℕ) → Guards (keeping R) (read_file id)
  unfolding read_file
  Guards-read_file id = search (sql_rules, Guards-found_file)

  Guards-restore :
      (env : Env) (reference : BlobRef) (id : ℕ) → Guards (keeping R) (restore env reference id)
  unfolding restore
  Guards-restore env reference id = search (sql_rules, Guards-read_file, Guards-store) depth 7

  Guards-restore_unless :
      (env : Env) (reference : BlobRef) (id : ℕ) (verified : Result BlobStoreError Unit)
      → Guards (keeping R) (restore_unless env reference id verified)
  unfolding restore_unless
  Guards-restore_unless env reference id (ok _) = search sql_rules
  Guards-restore_unless env reference id (err _) = Guards-restore env reference id

  pub Guards-register_blob :
      (env : Env) (reference : BlobRef) (id : ℕ)
      → Guards (keeping R) (register_blob env reference id)
  unfolding register_blob
  Guards-register_blob env reference id =
      search (sql_rules, Guards-verify, Guards-restore_unless) depth 7
