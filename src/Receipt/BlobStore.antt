-- ===== src/Receipt/BlobStore.antt =====
-- The content-addressed store of crates/chatgpt-archive/src/blob_store.rs over a local directory:
-- an object is named by the digest of its bytes, is never rewritten, and is read back only if it
-- still hashes to its name. And the registration of a reference of
-- crates/chatgpt-archive/src/blob_protocol.rs.
-- A stream is the bytes it delivers or a failure. The part file that a store writes before it
-- publishes is seen by nobody and is left out: one call stands for its creation and writes.
pub mod Rules
pub mod Contents
use ratatoskr_chatgpt.Prelude.{
  ℕ, String, Bool, Option, none, some, List, [], ◌∷◌, if◌then◌else◌, ◌==◌, str_eq, length, ◌&&◌,
}
use ratatoskr_chatgpt.Effect.{
  Result, ok, err, Exec, pure, raise, gets, ◌>>=◌, ◌>>◌, attempt, map_err,
}
use ratatoskr_chatgpt.Receipt.World.{BlobRef, World, Env, IoError, not_found, io}

pub data BlobStoreError : Type 0 where
  unavailable invalid_media_type stream missing : BlobStoreError

abbrev pub owner : String
owner = "ratatoskr-chatgpt"

-- The object under a name.
unfoldable pub object : String → List (String × List ℕ) → Option (List ℕ)
object hex [] = none
object hex ((name, bytes) ∷ rest) = if str_eq name hex then some bytes else object hex rest

unfoldable pub unlink : String → List (String × List ℕ) → List (String × List ℕ)
unlink hex [] = []
unlink hex ((name, bytes) ∷ rest) =
    let others = unlink hex rest in if str_eq name hex then others else (name, bytes) ∷ others

objects_of : {E : Type 0} → Exec E World (List (String × List ℕ))
objects_of w = (ok w.objects, w)

put_objects : {E : Type 0} → List (String × List ℕ) → Exec E World Unit
put_objects os w = (ok tt, record w { shared = record w.shared { objects = os } })

-- `hard_link` of the part file, where an object that is there already is left alone.
link : {E : Type 0} → String → List ℕ → List (String × List ℕ) → Option (List ℕ) → Exec E World Unit
unfolding put_objects
link hex bytes os none = put_objects ((hex, bytes) ∷ os)
link hex bytes os (some _) = pure tt

publish_object : {E : Type 0} → String → List ℕ → Exec E World Unit
unfolding objects_of object link
publish_object hex bytes = do os ← objects_of; link hex bytes os (object hex os)

-- `LocalFsBackend::receive` of a stream that delivered `bytes`, or failed.
receive : Env → String → Result IoError (List ℕ) → Exec BlobStoreError World BlobRef
unfolding publish_object
receive env media_type (err _) = do map_err (λ _. unavailable) io; raise stream
receive env media_type (ok bytes) = do
  map_err (λ _. unavailable) io
  map_err (λ _. unavailable) io
  publish_object (env.sha256_hex bytes) bytes
  pure (record {
    owner_service = owner;
    digest_hex = env.sha256_hex bytes;
    media_type = media_type;
    length_bytes = length bytes;
  })

-- `BlobStore::store`.
unfoldable pub store : Env → String → Result IoError (List ℕ) → Exec BlobStoreError World BlobRef
unfolding receive
store env media_type delivered =
    if env.is_media_type media_type
    then receive env media_type delivered
    else raise invalid_media_type

-- Whether bytes have the length and the digest that a reference states.
abbrev is_object : Env → BlobRef → List ℕ → Bool
is_object env reference bytes =
    length bytes == reference.length_bytes && str_eq (env.sha256_hex bytes) reference.digest_hex

-- `LocalFsBackend::read_verified` of the object that was found.
check_object : Env → BlobRef → Option (List ℕ) → Exec BlobStoreError World Unit
check_object env reference none = raise missing
check_object env reference (some bytes) =
    if is_object env reference bytes then pure tt else raise missing

-- `BlobStore::verify`.
unfoldable pub verify : Env → BlobRef → Exec BlobStoreError World Unit
unfolding objects_of object check_object
verify env reference =
    if str_eq reference.owner_service owner
    then (do
      map_err (λ _. unavailable) io
      os ← objects_of
      check_object env reference (object reference.digest_hex os))
    else raise missing

erase_object : Env → BlobRef → Option (List ℕ) → Exec BlobStoreError World Unit
unfolding objects_of put_objects unlink
erase_object env reference none = pure tt
erase_object env reference (some bytes) =
    if is_object env reference bytes
    then (do
      map_err (λ _. unavailable) io
      os ← objects_of
      put_objects (unlink reference.digest_hex os))
    else raise missing

-- `BlobStore::erase`: an object that is not there is erased, and one that is not what the reference
-- says is left alone.
unfoldable pub erase : Env → BlobRef → Exec BlobStoreError World Unit
unfolding objects_of object erase_object
erase env reference =
    if str_eq reference.owner_service owner
    then (do
      map_err (λ _. unavailable) io
      os ← objects_of
      erase_object env reference (object reference.digest_hex os))
    else raise missing

-- The staging files, by run.
unfoldable pub file : ℕ → List (ℕ × List ℕ) → Option (List ℕ)
file id [] = none
file id ((name, bytes) ∷ rest) = if name == id then some bytes else file id rest

found_file : Option (List ℕ) → Exec IoError World (List ℕ)
found_file none = raise not_found
found_file (some bytes) = pure bytes

-- Opens a staging file and reads it to its end.
unfoldable pub read_file : ℕ → Exec IoError World (List ℕ)
unfolding file found_file
read_file id = do io; fs ← gets (λ w. w.files); found_file (file id fs)

pub data RegistrationError : Type 0 where
  database unavailable : RegistrationError

same_blob : BlobRef → BlobRef → Bool
same_blob a b = str_eq a.digest_hex b.digest_hex && a.length_bytes == b.length_bytes

-- `restore` from the staging file of a run.
restore : Env → BlobRef → ℕ → Exec RegistrationError World Unit
unfolding read_file store same_blob
restore env reference id = do
  bytes ← map_err (λ _. RegistrationError.unavailable) (read_file id)
  stored ← map_err (λ _. RegistrationError.unavailable) (store env reference.media_type (ok bytes))
  if same_blob stored reference then pure tt else raise RegistrationError.unavailable

restore_unless : Env → BlobRef → ℕ → Result BlobStoreError Unit → Exec RegistrationError World Unit
unfolding restore
restore_unless env reference id (ok _) = pure tt
restore_unless env reference id (err _) = restore env reference id

-- `register_blobs` of one reference whose bytes are staged; the first call takes the digest lock.
unfoldable pub register_blob : Env → BlobRef → ℕ → Exec RegistrationError World Unit
unfolding verify restore_unless
register_blob env reference id = do
  map_err (λ _. database) io
  verified ← attempt (verify env reference)
  restore_unless env reference id verified
