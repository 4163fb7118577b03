-- ===== src/Receipt/BlobStore/Contents.antt =====
-- What the blob store holds after its operations, when no call fails.
use ratatoskr_chatgpt.Prelude.{
  subst, sym, ap, [], ◌∷◌, arith, Option-cases, ℕ, ◌≡◌, inl, inr, refl, ◌∙◌, String, true, false,
  Option, none, some, List, ◌==◌, str_eq, str_eq_iff, length,
}
use ratatoskr_chatgpt.Effect.{err, ok, pure, raise, ◌>>=◌}
use ratatoskr_chatgpt.Receipt.World.{quiet, BlobRef, Shared, Env, io}
use ratatoskr_chatgpt.Receipt.BlobStore.{
  unlink, missing, erase, erase_object, put_objects, verify, check_object, restore, restore_unless,
  register_blob, same_blob, file, found_file, read_file, owner, object, link, publish_object,
  receive, store, is_object,
}

abbrev pub with_objects : Shared → List (String × List ℕ) → Shared
with_objects s os = record s { objects = os }

-- The reference that a store answers.
abbrev pub ref_of : Env → String → List ℕ → BlobRef
ref_of env media_type bytes = record {
  owner_service = owner;
  digest_hex = env.sha256_hex bytes;
  media_type = media_type;
  length_bytes = length bytes;
}

-- The objects once bytes were published under a name.
unfoldable pub published : String → List ℕ → List (String × List ℕ) → List (String × List ℕ)
published hex bytes os = elim (object hex os) [ none ↦ (hex, bytes) ∷ os | some old ↦ os ]

str_eq_self : (a : String) → str_eq a a ≡ true
str_eq_self a = (str_eq_iff a a).1 refl

eq_self : (n : ℕ) → (n == n) ≡ true
eq_self n = ground arith

is_object_self :
    (env : Env) (media_type : String) (bytes : List ℕ)
    → is_object env (ref_of env media_type bytes) bytes ≡ true
is_object_self env media_type bytes =
    rw (eq_self (length bytes), str_eq_self (env.sha256_hex bytes)) refl

module _ (env : Env) (s : Shared) (fs : List (ℕ × List ℕ)) (minted : ℕ) where
  pub store_lem :
      (media_type : String) (bytes : List ℕ)
      → env.is_media_type media_type ≡ true
      → store env media_type (ok bytes) (quiet s fs minted) ≡ (
        ok (ref_of env media_type bytes),
        quiet (with_objects s (published (env.sha256_hex bytes) bytes s.objects)) fs minted,
      )
  unfolding store receive io ◌>>=◌ publish_object published
  store_lem media_type bytes valid = elim (Option-cases (object (env.sha256_hex bytes) s.objects)) [
    | inl e ↦ rw (valid) (rw (e, link, put_objects, published) refl)
    | inr (old, e) ↦ rw (valid) (rw (e, link, published) refl)
  ]

  verify_lem :
      (reference : BlobRef) (found : Option (List ℕ))
      → str_eq reference.owner_service owner ≡ true
      → object reference.digest_hex s.objects ≡ found
      → verify env reference (quiet s fs minted)
        ≡ check_object env reference found (quiet s fs minted)
  unfolding verify io ◌>>=◌
  verify_lem reference found owned at = rw (owned) (rw (at) refl)

pub read_file_lem :
    (s : Shared) (fs : List (ℕ × List ℕ)) (minted id : ℕ) (bytes : List ℕ)
    → file id fs ≡ some bytes
    → read_file id (quiet s fs minted) ≡ (ok bytes, quiet s fs minted)
unfolding read_file found_file pure io ◌>>=◌
read_file_lem s fs minted id bytes held = rw (held) refl

pub object-published :
    (hex : String) (bytes : List ℕ) (os : List (String × List ℕ))
    → ((old : List ℕ) → object hex os ≡ some old → old ≡ bytes)
    → object hex (published hex bytes os) ≡ some bytes
unfolding published object
object-published hex bytes os same = elim (Option-cases (object hex os)) [
  | inl e ↦ rw (e, published) (rw (str_eq_self hex, object) refl)
  | inr (old, e) ↦ rw (e, published) (e ∙ ap some (same old e))
]

published_present :
    (hex : String) (bytes : List ℕ) (os : List (String × List ℕ)) (old : List ℕ)
    → object hex os ≡ some old
    → published hex bytes os ≡ os
unfolding published
published_present hex bytes os old e = rw (e, published) refl

object-published_other :
    (hex other : String) (bytes : List ℕ) (os : List (String × List ℕ))
    → str_eq hex other ≡ false
    → object other (published hex bytes os) ≡ object other os
unfolding published object
object-published_other hex other bytes os apart = elim (Option-cases (object hex os)) [
  | inl e ↦ rw (e, published) (rw (apart, object) refl)
  | inr (old, e) ↦ rw (e, published) refl
]

object-unlink : (hex : String) (os : List (String × List ℕ)) → object hex (unlink hex os) ≡ none
unfolding object unlink
object-unlink hex [] = refl
object-unlink hex ((name, bytes) ∷ os) = ground (arith, object-unlink hex os)

object-unlink_other :
    (hex other : String) (os : List (String × List ℕ))
    → str_eq hex other ≡ false
    → object other (unlink hex os) ≡ object other os
unfolding object unlink
object-unlink_other hex other [] apart = refl
object-unlink_other hex other ((name, bytes) ∷ os) apart = ground (
  arith,
  object-unlink_other hex other os apart,
  str_eq_iff name hex,
  str_eq_iff name other,
  str_eq_iff hex other,
)

module _ (env : Env) (s : Shared) (fs : List (ℕ × List ℕ)) (minted : ℕ) where
  -- With no failing call, bytes of a valid media type are stored under their digest, where no other
  -- bytes are under it; the reference that is answered verifies in the world that the store leaves,
  -- the object there is these bytes, and the object under every other name is as before.
  pub store-verify :
      (media_type : String) (bytes : List ℕ)
      → env.is_media_type media_type ≡ true
      → ((old : List ℕ) → object (env.sha256_hex bytes) s.objects ≡ some old → old ≡ bytes)
      → (s' : Shared) × (store env media_type (ok bytes) (quiet s fs minted)
          ≡ (ok (ref_of env media_type bytes), quiet s' fs minted))
        × (verify env (ref_of env media_type bytes) (quiet s' fs minted)
            ≡ (ok tt, quiet s' fs minted))
        × (object (env.sha256_hex bytes) s'.objects ≡ some bytes)
        × ((other : String)
            → str_eq (env.sha256_hex bytes) other ≡ false
            → object other s'.objects ≡ object other s.objects)
  unfolding check_object pure
  store-verify media_type bytes valid same =
      let at = object-published (env.sha256_hex bytes) bytes s.objects same in
      (
        with_objects s (published (env.sha256_hex bytes) bytes s.objects),
        store_lem env s fs minted media_type bytes valid,
        verify_lem env (with_objects s (published (env.sha256_hex bytes) bytes s.objects)) fs minted
              (ref_of env media_type bytes) (some bytes) (str_eq_self owner) at
            ∙ rw (is_object_self env media_type bytes) refl,
        at,
        λ other apart. object-published_other (env.sha256_hex bytes) other bytes s.objects apart,
      )

  -- With no failing call, an object that is what a reference of this service says is erased: the
  -- reference does not verify after it, the object under every other name is as before, and erasing
  -- it again is answered as done and changes nothing.
  pub erase-verify :
      (reference : BlobRef) (bytes : List ℕ)
      → str_eq reference.owner_service owner ≡ true
      → object reference.digest_hex s.objects ≡ some bytes
      → is_object env reference bytes ≡ true
      → (s' : Shared) × (erase env reference (quiet s fs minted) ≡ (ok tt, quiet s' fs minted))
        × (verify env reference (quiet s' fs minted) ≡ (err missing, quiet s' fs minted))
        × (erase env reference (quiet s' fs minted) ≡ (ok tt, quiet s' fs minted))
        × ((other : String)
            → str_eq reference.digest_hex other ≡ false
            → object other s'.objects ≡ object other s.objects)
  unfolding check_object raise erase io ◌>>=◌
  erase-verify reference bytes owned at is =
      let gone = object-unlink reference.digest_hex s.objects in
      (
        with_objects s (unlink reference.digest_hex s.objects),
        rw (owned) (rw (at, erase_object) (rw (is, put_objects) refl)),
        verify_lem env (with_objects s (unlink reference.digest_hex s.objects)) fs minted reference
            none owned gone,
        rw (owned) (rw (gone, erase_object) refl),
        λ other apart. object-unlink_other reference.digest_hex other s.objects apart,
      )

  module _ (reference : BlobRef) (id : ℕ) (bytes : List ℕ)
      (owned : str_eq reference.owner_service owner ≡ true)
      (valid : env.is_media_type reference.media_type ≡ true) (held : file id fs ≡ some bytes)
      (is : is_object env reference bytes ≡ true) where
    abbrev after : Shared
    after = with_objects s (published (env.sha256_hex bytes) bytes s.objects)

    same : same_blob (ref_of env reference.media_type bytes) reference ≡ true
    unfolding same_blob
    same = ground (arith, is)

    named : env.sha256_hex bytes ≡ reference.digest_hex
    named = (str_eq_iff (env.sha256_hex bytes) reference.digest_hex).0 (ground (arith, is))

    restore_lem : restore env reference id (quiet s fs minted) ≡ (ok tt, quiet after fs minted)
    unfolding restore pure ◌>>=◌
    restore_lem =
        rw (read_file_lem s fs minted id bytes held)
          (rw (store_lem env s fs minted reference.media_type bytes valid) (rw (same) refl))

    held_after :
        ((old : List ℕ) → object reference.digest_hex s.objects ≡ some old → old ≡ bytes)
        → object reference.digest_hex after.objects ≡ some bytes
    held_after only =
        subst (λ h. object h after.objects ≡ some bytes) named
          (object-published (env.sha256_hex bytes) bytes s.objects
            (λ old e. only old (subst (λ h. object h s.objects ≡ some old) named e)))

    -- With no failing call, the registration of a reference of this service, of a valid media type,
    -- whose staged bytes have its digest and length, succeeds where no other bytes stand under its
    -- digest, whether or not the object is still there, and the reference verifies after it.
    pub register_blob-verify :
        ((old : List ℕ) → object reference.digest_hex s.objects ≡ some old → old ≡ bytes)
        → (s' : Shared) × (register_blob env reference id (quiet s fs minted)
            ≡ (ok tt, quiet s' fs minted))
          × (verify env reference (quiet s' fs minted) ≡ (ok tt, quiet s' fs minted))
    unfolding register_blob restore_unless check_object pure raise io ◌>>=◌
    register_blob-verify only = elim (Option-cases (object reference.digest_hex s.objects)) [
      | inl gone ↦ (
        after,
        rw (verify_lem env s fs minted reference none owned gone) restore_lem,
        verify_lem env after fs minted reference (some bytes) owned (held_after only)
            ∙ rw (is) refl,
      )
      | inr (old, at) ↦
          let old_is : is_object env reference old ≡ true =
            subst (λ b. is_object env reference b ≡ true) (sym (only old at)) is in
          (
            s,
            rw (verify_lem env s fs minted reference (some old) owned at) (rw (old_is) refl),
            verify_lem env s fs minted reference (some old) owned at ∙ rw (old_is) refl,
          )
    ]

    -- With no failing call, a reference of this service, of a valid media type, whose staged bytes
    -- have its digest and length: where other bytes stand under its digest, so that it does not
    -- verify, its registration succeeds too, and the reference does not verify after it.
    pub register_blob-corrupt :
        (bad : List ℕ)
        → object reference.digest_hex s.objects ≡ some bad
        → is_object env reference bad ≡ false
        → (s' : Shared) × (register_blob env reference id (quiet s fs minted)
            ≡ (ok tt, quiet s' fs minted))
          × (verify env reference (quiet s' fs minted) ≡ (err missing, quiet s' fs minted))
    unfolding register_blob restore_unless check_object pure raise io ◌>>=◌
    register_blob-corrupt bad at is_not = (
      after,
      rw (verify_lem env s fs minted reference (some bad) owned at) (rw (is_not) restore_lem),
      verify_lem env after fs minted reference (some bad) owned (
            ap (object reference.digest_hex) (
              published_present (env.sha256_hex bytes) bytes s.objects bad
                (subst (λ h. object h s.objects ≡ some bad) (sym named) at))
            ∙ at)
          ∙ rw (is_not) refl,
    )

-- A reference that a store answered is registered while its object is there, and nothing changes.
pub register_blob-store :
    (env : Env) (s : Shared) (fs : List (ℕ × List ℕ)) (minted : ℕ) (media_type : String)
    (bytes : List ℕ) (id : ℕ)
    → object (env.sha256_hex bytes) s.objects ≡ some bytes
    → register_blob env (ref_of env media_type bytes) id (quiet s fs minted)
      ≡ (ok tt, quiet s fs minted)
unfolding register_blob restore_unless check_object pure io ◌>>=◌
register_blob-store env s fs minted media_type bytes id held =
    rw
      (verify_lem env s fs minted (ref_of env media_type bytes) (some bytes) (str_eq_self owner)
        held)
      (rw (is_object_self env media_type bytes) refl)
