-- ===== src/Reconciliation/OrderedMap/Totals.antt =====
-- What a `BTreeMap` holds in all, when its keys are apart and an entry is written.
use ratatoskr_chatgpt.Prelude.{
  ℕ, ◌+◌, ◌≡◌, refl, ap, subst, inl, inr, String, Option, none, some, List, [], ◌∷◌, arith, str_eq,
  str_eq_iff, Bool-cases, Option-cases,
}
use ratatoskr_chatgpt.Reconciliation.OrderedMap.{
  OrderedMap, before, lookup, replace, place, insert_at, insert, values, lookup-replace,
  lookup-place, some_inj,
}

module _ {V : Type 0} where
  -- No key stands twice.
  abbrev pub AreApart : OrderedMap V → Type 0
  AreApart [] = Unit
  AreApart ((k, v) ∷ m) = (lookup k m ≡ none) × AreApart m

  AreApart-replace : (k : String) (v : V) (m : OrderedMap V) → AreApart m → AreApart (replace k v m)
  unfolding replace
  AreApart-replace k v [] h = tt
  AreApart-replace k v ((j, w) ∷ m) h =
      (ground (arith, h.0, lookup-replace k j v m), AreApart-replace k v m h.1)

  AreApart-place :
      (k : String) (v : V) (m : OrderedMap V)
      → lookup k m ≡ none
      → AreApart m
      → AreApart (place k v m)
  unfolding place lookup
  AreApart-place k v [] fresh h = (refl, tt)
  AreApart-place k v ((j, w) ∷ m) fresh h = elim (Bool-cases (before k j)) [
    | inl b ↦ rw (b) (fresh, h)
    | inr b ↦ rw (b) (
      ground (
        arith,
        h.0,
        fresh,
        str_eq_iff k j,
        str_eq_iff j k,
        lookup-place k j v m (ground (arith, fresh)),
      ),
      AreApart-place k v m (ground (arith, fresh)) h.1,
    )
  ]

  pub AreApart-insert :
      (k : String) (v : V) (m : OrderedMap V) → AreApart m → AreApart (insert k v m)
  unfolding insert insert_at
  AreApart-insert k v m h = elim (Option-cases (lookup k m)) [
    | inl e ↦ rw (e, insert_at) (AreApart-place k v m e h)
    | inr (w, e) ↦ rw (e, insert_at) (AreApart-replace k v m h)
  ]

  module _ (weigh : V → ℕ) where
    abbrev pub total : OrderedMap V → ℕ
    total [] = 0
    total ((k, v) ∷ m) = weigh v + total m

    abbrev pub weigh_if : Option V → ℕ
    weigh_if none = 0
    weigh_if (some v) = weigh v

    total-replace-none :
        (k : String) (v : V) (m : OrderedMap V)
        → lookup k m ≡ none
        → total (replace k v m) ≡ total m
    unfolding replace lookup
    total-replace-none k v [] fresh = refl
    total-replace-none k v ((j, w) ∷ m) fresh = elim (Bool-cases (str_eq j k)) [
      | inl b ↦ absurd (ground (arith, fresh, b))
      | inr b ↦ rw (b, total-replace-none k v m (ground (arith, fresh, b))) refl
    ]

    total-replace :
        (k : String) (v old : V) (m : OrderedMap V)
        → AreApart m
        → lookup k m ≡ some old
        → total (replace k v m) + weigh old ≡ total m + weigh v
    unfolding replace lookup
    total-replace k v old [] apart held = absurd (ground (arith, held))
    total-replace k v old ((j, w) ∷ m) apart held = elim (Bool-cases (str_eq j k)) [
      | inl b ↦ rw (b) (
          omega (
            arith,
            total-replace-none k v m
                (subst (λ i. lookup i m ≡ none) ((str_eq_iff j k).0 b) apart.0),
            ap weigh (some_inj (rw b at held)),
          ))
      | inr b ↦ rw (b) (omega (arith, total-replace k v old m apart.1 (ground (arith, held, b))))
    ]

    total-place : (k : String) (v : V) (m : OrderedMap V) → total (place k v m) ≡ weigh v + total m
    unfolding place
    total-place k v [] = refl
    total-place k v ((j, w) ∷ m) = elim (Bool-cases (before k j)) [
      | inl b ↦ rw (b) refl
      | inr b ↦ rw (b) (omega (arith, total-place k v m))
    ]

    pub total-insert :
        (k : String) (v : V) (m : OrderedMap V)
        → AreApart m
        → total (insert k v m) + weigh_if (lookup k m) ≡ total m + weigh v
    unfolding insert insert_at
    total-insert k v m apart = elim (Option-cases (lookup k m)) [
      | inl e ↦ rw (e, insert_at) (omega (arith, total-place k v m))
      | inr (w, e) ↦ rw (e, insert_at) (total-replace k v w m apart e)
    ]

    -- What the values hold in all.
    abbrev pub total_of : List V → ℕ
    total_of [] = 0
    total_of (v ∷ vs) = weigh v + total_of vs

    pub total_of-values : (m : OrderedMap V) → total_of (values m) ≡ total m
    unfolding values
    total_of-values [] = refl
    total_of-values ((k, v) ∷ m) = omega (arith, total_of-values m)
