-- ===== src/Reconciliation/OrderedMap.antt =====
-- `BTreeMap<String, V>` as the list of its entries in key order: what the reconciliation uses of it,
-- which is the lookup behind `entry`, the write of an entry and the walk over the values.
pub mod Totals
use Prim.Native.Nat.{Ordering}
use Prim.Native.String.{compare}
use ratatoskr_chatgpt.Prelude.{
  Option-cases, Bool-cases, inl, inr, All, subst, String, ◌≡◌, refl, Bool, true, false, Option,
  none, some, List, [], ◌∷◌, arith, if◌then◌else◌, str_eq, str_eq_iff,
}

abbrev pub OrderedMap : Type 0 → Type 0
OrderedMap V = List (String × V)

abbrev before : String → String → Bool
before a b = elim (compare a b) [ Ordering.lt ↦ true | _ ↦ false ]

module _ {V : Type 0} where
  unfoldable pub lookup : String → OrderedMap V → Option V
  lookup k [] = none
  lookup k ((j, v) ∷ m) = if str_eq j k then some v else lookup k m

  -- An entry with the key, written anew.
  replace : String → V → OrderedMap V → OrderedMap V
  replace k v [] = []
  replace k v ((j, w) ∷ m) = (j, if str_eq j k then v else w) ∷ replace k v m

  -- A new entry at its place.
  place : String → V → OrderedMap V → OrderedMap V
  place k v [] = (k, v) ∷ []
  place k v ((j, w) ∷ m) = if before k j then (k, v) ∷ (j, w) ∷ m else (j, w) ∷ place k v m

  insert_at : String → V → OrderedMap V → Option V → OrderedMap V
  unfolding replace place
  insert_at k v m (some old) = replace k v m
  insert_at k v m none = place k v m

  unfoldable pub insert : String → V → OrderedMap V → OrderedMap V
  unfolding insert_at lookup
  insert k v m = insert_at k v m (lookup k m)

  lookup-replace :
      (k j : String) (v : V) (m : OrderedMap V)
      → lookup j (replace k v m)
        ≡ (if str_eq k j then elim (lookup j m) [ none ↦ none | some w ↦ some v ] else lookup j m)
  unfolding lookup replace
  lookup-replace k j v [] = ground arith
  lookup-replace k j v ((i, w) ∷ m) =
      ground (arith, str_eq_iff k j, str_eq_iff i k, str_eq_iff i j, lookup-replace k j v m)

  lookup-place :
      (k j : String) (v : V) (m : OrderedMap V)
      → lookup k m ≡ none
      → lookup j (place k v m) ≡ (if str_eq k j then some v else lookup j m)
  unfolding lookup place
  lookup-place k j v [] h = refl
  lookup-place k j v ((i, w) ∷ m) h =
      ground (arith, str_eq_iff k j, str_eq_iff i k, str_eq_iff i j, lookup-place k j v m)

  lookup-insert_at :
      (k j : String) (v : V) (m : OrderedMap V) (o : Option V)
      → lookup k m ≡ o
      → lookup j (insert_at k v m o) ≡ (if str_eq k j then some v else lookup j m)
  unfolding insert_at
  lookup-insert_at k j v m none h = lookup-place k j v m h
  lookup-insert_at k j v m (some w) h = ground (arith, lookup-replace k j v m, str_eq_iff k j)

  pub lookup-insert :
      (k j : String) (v : V) (m : OrderedMap V)
      → lookup j (insert k v m) ≡ (if str_eq k j then some v else lookup j m)
  unfolding insert
  lookup-insert k j v m = lookup-insert_at k j v m (lookup k m) refl

  -- `into_values`
  unfoldable pub values : OrderedMap V → List V
  values [] = []
  values ((k, v) ∷ m) = v ∷ values m

some_inj : {V : Type 0} {v w : V} → some v ≡ some w → v ≡ w
some_inj e = cc

none≢some : {V : Type 0} {v : V} → ¬ (none ≡ some v)
none≢some e = cc

-- A predicate of every value.
abbrev pub AllValues : {V : Type 0} → (V → Type 0) → OrderedMap V → Type 0
AllValues P m = All (λ e. P e.1) m

module _ {V : Type 0} (P : V → Type 0) where
  AllValues-replace :
      (k : String) (v : V) (m : OrderedMap V) → P v → AllValues P m → AllValues P (replace k v m)
  unfolding replace
  AllValues-replace k v [] p h = tt
  AllValues-replace k v ((j, w) ∷ m) p h = (either (str_eq j k), AllValues-replace k v m p h.1)
    where
      either : (b : Bool) → P (if b then v else w)
      either true = p
      either false = h.0

  AllValues-place :
      (k : String) (v : V) (m : OrderedMap V) → P v → AllValues P m → AllValues P (place k v m)
  unfolding place
  AllValues-place k v [] p h = (p, tt)
  AllValues-place k v ((j, w) ∷ m) p h = either (before k j) (AllValues-place k v m p h.1)
    where
      either :
          (b : Bool)
          → AllValues P (place k v m)
          → AllValues P (if b then (k, v) ∷ (j, w) ∷ m else (j, w) ∷ place k v m)
      either true rest = (p, h)
      either false rest = (h.0, rest)

  pub AllValues-insert :
      (k : String) (v : V) (m : OrderedMap V) → P v → AllValues P m → AllValues P (insert k v m)
  unfolding insert insert_at
  AllValues-insert k v m p h = elim (Option-cases (lookup k m)) [
    | inl e ↦ rw (e, insert_at) (AllValues-place k v m p h)
    | inr (w, e) ↦ rw (e, insert_at) (AllValues-replace k v m p h)
  ]

  pub All-values : (m : OrderedMap V) → AllValues P m → All P (values m)
  unfolding values
  All-values [] h = tt
  All-values ((k, v) ∷ m) h = (h.0, All-values m h.1)

  pub AllValues-lookup :
      (k : String) (m : OrderedMap V) (v : V) → AllValues P m → lookup k m ≡ some v → P v
  unfolding lookup
  AllValues-lookup k [] v h e = absurd (none≢some e)
  AllValues-lookup k ((j, w) ∷ m) v h e = elim (Bool-cases (str_eq j k)) [
    | inl this ↦ subst P (some_inj (rw this at e)) h.0
    | inr that ↦ AllValues-lookup k m v h.1 (rw that at e)
  ]
