-- ===== src/Prelude/Lists.antt =====
-- Lists measured by native numbers, Boolean searches, and the predicate of all members.
use Prim.Native.Nat.{ℕ, suc, ◌+◌}
use mathlib.Core.Path.{◌≡◌, refl}
use mathlib.Core.Bool.{Bool, false, ◌||◌}
use mathlib.Core.List.{List, [], ◌∷◌, ◌++◌}
use native.Mathlib.Omega.{arith}

module _ {ℓ} {A : Type ℓ} where
  abbrev pub length : List A → ℕ
  length [] = 0
  length (_ ∷ xs) = suc (length xs)

  abbrev pub any : (A → Bool) → List A → Bool
  any p [] = false
  any p (x ∷ xs) = p x || any p xs

  pub length-append : (xs ys : List A) → length (xs ++ ys) ≡ length xs + length ys
  length-append [] ys = omega arith
  length-append (x ∷ xs) ys = omega (arith, length-append xs ys)

  -- Every member satisfies `P`.
  abbrev pub All {κ} : (A → Type κ) → List A → Type κ
  All P [] = Unit
  All P (x ∷ xs) = P x × All P xs

  pub All-append {κ} : (P : A → Type κ) (xs ys : List A) → All P xs → All P ys → All P (xs ++ ys)
  All-append P [] ys h k = k
  All-append P (x ∷ xs) ys h k = (h.0, All-append P xs ys h.1 k)

module _ {ℓ κ μ} {A : Type ℓ} {P : A → Type κ} {Q : A → Type μ} where
  pub All-mono : ((x : A) → P x → Q x) → (xs : List A) → All P xs → All Q xs
  All-mono f [] h = tt
  All-mono f (x ∷ xs) h = (f x h.0, All-mono f xs h.1)

module _ {ℓ κ μ} {A : Type ℓ} (P : A → Type κ) (Q : A → Type μ) where
  pub All-zip : (xs : List A) → All P xs → All Q xs → All (λ x. P x × Q x) xs
  All-zip [] h k = tt
  All-zip (x ∷ xs) h k = ((h.0, k.0), All-zip xs h.1 k.1)

module _ {ℓ κ} {A : Type ℓ} (P : A → Type κ) where
  pub All-right : (xs ys : List A) → All P (xs ++ ys) → All P ys
  All-right [] ys h = h
  All-right (x ∷ xs) ys h = All-right xs ys h.1

  pub All-left : (xs ys : List A) → All P (xs ++ ys) → All P xs
  All-left [] ys h = tt
  All-left (x ∷ xs) ys h = (h.0, All-left xs ys h.1)

  pub All-of : ((x : A) → P x) → (xs : List A) → All P xs
  All-of f [] = tt
  All-of f (x ∷ xs) = (f x, All-of f xs)

module _ {ℓ} {A : Type ℓ} (p : A → Bool) where
  pub any-append : (xs ys : List A) → any p (xs ++ ys) ≡ (any p xs || any p ys)
  any-append [] ys = refl
  any-append (x ∷ xs) ys = ground (arith, any-append xs ys)

  pub any_left : (xs ys : List A) → any p (xs ++ ys) ≡ false → any p xs ≡ false
  any_left xs ys h = ground (arith, any-append xs ys)

  pub All-not_any : (xs : List A) → any p xs ≡ false → All (λ x. p x ≡ false) xs
  All-not_any [] h = tt
  All-not_any (x ∷ xs) h = (ground arith, All-not_any xs (ground arith))

-- No two members clash.
abbrev pub Apart : {A : Type 0} → (A → A → Bool) → List A → Type 0
Apart clash [] = Unit {0}
Apart clash (x ∷ xs) = (any (clash x) xs ≡ false) × Apart clash xs

module _ {A : Type 0} (clash : A → A → Bool) where
  pub Apart-right : (xs ys : List A) → Apart clash (xs ++ ys) → Apart clash ys
  Apart-right [] ys h = h
  Apart-right (x ∷ xs) ys h = Apart-right xs ys h.1

  pub Apart-left : (xs ys : List A) → Apart clash (xs ++ ys) → Apart clash xs
  Apart-left [] ys h = tt
  Apart-left (x ∷ xs) ys h = (any_left (clash x) xs ys h.0, Apart-left xs ys h.1)

  -- No member of the first part clashes with one of the second.
  pub Apart-across :
      (xs ys : List A) → Apart clash (xs ++ ys) → All (λ y. any (λ x. clash x y) xs ≡ false) ys
  Apart-across [] ys h = All-of _ (λ y. refl) ys
  Apart-across (x ∷ xs) ys h =
      All-mono (λ y (k, l). ground arith) ys
        (All-zip _ _ ys (All-right _ xs ys (All-not_any (clash x) (xs ++ ys) h.0))
          (Apart-across xs ys h.1))

module _ {A : Type 0} (clash : A → A → Bool) (symmetric : (a b : A) → clash a b ≡ clash b a) where
  any-append-last :
      (x y : A) (xs : List A)
      → any (clash x) xs ≡ false
      → clash y x ≡ false
      → any (clash x) (xs ++ y ∷ []) ≡ false
  any-append-last x y [] h k = ground (arith, symmetric x y)
  any-append-last x y (z ∷ xs) h k = ground (arith, any-append-last x y xs)

  -- A member that clashes with none may be added at the end.
  pub Apart-append :
      (xs : List A) (y : A)
      → Apart clash xs
      → any (λ x. clash x y) xs ≡ false
      → Apart clash (xs ++ y ∷ [])
  Apart-append [] y h k = (refl, tt)
  Apart-append (x ∷ xs) y h k = (
    any-append-last x y xs h.0 (ground (arith, symmetric x y)),
    Apart-append xs y h.1 (ground arith),
  )
