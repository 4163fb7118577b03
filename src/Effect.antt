-- ===== src/Effect.antt =====
-- Fallible operations over a state, as every asynchronous method of the service is one: what a
-- method did to the database, the disk and the broker stays done when it returns an error, so the
-- state comes back beside the error too.
pub mod Guards

pub data Result {ℓ} (E A : Type ℓ) : Type ℓ where
  ok : A → Result E A
  err : E → Result E A

abbrev pub Exec {ℓ} : Type ℓ → Type ℓ → Type ℓ → Type ℓ
Exec E S A = S → Result E A × S

module _ {ℓ} {E S A : Type ℓ} where
  unfoldable pub pure : A → Exec E S A
  pure a s = (ok a, s)

  unfoldable pub raise : E → Exec E S A
  raise e s = (err e, s)

  unfoldable pub gets : (S → A) → Exec E S A
  gets f s = (ok (f s), s)

module _ {ℓ} {E F A : Type ℓ} where
  abbrev pub convert : (E → F) → Result E A → Result F A
  convert f (ok a) = ok a
  convert f (err e) = err (f e)

module _ {ℓ} {E F S A : Type ℓ} where
  -- `.map_err(f)`
  unfoldable pub map_err : (E → F) → Exec E S A → Exec F S A
  map_err f m s = let (r, s') = m s in (convert f r, s')

  -- `match m.await { … }`, `let _ = m.await`
  unfoldable pub attempt : Exec E S A → Exec F S (Result E A)
  attempt m s = let (r, s') = m s in (ok r, s')

module _ {ℓ} {E S A B : Type ℓ} where
  abbrev pub continue : Result E A → (A → Exec E S B) → Exec E S B
  continue (ok a) f s = f a s
  continue (err e) f s = (err e, s)

  infixl 10 ◌>>=◌ ◌>>◌
  -- To open this is to open the other ways to build an operation too.
  unfoldable pub ◌>>=◌ : Exec E S A → (A → Exec E S B) → Exec E S B
  unfolding pure raise gets map_err attempt
  ◌>>=◌ m f s = let (r, s') = m s in continue r f s'

  abbrev pub ◌>>◌ : Exec E S A → Exec E S B → Exec E S B
  m >> n = m >>= λ _. n
