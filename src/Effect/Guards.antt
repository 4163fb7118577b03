-- ===== src/Effect/Guards.antt =====
-- Relations between the state before and after an operation, one rule for each way to build one.
use ratatoskr_chatgpt.Prelude.{Bool, true, false, if◌then◌else◌}
use ratatoskr_chatgpt.Effect.{
  Result, ok, err, Exec, pure, raise, gets, continue, ◌>>=◌, map_err, attempt,
}

-- A relation on states that composes.
pub record Preorder (S : Type 0) : Type 1 where
  pub rel : S → S → Type 0
  pub same : (s : S) → rel s s
  pub chain : {s t u : S} → rel s t → rel t u → rel s u

-- Whatever `m` returns, the state after it is related to the one before.
pub record Guards {S E A : Type 0} (P : Preorder S) (m : Exec E S A) : Type 0 where
  pub at : (s : S) → P.rel s (m s).1

module _ {S E A : Type 0} {P : Preorder S} where
  pub Guards-pure : (a : A) → Guards P (pure {E = E} a)
  unfolding pure
  Guards-pure a = record { at = P.same }

  pub Guards-raise : (e : E) → Guards P (raise {A = A} e)
  unfolding raise
  Guards-raise e = record { at = P.same }

  pub Guards-gets : (f : S → A) → Guards P (gets {E = E} f)
  unfolding gets
  Guards-gets f = record { at = P.same }

  pub Guards-if :
      (b : Bool) (m n : Exec E S A) → Guards P m → Guards P n → Guards P (if b then m else n)
  Guards-if true m n km kn = km
  Guards-if false m n km kn = kn

module _ {S E A B : Type 0} {P : Preorder S} where
  continue-rel :
      (r : Result E A) (f : A → Exec E S B) (s : S)
      → ((a : A) → Guards P (f a))
      → P.rel s (continue r f s).1
  continue-rel (ok a) f s kf = (kf a).at s
  continue-rel (err e) f s kf = P.same s

  pub Guards-bind :
      (m : Exec E S A) (f : A → Exec E S B)
      → Guards P m
      → ((a : A) → Guards P (f a))
      → Guards P (m >>= f)
  unfolding ◌>>=◌
  Guards-bind m f km kf = record {
    at = λ s. let (r, s') = m s in P.chain (km.at s) (continue-rel r f s' kf);
  }

module _ {S E F A : Type 0} {P : Preorder S} where
  pub Guards-map_err : (f : E → F) (m : Exec E S A) → Guards P m → Guards P (map_err f m)
  unfolding map_err
  Guards-map_err f m km = record { at = km.at }

  pub Guards-attempt : (m : Exec E S A) → Guards P m → Guards P (attempt {F = F} m)
  unfolding attempt
  Guards-attempt m km = record { at = km.at }

pub ruleset guards_rules =
    (Guards-pure, Guards-raise, Guards-gets, Guards-if, Guards-bind, Guards-map_err, Guards-attempt)
