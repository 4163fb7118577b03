-- ===== src/Reconciliation/Fold.antt =====
-- The shape that the observers of a snapshot share: each record is entered into the map under its
-- identity, and the entries that the snapshot omits are marked.
use ratatoskr_chatgpt.Prelude.{
  Option-cases, ◌≡◌, refl, sym, ap, subst, ◌∙◌, String, Bool, true, false, none, some, List, [],
  ◌∷◌, arith, if◌then◌else◌, str_eq, str_eq_iff, Bool-cases, inl, inr,
}
use ratatoskr_chatgpt.Reconciliation.Core.{holds}
use ratatoskr_chatgpt.Reconciliation.OrderedMap
use ratatoskr_chatgpt.Reconciliation.OrderedMap.{OrderedMap}
use ratatoskr_chatgpt.Reconciliation.Observe.{entry, mark_absent}

module _ {A V : Type 0} (id : A → String) (fresh : String → V) (step : A → V → V) where
  unfoldable pub fold : List A → OrderedMap V → OrderedMap V
  unfolding entry OrderedMap.insert
  fold [] m = m
  fold (x ∷ xs) m = fold xs (OrderedMap.insert (id x) (step x (entry (fresh (id x)) (id x) m)) m)

entry-some :
    {V : Type 0} (fresh : V) (k : String) (m : OrderedMap V) (v : V)
    → OrderedMap.lookup k m ≡ some v
    → entry fresh k m ≡ v
unfolding entry
entry-some fresh k m v e = rw (e, entry) refl

pub lookup-mark_absent :
    {V : Type 0} (is_present : String → Bool) (miss : V → V) (k : String) (m : OrderedMap V) (v : V)
    → OrderedMap.lookup k m ≡ some v
    → OrderedMap.lookup k (mark_absent is_present miss m)
      ≡ some (if is_present k then v else miss v)
unfolding OrderedMap.lookup mark_absent
lookup-mark_absent is_present miss k [] v e = cc
lookup-mark_absent is_present miss k ((j, w) ∷ m) v e =
    ground (arith, str_eq_iff j k, lookup-mark_absent is_present miss k m v)

pub lookup-mark_absent-none :
    {V : Type 0} (is_present : String → Bool) (miss : V → V) (k : String) (m : OrderedMap V)
    → OrderedMap.lookup k m ≡ none
    → OrderedMap.lookup k (mark_absent is_present miss m) ≡ none
unfolding OrderedMap.lookup mark_absent
lookup-mark_absent-none is_present miss k [] e = refl
lookup-mark_absent-none is_present miss k ((j, w) ∷ m) e =
    ground (arith, lookup-mark_absent-none is_present miss k m)

lookup-insert_this :
    {V : Type 0} (k j : String) (v : V) (m : OrderedMap V)
    → str_eq k j ≡ true
    → OrderedMap.lookup j (OrderedMap.insert k v m) ≡ some v
lookup-insert_this k j v m h = OrderedMap.lookup-insert k j v m ∙ rw (h) refl

lookup-insert_that :
    {V : Type 0} (k j : String) (v : V) (m : OrderedMap V)
    → str_eq k j ≡ false
    → OrderedMap.lookup j (OrderedMap.insert k v m) ≡ OrderedMap.lookup j m
lookup-insert_that k j v m h = OrderedMap.lookup-insert k j v m ∙ rw (h) refl

-- What stands under an identity before, and what stands there after.
module _ {V : Type 0} (R : V → V → Type 0) where
  pub record Kept (m m' : OrderedMap V) : Type 0 where
    pub at :
        (k : String) (v : V)
        → OrderedMap.lookup k m ≡ some v
        → (v' : V) × (OrderedMap.lookup k m' ≡ some v') × R v v'

  Kept-insert :
      (k : String) (w : V) (m : OrderedMap V)
      → ((v : V) → OrderedMap.lookup k m ≡ some v → R v w)
      → ((v : V) → R v v)
      → Kept m (OrderedMap.insert k w m)
  Kept-insert k w m grows R-refl = record {
    at = λ j v e. elim (Bool-cases (str_eq k j)) [
      | inl this ↦ (
        w,
        lookup-insert_this k j w m this,
        grows v (ap (λ i. OrderedMap.lookup i m) ((str_eq_iff k j).0 this) ∙ e),
      )
      | inr that ↦ (v, lookup-insert_that k j w m that ∙ e, R-refl v)
    ];
  }

  pub Kept-trans :
      ((u v w : V) → R u v → R v w → R u w)
      → {l m n : OrderedMap V} → Kept l m
      → Kept m n
      → Kept l n
  Kept-trans R-trans f g = record {
    at = λ k v e.
        let (v', e', r) = f.at k v e in
        let (v'', e'', r') = g.at k v' e' in (v'', e'', R-trans v v' v'' r r');
  }

  pub Kept-mark_absent :
      (is_present : String → Bool) (miss : V → V) (m : OrderedMap V)
      → ((v : V) → R v v)
      → ((v : V) → R v (miss v))
      → Kept m (mark_absent is_present miss m)
  Kept-mark_absent is_present miss m R-refl grows = record {
    at = λ k v e. (_, lookup-mark_absent is_present miss k m v e, either v (is_present k));
  }
    where
      either : (v : V) (b : Bool) → R v (if b then v else miss v)
      either v true = R-refl v
      either v false = grows v

  module _ {A : Type 0} (id : A → String) (fresh : String → V) (step : A → V → V) where
    pub Kept-fold :
        ((v : V) → R v v)
        → ((u v w : V) → R u v → R v w → R u w)
        → ((x : A) (v : V) → R v (step x v))
        → (xs : List A) (m : OrderedMap V) → Kept m (fold id fresh step xs m)
    unfolding fold
    Kept-fold R-refl R-trans grows [] m = record { at = λ k v e. (v, e, R-refl v) }
    Kept-fold R-refl R-trans grows (x ∷ xs) m =
        Kept-trans R-trans
          (Kept-insert (id x) _ m
            (λ v e.
              subst (λ u. R v (step x u)) (sym (entry-some (fresh (id x)) (id x) m v e))
                (grows x v))
            R-refl)
          (Kept-fold R-refl R-trans grows xs _)

some_inj : {V : Type 0} {v w : V} → some v ≡ some w → v ≡ w
some_inj e = cc

-- What holds of the entries that the snapshot has written, and of those that it omits.
module _ {V : Type 0} (S : Bool → V → Type 0) where
  pub AreMarked : (String → Bool) → OrderedMap V → Type 0
  AreMarked is_present m =
      (k : String) (v : V) → OrderedMap.lookup k m ≡ some v → S (is_present k) v

  pub AreMarked-mark_absent :
      (is_present : String → Bool) (miss : V → V) (m : OrderedMap V)
      → ((v : V) → S false (miss v))
      → ((k : String) (v : V) → is_present k ≡ true → OrderedMap.lookup k m ≡ some v → S true v)
      → AreMarked is_present (mark_absent is_present miss m)
  unfolding AreMarked
  AreMarked-mark_absent is_present miss m missed written k v e =
      elim (Option-cases (OrderedMap.lookup k m)) [
        | inl n ↦ absurd (apart (sym (lookup-mark_absent-none is_present miss k m n) ∙ e))
        | inr (w, n) ↦
            subst (S (is_present k))
              (some_inj (sym (lookup-mark_absent is_present miss k m w n) ∙ e))
              (either w n (is_present k) refl)
      ]
    where
      apart : ¬ (none ≡ some v)
      apart n = cc

      either :
          (w : V)
          → OrderedMap.lookup k m ≡ some w
          → (b : Bool) → is_present k ≡ b
          → S b (if b then w else miss w)
      either w n true h = written k w h n
      either w n false h = missed w

  module _ {A : Type 0} (id : A → String) (fresh : String → V) (step : A → V → V)
      (writes : (x : A) (v : V) → S true (step x v)) where
    stays_written :
        (xs : List A) (k : String) (m : OrderedMap V)
        → ((v : V) → OrderedMap.lookup k m ≡ some v → S true v)
        → (v : V) → OrderedMap.lookup k (fold id fresh step xs m) ≡ some v
        → S true v
    unfolding fold
    stays_written [] k m h v e = h v e
    stays_written (x ∷ xs) k m h v e =
        stays_written xs k (OrderedMap.insert (id x) (step x (entry (fresh (id x)) (id x) m)) m)
          (λ w n. elim (Bool-cases (str_eq (id x) k)) [
            | inl this ↦
                subst (S true)
                  (some_inj (
                    sym
                      (lookup-insert_this (id x) k (step x (entry (fresh (id x)) (id x) m)) m this)
                    ∙ n))
                  (writes x (entry (fresh (id x)) (id x) m))
            | inr that ↦ h w (
                sym (lookup-insert_that (id x) k (step x (entry (fresh (id x)) (id x) m)) m that)
                ∙ n)
          ])
          v e

    pub written-fold :
        (xs : List A) (k : String) (m : OrderedMap V) (v : V)
        → holds id xs k ≡ true
        → OrderedMap.lookup k (fold id fresh step xs m) ≡ some v
        → S true v
    unfolding fold
    written-fold [] k m v h e = absurd (never h)
      where
        never : ¬ (false ≡ true)
        never n = cc
    written-fold (x ∷ xs) k m v h e = elim (Bool-cases (str_eq (id x) k)) [
      | inl this ↦
          stays_written xs k _
            (λ w n.
              subst (S true) (some_inj (sym (lookup-insert_this (id x) k _ m this) ∙ n))
                (writes x _))
            v e
      | inr that ↦ written-fold xs k _ v (rw that at h) e
    ]

module _ {A V : Type 0} (id : A → String) (fresh : String → V) (step : A → V → V) where
  stays_entered :
      (xs : List A) (k : String) (m : OrderedMap V) (v : V)
      → OrderedMap.lookup k m ≡ some v
      → (w : V) × (OrderedMap.lookup k (fold id fresh step xs m) ≡ some w)
  stays_entered xs k m v e =
      let (w, f, _) =
        (Kept-fold (λ a b. Unit {0}) id fresh step (λ a. tt) (λ a b c r r'. tt) (λ x a. tt) xs m).at
          k v e in
      (w, f)

  entered-fold :
      (xs : List A) (k : String) (m : OrderedMap V)
      → holds id xs k ≡ true
      → (v : V) × (OrderedMap.lookup k (fold id fresh step xs m) ≡ some v)
  unfolding fold
  entered-fold [] k m h = absurd (never h)
    where
      never : ¬ (false ≡ true)
      never n = cc
  entered-fold (x ∷ xs) k m h = elim (Bool-cases (str_eq (id x) k)) [
    | inl this ↦
        stays_entered xs k (OrderedMap.insert (id x) (step x (entry (fresh (id x)) (id x) m)) m)
          (step x (entry (fresh (id x)) (id x) m))
          (lookup-insert_this (id x) k (step x (entry (fresh (id x)) (id x) m)) m this)
    | inr that ↦
        entered-fold xs k (OrderedMap.insert (id x) (step x (entry (fresh (id x)) (id x) m)) m)
          (rw that at h)
  ]

  pub entered-mark_absent :
      (is_present : String → Bool) (miss : V → V) (xs : List A) (k : String) (m : OrderedMap V)
      → holds id xs k ≡ true
      → (v : V) × (OrderedMap.lookup k (mark_absent is_present miss (fold id fresh step xs m))
          ≡ some v)
  entered-mark_absent is_present miss xs k m h =
      let (v, e) = entered-fold xs k m h in
      (
        if is_present k then v else miss v,
        lookup-mark_absent is_present miss k (fold id fresh step xs m) v e,
      )
