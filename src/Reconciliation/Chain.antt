-- ===== src/Reconciliation/Chain.antt =====
-- The chain of revisions of one identity, under `record_present` and `missing_observation` of
-- crates/chatgpt-archive/src/reconciliation/core.rs.
use ratatoskr_chatgpt.Prelude.{
  ◌≡◌, refl, Bool, true, false, Option, none, some, String, List, [], ◌∷◌, ◌++◌, arith, ◌∙◌, str_eq,
  str_eq_iff, any, All, All-append, Apart, Apart-append, Bool-cases, inl, inr,
}
use ratatoskr_chatgpt.Reconciliation.Model.{
  ObservationState, present, missing_from_latest_snapshot, Observation, History,
}
use ratatoskr_chatgpt.Reconciliation.Observe.{
  record_present, record_missing, missing_observation, new_history,
}

abbrev pub points_at : ObservationState → Option String → List String → Bool
points_at present (some digest) revisions = any (str_eq digest) revisions
points_at missing_from_latest_snapshot none revisions = true
points_at _ _ revisions = false

abbrev pub names : String → Option String → Bool
names digest none = false
names digest (some d) = str_eq d digest

-- No revision stands twice; an observation that found the identity names one of the revisions, one
-- that missed it names none; and every revision is named by an observation.
pub record IsChain (h : History) : Type 0 where
  pub distinct : Apart str_eq h.revisions
  pub pointing : All (λ o. points_at o.state o.revision_digest h.revisions ≡ true) h.observations
  pub witnessed : All (λ d. any (λ o. names d o.revision_digest) h.observations ≡ true) h.revisions

str_eq_symm : (a b : String) → str_eq a b ≡ str_eq b a
str_eq_symm a b = ground (arith, str_eq_iff a b, str_eq_iff b a)

str_eq_self : (a : String) → str_eq a a ≡ true
str_eq_self a = (str_eq_iff a a).1 refl

module _ {A : Type 0} (p : A → Bool) where
  pub any-append_left : (xs ys : List A) → any p xs ≡ true → any p (xs ++ ys) ≡ true
  any-append_left [] ys h = cc
  any-append_left (x ∷ xs) ys h = ground (arith, any-append_left xs ys)

  pub any-append_right : (xs ys : List A) → any p ys ≡ true → any p (xs ++ ys) ≡ true
  any-append_right [] ys h = h
  any-append_right (x ∷ xs) ys h = ground (arith, any-append_right xs ys h)

module _ {A : Type 0} (P Q : A → Type 0) (f : (a : A) → P a → Q a) where
  pub All-imp : (xs : List A) → All P xs → All Q xs
  All-imp [] h = tt
  All-imp (x ∷ xs) h = (f x h.0, All-imp xs h.1)

pub IsChain-new_history : (id : String) → IsChain (new_history id)
IsChain-new_history id = record { distinct = tt; pointing = tt; witnessed = tt }

points_at-append :
    (s : ObservationState) (d : Option String) (revisions more : List String)
    → points_at s d revisions ≡ true
    → points_at s d (revisions ++ more) ≡ true
points_at-append present (some d) revisions more h = any-append_left (str_eq d) revisions more h
points_at-append present none revisions more h = cc
points_at-append missing_from_latest_snapshot none revisions more h = refl
points_at-append missing_from_latest_snapshot (some d) revisions more h = cc

module _ (h : History) (chain : IsChain h) where
  witnessed_after :
      (os : List Observation)
      → All (λ d. any (λ o. names d o.revision_digest) (h.observations ++ os) ≡ true) h.revisions
  witnessed_after os =
      All-imp _ _ (λ d w. any-append_left (λ o. names d o.revision_digest) h.observations os w)
        h.revisions chain.witnessed

  pub IsChain-record_missing : (archive_id : String) → IsChain (record_missing archive_id h)
  unfolding record_missing
  IsChain-record_missing archive_id = record {
    distinct = chain.distinct;
    pointing =
        All-append _ h.observations (missing_observation archive_id ∷ []) chain.pointing (refl, tt);
    witnessed = witnessed_after (missing_observation archive_id ∷ []);
  }

  -- The two cases of `record_present`: the revision is known, or it is new.
  module _ (archive_id digest : String) (orphaned : Bool) where
    abbrev seen : Observation
    seen = record {
      archive_id = archive_id;
      state = present;
      revision_digest = some digest;
      orphaned = orphaned;
    }

    IsChain-known :
        any (str_eq digest) h.revisions ≡ true
        → IsChain (record h { observations = h.observations ++ seen ∷ [] })
    IsChain-known known = record {
      distinct = chain.distinct;
      pointing = All-append _ h.observations (seen ∷ []) chain.pointing (known, tt);
      witnessed = witnessed_after (seen ∷ []);
    }

    any-flip : (xs : List String) → any (λ x. str_eq x digest) xs ≡ any (str_eq digest) xs
    any-flip [] = refl
    any-flip (x ∷ xs) = rw (str_eq_symm x digest, any-flip xs)

    IsChain-created :
        any (str_eq digest) h.revisions ≡ false
        → IsChain (record h {
          revisions = h.revisions ++ digest ∷ [];
          observations = h.observations ++ seen ∷ [];
        })
    IsChain-created new = record {
      distinct =
          Apart-append str_eq str_eq_symm h.revisions digest chain.distinct
            (any-flip h.revisions ∙ new);
      pointing =
          All-append _ h.observations (seen ∷ [])
            (All-imp _ _
              (λ o p. points_at-append o.state o.revision_digest h.revisions (digest ∷ []) p)
              h.observations chain.pointing)
            (
              any-append_right (str_eq digest) h.revisions (digest ∷ []) (rw (str_eq_self digest)),
              tt,
            );
      witnessed = All-append _ h.revisions (digest ∷ []) (witnessed_after (seen ∷ [])) (
        any-append_right (λ o. names digest o.revision_digest) h.observations (seen ∷ [])
            (rw (str_eq_self digest)),
        tt,
      );
    }

    pub IsChain-record_present : IsChain (record_present h archive_id digest orphaned).0
    unfolding record_present
    IsChain-record_present = elim (Bool-cases (any (str_eq digest) h.revisions)) [
      | inl known ↦ rw known (IsChain-known known)
      | inr new ↦ rw new (IsChain-created new)
    ]
