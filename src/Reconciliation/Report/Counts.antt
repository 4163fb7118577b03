-- ===== src/Reconciliation/Report/Counts.antt =====
-- The gaps of the reports of crates/chatgpt-archive/src/reconciliation/core.rs.
use ratatoskr_chatgpt.Prelude.{
  zero, sym, inl, inr, Bool, ◌||◌, ◌<◌, ltb, ◌==◌, All, All-mono, any-append, Bool-cases, ℕ, suc,
  ◌≡◌, refl, ◌∙◌, ap, List, [], ◌∷◌, arith, any,
}
use ratatoskr_chatgpt.Reconciliation.Model.{
  CoverageGap, project_relationships_unobserved, assets_unobserved, canvas_documents_unobserved,
  assets_missing, assets_quarantined, ArchiveCompletenessReport,
}
use ratatoskr_chatgpt.Reconciliation.Report.{
  same_gap, gap_set, gap_rank, insert_gap, collect_gaps, flat_gaps,
}

gap_of : ℕ → CoverageGap
gap_of zero = project_relationships_unobserved
gap_of (suc zero) = assets_unobserved
gap_of (suc (suc zero)) = canvas_documents_unobserved
gap_of (suc (suc (suc zero))) = assets_missing
gap_of (suc (suc (suc (suc n)))) = assets_quarantined

gap_of-gap_rank : (g : CoverageGap) → gap_of (gap_rank g) ≡ g
unfolding gap_of
gap_of-gap_rank project_relationships_unobserved = refl
gap_of-gap_rank assets_unobserved = refl
gap_of-gap_rank canvas_documents_unobserved = refl
gap_of-gap_rank assets_missing = refl
gap_of-gap_rank assets_quarantined = refl

gap_rank-injective : (g h : CoverageGap) → gap_rank g ≡ gap_rank h → g ≡ h
gap_rank-injective g h e = sym (gap_of-gap_rank g) ∙ ap gap_of e ∙ gap_of-gap_rank h

any-insert_gap :
    (p : CoverageGap → Bool) (g : CoverageGap) (set : List CoverageGap)
    → any p (insert_gap g set) ≡ (p g || any p set)
unfolding insert_gap
any-insert_gap p g [] = refl
any-insert_gap p g (h ∷ set) = elim (Bool-cases (gap_rank g == gap_rank h)) [
  | inl k ↦ ground (arith, k, ap p (gap_rank-injective g h (ground (arith, k))))
  | inr k ↦ ground (arith, k, any-insert_gap p g set)
]

any-collect_gaps :
    (p : CoverageGap → Bool) (gs set : List CoverageGap)
    → any p (collect_gaps gs set) ≡ (any p gs || any p set)
unfolding collect_gaps
any-collect_gaps p [] set = refl
any-collect_gaps p (g ∷ gs) set =
    ground (arith, any-collect_gaps p gs (insert_gap g set), any-insert_gap p g set)

any-flat_gaps :
    (p : CoverageGap → Bool) (reports : List ArchiveCompletenessReport)
    → any p (flat_gaps reports) ≡ any (λ r. any p r.gaps) reports
unfolding flat_gaps
any-flat_gaps p [] = refl
any-flat_gaps p (r ∷ rs) = rw (any-append p r.gaps (flat_gaps rs), any-flat_gaps p rs) refl

-- Each gap is declared before those after it; so none stands twice.
abbrev pub AreOrdered : List CoverageGap → Type 0
AreOrdered [] = Unit
AreOrdered (g ∷ gs) = All (λ h. gap_rank g < gap_rank h) gs × AreOrdered gs

All-insert_gap :
    (P : CoverageGap → Type 0) (g : CoverageGap) (set : List CoverageGap)
    → P g
    → All P set
    → All P (insert_gap g set)
unfolding insert_gap
All-insert_gap P g [] p h = (p, tt)
All-insert_gap P g (x ∷ set) p h = elim (Bool-cases (ltb (gap_rank g) (gap_rank x))) [
  | inl k ↦ rw (k) (p, h)
  | inr k ↦ elim (Bool-cases (gap_rank g == gap_rank x)) [
    | inl e ↦ rw (k, e) h
    | inr e ↦ rw (k, e) (h.0, All-insert_gap P g set p h.1)
  ]
]

insert_gap-AreOrdered :
    (g : CoverageGap) (set : List CoverageGap) → AreOrdered set → AreOrdered (insert_gap g set)
unfolding insert_gap
insert_gap-AreOrdered g [] h = (tt, tt)
insert_gap-AreOrdered g (x ∷ set) h = elim (Bool-cases (ltb (gap_rank g) (gap_rank x))) [
  | inl k ↦ rw (k) ((ground (arith, k), All-mono (λ y below. ground (arith, k, below)) set h.0), h)
  | inr k ↦ elim (Bool-cases (gap_rank g == gap_rank x)) [
    | inl e ↦ rw (k, e) h
    | inr e ↦
        rw (k, e)
          (
            All-insert_gap (λ y. gap_rank x < gap_rank y) g set (ground (arith, k, e)) h.0,
            insert_gap-AreOrdered g set h.1,
          )
  ]
]

collect_gaps-AreOrdered :
    (gs set : List CoverageGap) → AreOrdered set → AreOrdered (collect_gaps gs set)
unfolding collect_gaps
collect_gaps-AreOrdered [] set h = h
collect_gaps-AreOrdered (g ∷ gs) set h =
    collect_gaps-AreOrdered gs (insert_gap g set) (insert_gap-AreOrdered g set h)

-- A gap is among the gaps of the cumulative report exactly where it is among those of some archive,
-- and they stand in the order of their declaration, none of them twice.
pub gap_set-union :
    (g : CoverageGap) (reports : List ArchiveCompletenessReport)
    → (any (same_gap g) (gap_set reports) ≡ any (λ r. any (same_gap g) r.gaps) reports)
      × AreOrdered (gap_set reports)
unfolding gap_set
gap_set-union g reports = (
  ground (
    arith,
    any-collect_gaps (same_gap g) (flat_gaps reports) [],
    any-flat_gaps (same_gap g) reports,
  ),
  collect_gaps-AreOrdered (flat_gaps reports) [] tt,
)
