-- ===== src/Reconciliation/Report.antt =====
-- The reports of crates/chatgpt-archive/src/reconciliation/core.rs: `archive_report` of one snapshot
-- and `cumulative_report` of all.
pub mod Counts
use Prim.Native.String.{◌++◌ as append}
use ratatoskr_chatgpt.Prelude.{
  ℕ, suc, ◌+◌, Bool, true, false, List, [], ◌∷◌, ◌++◌, if◌then◌else◌, length, ltb, ◌==◌,
}
use ratatoskr_chatgpt.Reconciliation.Model.{
  ParsedAsset, AssetAvailability, missing, quarantined, verified, ParsedConversations,
  ArchiveSnapshot, History, ConversationHistory, ProjectHistory, ReconciliationWarning, CoverageGap,
  project_relationships_unobserved, assets_unobserved, canvas_documents_unobserved, assets_missing,
  assets_quarantined, RevisionStatistics, structurally_partial, ArchiveCompletenessReport,
  CumulativeCompletenessReport,
}
use ratatoskr_chatgpt.Reconciliation.Conversations.{no_statistics, add_statistics}

unfoldable pub is_available : AssetAvailability → AssetAvailability → Bool
is_available missing missing = true
is_available quarantined quarantined = true
is_available verified verified = true
is_available _ _ = false

-- `filter(…).count()`
unfoldable pub count_assets : AssetAvailability → List ParsedAsset → ℕ
unfolding is_available
count_assets a [] = 0
count_assets a (x ∷ xs) =
    let rest = count_assets a xs in if is_available x.availability a then suc rest else rest

abbrev pub is_empty : {A : Type 0} → List A → Bool
is_empty [] = true
is_empty (x ∷ xs) = false

abbrev pub sum_of : {A : Type 0} → (A → ℕ) → List A → ℕ
sum_of f [] = 0
sum_of f (x ∷ xs) = f x + sum_of f xs

abbrev gap_if : Bool → CoverageGap → List CoverageGap → List CoverageGap
gap_if b g rest = if b then g ∷ rest else rest

-- The gaps, in the order in which they are pushed.
unfoldable pub archive_gaps : ParsedConversations → List CoverageGap
unfolding count_assets
archive_gaps p = gap_if (is_empty p.projects) project_relationships_unobserved (
    gap_if (is_empty p.canvas_documents) canvas_documents_unobserved (
      gap_if (is_empty p.assets) assets_unobserved (
        gap_if (ltb 0 (count_assets missing p.assets)) assets_missing
          (gap_if (ltb 0 (count_assets quarantined p.assets)) assets_quarantined []))))

unfoldable pub archive_report :
    ArchiveSnapshot → List ReconciliationWarning → RevisionStatistics → ArchiveCompletenessReport
unfolding count_assets archive_gaps
archive_report s warnings statistics = record {
  archive_id = s.archive_id;
  schema_id = p.schema_id;
  parser_id = append (append p.parser_name "@") p.parser_version;
  conversations_discovered = length p.conversations;
  messages_discovered = sum_of (λ c. length c.messages) p.conversations;
  projects_discovered = length p.projects;
  instructions_discovered = sum_of (λ r. length r.instructions) p.projects;
  canvas_documents_discovered = length p.canvas_documents;
  asset_references_discovered = length p.assets;
  verified_assets = count_assets verified p.assets;
  missing_assets = count_assets missing p.assets;
  quarantined_assets = count_assets quarantined p.assets;
  orphan_messages = length warnings;
  parse_warning_count = 0;
  warnings = warnings;
  gaps = archive_gaps p;
  revision_statistics = statistics;
  completeness = structurally_partial;
}
  where
    open s use {parsed as p}

unfoldable pub same_gap : CoverageGap → CoverageGap → Bool
same_gap project_relationships_unobserved project_relationships_unobserved = true
same_gap assets_unobserved assets_unobserved = true
same_gap canvas_documents_unobserved canvas_documents_unobserved = true
same_gap assets_missing assets_missing = true
same_gap assets_quarantined assets_quarantined = true
same_gap _ _ = false

-- The derived order, which is that of the declaration.
abbrev pub gap_rank : CoverageGap → ℕ
gap_rank project_relationships_unobserved = 0
gap_rank assets_unobserved = 1
gap_rank canvas_documents_unobserved = 2
gap_rank assets_missing = 3
gap_rank assets_quarantined = 4

-- `BTreeSet::insert`, on the members in their order.
unfoldable pub insert_gap : CoverageGap → List CoverageGap → List CoverageGap
insert_gap g [] = g ∷ []
insert_gap g (h ∷ set) =
    let rest = insert_gap g set in
    if ltb (gap_rank g) (gap_rank h)
    then g ∷ h ∷ set
    else if gap_rank g == gap_rank h
    then h ∷ set
    else h ∷ rest

-- `collect::<BTreeSet<_>>()`
unfoldable pub collect_gaps : List CoverageGap → List CoverageGap → List CoverageGap
unfolding insert_gap
collect_gaps [] set = set
collect_gaps (g ∷ gs) set = collect_gaps gs (insert_gap g set)

-- `flat_map(|report| report.gaps.iter().copied())`
unfoldable pub flat_gaps : List ArchiveCompletenessReport → List CoverageGap
flat_gaps [] = []
flat_gaps (r ∷ rs) = r.gaps ++ flat_gaps rs

unfoldable pub gap_set : List ArchiveCompletenessReport → List CoverageGap
unfolding collect_gaps flat_gaps
gap_set reports = collect_gaps (flat_gaps reports) []

unfoldable pub all_warnings : List ArchiveCompletenessReport → List ReconciliationWarning
all_warnings [] = []
all_warnings (r ∷ rs) = r.warnings ++ all_warnings rs

-- `fold(RevisionStatistics::default(), …)`
unfoldable pub total_statistics :
    RevisionStatistics → List ArchiveCompletenessReport → RevisionStatistics
unfolding add_statistics
total_statistics s [] = s
total_statistics s (r ∷ rs) = total_statistics (add_statistics s r.revision_statistics) rs

unfoldable pub cumulative_report :
    List ConversationHistory
    → List ProjectHistory
    → List History
    → List History
    → List ArchiveCompletenessReport
    → CumulativeCompletenessReport
unfolding gap_set all_warnings total_statistics
cumulative_report conversations projects canvas_documents assets reports = record {
  unique_conversations = length conversations;
  unique_messages = sum_of (λ c. length c.messages) conversations;
  unique_projects = length projects;
  unique_canvas_documents = length canvas_documents;
  unique_assets = length assets;
  conversation_revisions = sum_of (λ c. length c.revisions) conversations;
  message_revisions = sum_of (λ c. sum_of (λ m. length m.revisions) c.messages) conversations;
  project_revisions = sum_of (λ p. length p.revisions) projects;
  canvas_document_revisions = sum_of (λ d. length d.revisions) canvas_documents;
  asset_revisions = sum_of (λ a. length a.revisions) assets;
  warnings = all_warnings reports;
  parse_warning_count = sum_of (λ r. r.parse_warning_count) reports;
  gaps = gap_set reports;
  revision_statistics = total_statistics no_statistics reports;
  completeness = structurally_partial;
}
