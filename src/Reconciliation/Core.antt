-- ===== src/Reconciliation/Core.antt =====
-- `reconcile` of crates/chatgpt-archive/src/reconciliation/core.rs: the snapshots in order, each
-- observed into the histories that the ones before it left.
pub mod Chains
use ratatoskr_chatgpt.Prelude.{
  ℕ, ◌+◌, String, Bool, List, [], ◌∷◌, ◌++◌, if◌then◌else◌, str_eq, any, length,
}
use ratatoskr_chatgpt.Reconciliation.Model.{
  ArchiveSnapshot, Digests, History, ConversationHistory, ProjectHistory, ArchiveCompletenessReport,
  CumulativeCompletenessReport,
}
use ratatoskr_chatgpt.Reconciliation.OrderedMap
use ratatoskr_chatgpt.Reconciliation.OrderedMap.{OrderedMap}
use ratatoskr_chatgpt.Reconciliation.Observe.{
  Display, record_missing, mark_absent, observe_canvas, observe_assets, observe_projects,
  miss_project,
}
use ratatoskr_chatgpt.Reconciliation.Conversations.{no_statistics, observe_conversations}
use ratatoskr_chatgpt.Reconciliation.Graph.{graph_evidence}
use ratatoskr_chatgpt.Reconciliation.Report.{archive_report, cumulative_report}

pub record ReconciliationResult : Type 0 where
  pub conversations : List ConversationHistory
  pub projects : List ProjectHistory
  pub canvas_documents : List History
  pub assets : List History
  pub archive_reports : List ArchiveCompletenessReport
  pub cumulative_report : CumulativeCompletenessReport

-- The variables of the loop over the snapshots.
pub record Evidence : Type 0 where
  pub histories : OrderedMap ConversationHistory
  pub projects : OrderedMap ProjectHistory
  pub canvas_documents : OrderedMap History
  pub assets : OrderedMap History
  pub archive_reports : List ArchiveCompletenessReport

abbrev pub no_evidence : Evidence
no_evidence = record {
  histories = [];
  projects = [];
  canvas_documents = [];
  assets = [];
  archive_reports = [];
}

-- A conversation that a snapshot omits; its messages are left alone.
unfoldable pub miss_conversation : String → ConversationHistory → ConversationHistory
unfolding record_missing
miss_conversation archive_id h = record h { history = record_missing archive_id h.history }

-- How many entries are not present.
unfoldable pub count_absent : {V : Type 0} → (String → Bool) → OrderedMap V → ℕ
count_absent is_present [] = 0
count_absent is_present ((k, v) ∷ m) = (if is_present k then 0 else 1) + count_absent is_present m

abbrev pub holds : {A : Type 0} → (A → String) → List A → String → Bool
holds id xs k = any (λ x. str_eq (id x) k) xs

-- The body of the loop, and `reconcile_additional_evidence` with it.
unfoldable pub observe_snapshot : Digests → Display → ArchiveSnapshot → Evidence → Evidence
unfolding graph_evidence observe_conversations mark_absent count_absent miss_conversation
    observe_projects miss_project observe_canvas observe_assets record_missing archive_report
observe_snapshot ds display s e =
    let graph = graph_evidence p.conversations in
    let (m, stats) = observe_conversations ds s.archive_id graph.orphaned_messages p.conversations (
      e.histories,
      record no_statistics { present_conversation_observations = length p.conversations },
    ) in
    let is_present = holds (λ c. c.external_id) p.conversations in
    record {
      histories = mark_absent is_present (miss_conversation s.archive_id) m;
      projects =
          mark_absent (holds (λ r. r.external_id) p.projects) (miss_project s.archive_id)
            (observe_projects ds display s.archive_id p.projects e.projects);
      canvas_documents =
          mark_absent (holds (λ d. d.external_id) p.canvas_documents) (record_missing s.archive_id)
            (observe_canvas ds s.archive_id p.canvas_documents e.canvas_documents);
      assets =
          mark_absent (holds (λ a. a.external_id) p.assets) (record_missing s.archive_id)
            (observe_assets ds s.archive_id p.assets e.assets);
      archive_reports =
          e.archive_reports
          ++ archive_report s graph.warnings (record stats {
            missing_conversation_observations =
                stats.missing_conversation_observations + count_absent is_present m;
          })
            ∷ [];
    }
  where
    open s use {parsed as p}

unfoldable pub observe_all : Digests → Display → List ArchiveSnapshot → Evidence → Evidence
unfolding observe_snapshot
observe_all ds display [] e = e
observe_all ds display (s ∷ ss) e = observe_all ds display ss (observe_snapshot ds display s e)

unfoldable pub reconcile : Digests → Display → List ArchiveSnapshot → ReconciliationResult
unfolding observe_all OrderedMap.values cumulative_report
reconcile ds display snapshots =
    let e = observe_all ds display snapshots no_evidence in
    let conversations = OrderedMap.values e.histories in
    let projects = OrderedMap.values e.projects in
    let canvas_documents = OrderedMap.values e.canvas_documents in
    let assets = OrderedMap.values e.assets in
    record {
      conversations = conversations;
      projects = projects;
      canvas_documents = canvas_documents;
      assets = assets;
      archive_reports = e.archive_reports;
      cumulative_report =
          cumulative_report conversations projects canvas_documents assets e.archive_reports;
    }
