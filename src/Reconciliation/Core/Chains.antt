-- ===== src/Reconciliation/Core/Chains.antt =====
-- The chains of revisions under `reconcile` of crates/chatgpt-archive/src/reconciliation/core.rs.
use ratatoskr_chatgpt.Prelude.{List, [], ◌∷◌, All}
use ratatoskr_chatgpt.Reconciliation.Model.{ArchiveSnapshot, Digests}
use ratatoskr_chatgpt.Reconciliation.OrderedMap.{AllValues, All-values}
use ratatoskr_chatgpt.Reconciliation.Observe.{Display, record_missing, miss_project}
use ratatoskr_chatgpt.Reconciliation.Observe.Chains.{
  AllValues-mark_absent, observe_canvas-IsChain, observe_assets-IsChain, IsProjectChain,
  observe_projects-IsChain, miss_project-IsChain,
}
use ratatoskr_chatgpt.Reconciliation.Chain.{IsChain, IsChain-record_missing}
use ratatoskr_chatgpt.Reconciliation.Conversations.Chains.{
  IsConversationChain, observe_conversations-IsChain,
}
use ratatoskr_chatgpt.Reconciliation.Core.{
  Evidence, no_evidence, miss_conversation, observe_snapshot, observe_all, ReconciliationResult,
  reconcile,
}

record AreChains (e : Evidence) : Type 0 where
  histories : AllValues IsConversationChain e.histories
  projects : AllValues IsProjectChain e.projects
  canvas_documents : AllValues IsChain e.canvas_documents
  assets : AllValues IsChain e.assets

module _ (ds : Digests) (display : Display) where
  observe_snapshot-AreChains :
      (s : ArchiveSnapshot) (e : Evidence)
      → AreChains e
      → AreChains (observe_snapshot ds display s e)
  unfolding observe_snapshot miss_conversation
  observe_snapshot-AreChains s e c = record {
    histories =
        AllValues-mark_absent IsConversationChain _ (miss_conversation s.archive_id)
          (λ h p. record {
            own = IsChain-record_missing h.history p.own s.archive_id;
            messages = p.messages;
          })
          _
          (observe_conversations-IsChain ds s.archive_id _ s.parsed.conversations e.histories _
            c.histories);
    projects =
        AllValues-mark_absent IsProjectChain _ (miss_project s.archive_id)
          (λ h p. miss_project-IsChain s.archive_id h p) _
          (observe_projects-IsChain ds display s.archive_id s.parsed.projects e.projects
            c.projects);
    canvas_documents =
        AllValues-mark_absent IsChain _ (record_missing s.archive_id)
          (λ h p. IsChain-record_missing h p s.archive_id) _
          (observe_canvas-IsChain ds s.archive_id s.parsed.canvas_documents e.canvas_documents
            c.canvas_documents);
    assets =
        AllValues-mark_absent IsChain _ (record_missing s.archive_id)
          (λ h p. IsChain-record_missing h p s.archive_id) _
          (observe_assets-IsChain ds s.archive_id s.parsed.assets e.assets c.assets);
  }

  observe_all-AreChains :
      (ss : List ArchiveSnapshot) (e : Evidence)
      → AreChains e
      → AreChains (observe_all ds display ss e)
  unfolding observe_all
  observe_all-AreChains [] e c = c
  observe_all-AreChains (s ∷ ss) e c = observe_all-AreChains ss _ (observe_snapshot-AreChains s e c)

-- What a result shows of the chains.
pub record HasChains (r : ReconciliationResult) : Type 0 where
  pub conversations : All IsConversationChain r.conversations
  pub projects : All IsProjectChain r.projects
  pub canvas_documents : All IsChain r.canvas_documents
  pub assets : All IsChain r.assets

-- Whatever the snapshots, in every history that `reconcile` returns (of a conversation, a message, a
-- project, an instruction, a Canvas document, an asset) no revision digest stands twice, an
-- observation that found the identity names one of the revisions and one that missed it names none,
-- and every revision is named by an observation.
pub reconcile-HasChains :
    (ds : Digests) (display : Display) (snapshots : List ArchiveSnapshot)
    → HasChains (reconcile ds display snapshots)
unfolding reconcile
reconcile-HasChains ds display snapshots = record {
  conversations = All-values IsConversationChain _ all.histories;
  projects = All-values IsProjectChain _ all.projects;
  canvas_documents = All-values IsChain _ all.canvas_documents;
  assets = All-values IsChain _ all.assets;
}
  where
    all : AreChains (observe_all ds display snapshots no_evidence)
    all =
        observe_all-AreChains ds display snapshots no_evidence
          (record { histories = tt; projects = tt; canvas_documents = tt; assets = tt })
