-- ===== src/Reconciliation/Growth/Snapshots.antt =====
-- The maps of histories before and after one snapshot of `reconcile` of
-- crates/chatgpt-archive/src/reconciliation/core.rs.
use ratatoskr_chatgpt.Prelude.{some, ◌≡◌, refl, String, Bool, true, false, List, [], ◌∷◌}
use ratatoskr_chatgpt.Reconciliation.Model.{
  ParsedConversation, ParsedProject, ParsedCanvasDocument, ParsedAsset, ArchiveSnapshot, Digests,
  History, ConversationHistory, ProjectHistory, RevisionStatistics,
}
use ratatoskr_chatgpt.Reconciliation.OrderedMap
use ratatoskr_chatgpt.Reconciliation.OrderedMap.{OrderedMap}
use ratatoskr_chatgpt.Reconciliation.Observe.{
  Display, record_present, record_missing, new_history, mark_absent, observe_one, observe_canvas,
  observe_assets, observe_project, new_project_history, observe_projects, miss_project,
}
use ratatoskr_chatgpt.Reconciliation.Conversations.{
  Orphans, observe_conversation, new_conversation_history, observe_conversations,
}
use ratatoskr_chatgpt.Reconciliation.Core.{Evidence, miss_conversation, holds, observe_snapshot}
use ratatoskr_chatgpt.Reconciliation.Fold.{
  fold, Kept, Kept-trans, Kept-mark_absent, Kept-fold, AreMarked, AreMarked-mark_absent,
  written-fold, entered-mark_absent,
}
use ratatoskr_chatgpt.Reconciliation.Growth.{
  Extends, Extends-refl, Extends-trans, Extends-record_present, Extends-record_missing, IsLatest,
  state_of, IsLatest-record_present, IsLatest-record_missing,
}

-- A map after a snapshot: every history is there still and has grown, every record of the snapshot
-- has a history, and the last observation of each history is of this archive, with the state that
-- the snapshot gives it.
pub record Observed {V : Type 0} (of : V → History) (archive_id : String)
    (is_present : String → Bool) (m m' : OrderedMap V) : Type 0 where
  pub kept : Kept (λ v w. Extends (of v) (of w)) m m'
  pub marked : AreMarked (λ b v. IsLatest archive_id (state_of b) (of v)) is_present m'
  pub entered : (k : String) → is_present k ≡ true → (v : V) × (OrderedMap.lookup k m' ≡ some v)

module _ {A V : Type 0} (of : V → History) (id : A → String) (fresh : String → V) (step : A → V → V)
    (miss : V → V) (archive_id : String) (grows : (x : A) (v : V) → Extends (of v) (of (step x v)))
    (ages : (v : V) → Extends (of v) (of (miss v)))
    (writes : (x : A) (v : V) → IsLatest archive_id (state_of true) (of (step x v)))
    (misses : (v : V) → IsLatest archive_id (state_of false) (of (miss v))) where
  observed :
      (xs : List A) (m : OrderedMap V)
      → Observed of archive_id
          (holds id xs)
          m
          (mark_absent (holds id xs) miss (fold id fresh step xs m))
  observed xs m = record {
    kept =
        Kept-trans (λ v w. Extends (of v) (of w)) (λ u v w. Extends-trans (of u) (of v) (of w))
          (Kept-fold (λ v w. Extends (of v) (of w)) id fresh step (λ v. Extends-refl (of v))
            (λ u v w. Extends-trans (of u) (of v) (of w)) grows xs m)
          (Kept-mark_absent (λ v w. Extends (of v) (of w)) (holds id xs) miss
            (fold id fresh step xs m) (λ v. Extends-refl (of v)) ages);
    marked =
        AreMarked-mark_absent (λ b v. IsLatest archive_id (state_of b) (of v)) (holds id xs) miss
          (fold id fresh step xs m) misses
          (λ k v h e.
            written-fold (λ b v. IsLatest archive_id (state_of b) (of v)) id fresh step writes xs k
              m v h e);
    entered = λ k h. entered-mark_absent id fresh step (holds id xs) miss xs k m h;
  }

module _ (ds : Digests) (display : Display) (archive_id : String) where
  canvas-fold :
      (xs : List ParsedCanvasDocument) (m : OrderedMap History)
      → observe_canvas ds archive_id xs m
        ≡ fold
            (λ d. d.external_id)
            new_history
            (λ d h. (record_present h archive_id (ds.canvas_digest d) false).0)
            xs
            m
  unfolding observe_canvas fold observe_one
  canvas-fold [] m = refl
  canvas-fold (x ∷ xs) m = canvas-fold xs _

  assets-fold :
      (xs : List ParsedAsset) (m : OrderedMap History)
      → observe_assets ds archive_id xs m
        ≡ fold
            (λ a. a.external_id)
            new_history
            (λ a h. (record_present h archive_id (ds.asset_digest a) false).0)
            xs
            m
  unfolding observe_assets fold observe_one
  assets-fold [] m = refl
  assets-fold (x ∷ xs) m = assets-fold xs _

  projects-fold :
      (xs : List ParsedProject) (m : OrderedMap ProjectHistory)
      → observe_projects ds display archive_id xs m
        ≡ fold (λ p. p.external_id) new_project_history (observe_project ds display archive_id) xs m
  unfolding observe_projects fold
  projects-fold [] m = refl
  projects-fold (x ∷ xs) m = projects-fold xs _

  conversations-fold :
      (orphans : Orphans) (xs : List ParsedConversation) (m : OrderedMap ConversationHistory)
      (stats : RevisionStatistics)
      → (observe_conversations ds archive_id orphans xs (m, stats)).0
        ≡ fold
            (λ c. c.external_id)
            new_conversation_history
            (λ c h. (observe_conversation ds archive_id orphans c h).0)
            xs
            m
  unfolding observe_conversations fold
  conversations-fold orphans [] m stats = refl
  conversations-fold orphans (x ∷ xs) m stats = conversations-fold orphans xs _ _

  canvas-Observed :
      (xs : List ParsedCanvasDocument) (m : OrderedMap History)
      → Observed
          (λ h. h)
          archive_id
          (holds (λ d. d.external_id) xs)
          m
          (mark_absent
            (holds (λ d. d.external_id) xs)
            (record_missing archive_id)
            (observe_canvas ds archive_id xs m))
  unfolding state_of
  canvas-Observed xs m = rw (canvas-fold xs m) (
      observed (λ h. h) (λ d. d.external_id) new_history
        (λ d h. (record_present h archive_id (ds.canvas_digest d) false).0)
        (record_missing archive_id) archive_id
        (λ d h. Extends-record_present h archive_id (ds.canvas_digest d) false)
        (λ h. Extends-record_missing archive_id h)
        (λ d h. IsLatest-record_present h archive_id (ds.canvas_digest d) false)
        (λ h. IsLatest-record_missing h archive_id) xs m)

  assets-Observed :
      (xs : List ParsedAsset) (m : OrderedMap History)
      → Observed
          (λ h. h)
          archive_id
          (holds (λ a. a.external_id) xs)
          m
          (mark_absent
            (holds (λ a. a.external_id) xs)
            (record_missing archive_id)
            (observe_assets ds archive_id xs m))
  unfolding state_of
  assets-Observed xs m = rw (assets-fold xs m) (
      observed (λ h. h) (λ a. a.external_id) new_history
        (λ a h. (record_present h archive_id (ds.asset_digest a) false).0)
        (record_missing archive_id) archive_id
        (λ a h. Extends-record_present h archive_id (ds.asset_digest a) false)
        (λ h. Extends-record_missing archive_id h)
        (λ a h. IsLatest-record_present h archive_id (ds.asset_digest a) false)
        (λ h. IsLatest-record_missing h archive_id) xs m)

  projects-Observed :
      (xs : List ParsedProject) (m : OrderedMap ProjectHistory)
      → Observed
          (λ h. h.history)
          archive_id
          (holds (λ p. p.external_id) xs)
          m
          (mark_absent
            (holds (λ p. p.external_id) xs)
            (miss_project archive_id)
            (observe_projects ds display archive_id xs m))
  unfolding state_of miss_project observe_project
  projects-Observed xs m = rw (projects-fold xs m) (
      observed (λ h. h.history) (λ p. p.external_id) new_project_history
        (observe_project ds display archive_id) (miss_project archive_id) archive_id
        (λ p h. Extends-record_present h.history archive_id (ds.project_digest p) false)
        (λ h. Extends-record_missing archive_id h.history)
        (λ p h. IsLatest-record_present h.history archive_id (ds.project_digest p) false)
        (λ h. IsLatest-record_missing h.history archive_id) xs m)

  conversations-Observed :
      (orphans : Orphans) (xs : List ParsedConversation) (m : OrderedMap ConversationHistory)
      (stats : RevisionStatistics)
      → Observed
          (λ h. h.history)
          archive_id
          (holds (λ c. c.external_id) xs)
          m
          (mark_absent
            (holds (λ c. c.external_id) xs)
            (miss_conversation archive_id)
            (observe_conversations ds archive_id orphans xs (m, stats)).0)
  unfolding state_of miss_conversation observe_conversation
  conversations-Observed orphans xs m stats = rw (conversations-fold orphans xs m stats) (
      observed (λ h. h.history) (λ c. c.external_id) new_conversation_history
        (λ c h. (observe_conversation ds archive_id orphans c h).0) (miss_conversation archive_id)
        archive_id
        (λ c h. Extends-record_present h.history archive_id (ds.conversation_digest c) false)
        (λ h. Extends-record_missing archive_id h.history)
        (λ c h. IsLatest-record_present h.history archive_id (ds.conversation_digest c) false)
        (λ h. IsLatest-record_missing h.history archive_id) xs m)

-- The evidence after a snapshot.
pub record IsObserved (s : ArchiveSnapshot) (e e' : Evidence) : Type 0 where
  pub histories :
      Observed
        (λ h. h.history)
        s.archive_id
        (holds (λ c. c.external_id) s.parsed.conversations)
        e.histories
        e'.histories
  pub projects :
      Observed
        (λ h. h.history)
        s.archive_id
        (holds (λ p. p.external_id) s.parsed.projects)
        e.projects
        e'.projects
  pub canvas_documents :
      Observed
        (λ h. h)
        s.archive_id
        (holds (λ d. d.external_id) s.parsed.canvas_documents)
        e.canvas_documents
        e'.canvas_documents
  pub assets :
      Observed (λ h. h) s.archive_id (holds (λ a. a.external_id) s.parsed.assets) e.assets e'.assets

module _ (ds : Digests) (display : Display) where
  -- One snapshot, whatever the evidence before it, for the histories of conversations, projects,
  -- Canvas documents and assets: every history is there still and holds its earlier revisions and
  -- observations as the first ones, every record of the snapshot has a history, and the last observation of every identity is of this archive, as present exactly where the
  -- snapshot has a record of the identity and as missing where it has none.
  pub observe_snapshot-IsObserved :
      (s : ArchiveSnapshot) (e : Evidence) → IsObserved s e (observe_snapshot ds display s e)
  unfolding observe_snapshot miss_conversation miss_project observe_conversation observe_project
      state_of
  observe_snapshot-IsObserved s e = record {
    histories =
        conversations-Observed ds display s.archive_id _ s.parsed.conversations e.histories _;
    projects = projects-Observed ds display s.archive_id s.parsed.projects e.projects;
    canvas_documents =
        canvas-Observed ds display s.archive_id s.parsed.canvas_documents e.canvas_documents;
    assets = assets-Observed ds display s.archive_id s.parsed.assets e.assets;
  }
