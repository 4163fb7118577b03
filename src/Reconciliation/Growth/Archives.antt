-- ===== src/Reconciliation/Growth/Archives.antt =====
-- The maps of histories before and after the loop of `reconcile` of
-- crates/chatgpt-archive/src/reconciliation/core.rs over the snapshots.
use ratatoskr_chatgpt.Prelude.{List, [], ◌∷◌}
use ratatoskr_chatgpt.Reconciliation.Model.{ArchiveSnapshot, Digests, History}
use ratatoskr_chatgpt.Reconciliation.OrderedMap.{OrderedMap}
use ratatoskr_chatgpt.Reconciliation.Observe.{Display}
use ratatoskr_chatgpt.Reconciliation.Core.{Evidence, observe_snapshot, observe_all}
use ratatoskr_chatgpt.Reconciliation.Fold.{Kept, Kept-trans}
use ratatoskr_chatgpt.Reconciliation.Growth.{Extends, Extends-refl, Extends-trans}
use ratatoskr_chatgpt.Reconciliation.Growth.Snapshots.{observe_snapshot-IsObserved}

-- Every history is there still, and its revisions and observations are the first ones.
abbrev pub AreKept : {V : Type 0} → (V → History) → OrderedMap V → OrderedMap V → Type 0
AreKept of m m' = Kept (λ v w. Extends (of v) (of w)) m m'

pub record IsGrown (e e' : Evidence) : Type 0 where
  pub histories : AreKept (λ h. h.history) e.histories e'.histories
  pub projects : AreKept (λ h. h.history) e.projects e'.projects
  pub canvas_documents : AreKept (λ h. h) e.canvas_documents e'.canvas_documents
  pub assets : AreKept (λ h. h) e.assets e'.assets

module _ {V : Type 0} (of : V → History) where
  same_map : (m : OrderedMap V) → AreKept of m m
  same_map m = record { at = λ k v found. (v, found, Extends-refl (of v)) }

  then_map : {l m n : OrderedMap V} → AreKept of l m → AreKept of m n → AreKept of l n
  then_map f g =
      Kept-trans (λ v w. Extends (of v) (of w)) (λ u v w. Extends-trans (of u) (of v) (of w)) f g

module _ (ds : Digests) (display : Display) where
  -- Whatever further snapshots are observed, every history of a conversation, a project, a Canvas
  -- document or an asset that was there is there still, under its identity, and holds its revisions
  -- and its observations as the first ones, in their order.
  pub observe_all-IsGrown :
      (ss : List ArchiveSnapshot) (e : Evidence) → IsGrown e (observe_all ds display ss e)
  unfolding observe_all
  observe_all-IsGrown [] e = record {
    histories = same_map (λ h. h.history) e.histories;
    projects = same_map (λ h. h.history) e.projects;
    canvas_documents = same_map (λ h. h) e.canvas_documents;
    assets = same_map (λ h. h) e.assets;
  }
  observe_all-IsGrown (s ∷ ss) e =
      let first = observe_snapshot-IsObserved ds display s e in
      let rest = observe_all-IsGrown ss (observe_snapshot ds display s e) in
      record {
        histories = then_map (λ h. h.history) first.histories.kept rest.histories;
        projects = then_map (λ h. h.history) first.projects.kept rest.projects;
        canvas_documents = then_map (λ h. h) first.canvas_documents.kept rest.canvas_documents;
        assets = then_map (λ h. h) first.assets.kept rest.assets;
      }
