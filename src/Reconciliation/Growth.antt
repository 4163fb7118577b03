-- ===== src/Reconciliation/Growth.antt =====
-- How one history grows under `record_present` and `missing_observation` of
-- crates/chatgpt-archive/src/reconciliation/core.rs, and what its last observation says.
pub mod Snapshots
pub mod Archives
use ratatoskr_chatgpt.Prelude.{
  append_assoc, any, str_eq, not, if◌then◌else◌, ◌≡◌, refl, sym, ap, ◌∙◌, String, Bool, true, false,
  Option, none, some, List, [], ◌∷◌, ◌++◌,
}
use ratatoskr_chatgpt.Reconciliation.Model.{
  ParsedConversation, ParsedProject, ParsedCanvasDocument, ParsedAsset, ArchiveSnapshot, Digests,
  ObservationState, present, missing_from_latest_snapshot, Observation, History,
  ConversationHistory, ProjectHistory, RevisionStatistics,
}
use ratatoskr_chatgpt.Reconciliation.OrderedMap
use ratatoskr_chatgpt.Reconciliation.OrderedMap.{OrderedMap}
use ratatoskr_chatgpt.Reconciliation.Observe.{
  Display, record_present, record_missing, missing_observation, new_history, entry, mark_absent,
  observe_one, observe_canvas, observe_assets, observe_project, new_project_history,
  observe_projects, miss_project,
}
use ratatoskr_chatgpt.Reconciliation.Conversations.{
  Orphans, observe_conversation, new_conversation_history, observe_conversations,
}
use ratatoskr_chatgpt.Reconciliation.Core.{
  Evidence, miss_conversation, holds, observe_snapshot, observe_all,
}
use ratatoskr_chatgpt.Reconciliation.Fold.{
  fold, Kept, Kept-trans, Kept-mark_absent, Kept-fold, AreMarked, AreMarked-mark_absent,
  written-fold,
}

-- The revisions and the observations of one history are the first ones of another.
pub record Extends (h h' : History) : Type 0 where
  pub revisions : (more : List String) × (h'.revisions ≡ h.revisions ++ more)
  pub observations : (more : List Observation) × (h'.observations ≡ h.observations ++ more)

append_nil : {A : Type 0} (xs : List A) → xs ≡ xs ++ []
append_nil [] = refl
append_nil (x ∷ xs) = ap (λ l. x ∷ l) (append_nil xs)

pub Extends-refl : (h : History) → Extends h h
Extends-refl h = record {
  revisions = ([], append_nil h.revisions);
  observations = ([], append_nil h.observations);
}

prefix_trans :
    {A : Type 0} (xs ys zs : List A)
    → ((more : List A) × (ys ≡ xs ++ more))
    → ((more : List A) × (zs ≡ ys ++ more))
    → (more : List A) × (zs ≡ xs ++ more)
prefix_trans xs ys zs (m, e) (n, f) = (m ++ n, f ∙ ap (λ l. l ++ n) e ∙ append_assoc xs m n)

pub Extends-trans : (a b c : History) → Extends a b → Extends b c → Extends a c
Extends-trans a b c f g = record {
  revisions = prefix_trans a.revisions b.revisions c.revisions f.revisions g.revisions;
  observations =
      prefix_trans a.observations b.observations c.observations f.observations g.observations;
}

pub Extends-record_present :
    (h : History) (archive_id digest : String) (orphaned : Bool)
    → Extends h (record_present h archive_id digest orphaned).0
unfolding record_present
Extends-record_present h archive_id digest orphaned = record {
  revisions = either (any (str_eq digest) h.revisions);
  observations = (_, refl);
}
  where
    either :
        (b : Bool)
        → (more : List String) × ((if not b then h.revisions ++ digest ∷ [] else h.revisions)
            ≡ h.revisions ++ more)
    either true = ([], append_nil h.revisions)
    either false = (digest ∷ [], refl)

pub Extends-record_missing :
    (archive_id : String) (h : History) → Extends h (record_missing archive_id h)
unfolding record_missing
Extends-record_missing archive_id h = record {
  revisions = ([], append_nil h.revisions);
  observations = (_, refl);
}

-- What the last observation of a history says.
pub record IsLatest (archive_id : String) (state : ObservationState) (h : History) : Type 0 where
  pub earlier : List Observation
  pub last : Observation
  pub at : h.observations ≡ earlier ++ last ∷ []
  pub of : last.archive_id ≡ archive_id
  pub found : last.state ≡ state

unfoldable pub state_of : Bool → ObservationState
state_of true = present
state_of false = missing_from_latest_snapshot

pub IsLatest-record_present :
    (h : History) (archive_id digest : String) (orphaned : Bool)
    → IsLatest archive_id present (record_present h archive_id digest orphaned).0
unfolding record_present
IsLatest-record_present h archive_id digest orphaned = record {
  earlier = h.observations;
  last = _;
  at = refl;
  of = refl;
  found = refl;
}

pub IsLatest-record_missing :
    (h : History) (archive_id : String)
    → IsLatest archive_id missing_from_latest_snapshot (record_missing archive_id h)
unfolding record_missing
IsLatest-record_missing h archive_id = record {
  earlier = h.observations;
  last = _;
  at = refl;
  of = refl;
  found = refl;
}
