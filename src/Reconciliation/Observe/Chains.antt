-- ===== src/Reconciliation/Observe/Chains.antt =====
-- The chains of revisions under `record_present`'s callers: `observe_projects`, `observe_canvas` and
-- `observe_assets` of crates/chatgpt-archive/src/reconciliation/core.rs.
use ratatoskr_chatgpt.Prelude.{
  String, Bool, true, false, List, [], ◌∷◌, if◌then◌else◌, All, Option-cases, inl, inr, map,
}
use ratatoskr_chatgpt.Reconciliation.Model.{
  ParsedInstruction, ParsedProject, ParsedCanvasDocument, ParsedAsset, Digests, History,
  ProjectHistory,
}
use ratatoskr_chatgpt.Reconciliation.OrderedMap
use ratatoskr_chatgpt.Reconciliation.OrderedMap.{
  OrderedMap, AllValues, AllValues-insert, AllValues-lookup, All-values,
}
use ratatoskr_chatgpt.Reconciliation.Observe.{
  Display, record_missing, new_history, entry, collect, by_id, mark_absent, observe_one,
  observe_canvas, observe_assets, observe_instructions, observe_project, new_project_history,
  observe_projects, miss_project,
}
use ratatoskr_chatgpt.Reconciliation.Chain.{
  IsChain, IsChain-new_history, IsChain-record_missing, IsChain-record_present,
}

module _ {V : Type 0} (P : V → Type 0) where
  pub entry-All :
      (fresh : V) (k : String) (m : OrderedMap V) → P fresh → AllValues P m → P (entry fresh k m)
  unfolding entry
  entry-All fresh k m p h = elim (Option-cases (OrderedMap.lookup k m)) [
    | inl e ↦ rw (e, entry) p
    | inr (v, e) ↦ rw (e, entry) (AllValues-lookup P k m v h e)
  ]

  pub AllValues-mark_absent :
      (is_present : String → Bool) (miss : V → V)
      → ((v : V) → P v → P (miss v))
      → (m : OrderedMap V) → AllValues P m
      → AllValues P (mark_absent is_present miss m)
  unfolding mark_absent
  AllValues-mark_absent is_present miss keeps [] h = tt
  AllValues-mark_absent is_present miss keeps ((k, v) ∷ m) h =
      (either (is_present k), AllValues-mark_absent is_present miss keeps m h.1)
    where
      either : (b : Bool) → P (if b then v else miss v)
      either true = h.0
      either false = keeps v h.0

collect-IsChain :
    (m : OrderedMap History) (hs : List History)
    → AllValues IsChain m
    → All IsChain hs
    → AllValues IsChain (collect m hs)
unfolding collect
collect-IsChain m [] c cs = c
collect-IsChain m (h ∷ hs) c cs =
    collect-IsChain (OrderedMap.insert h.external_id h m) hs
      (AllValues-insert IsChain h.external_id h m cs.0 c) cs.1

pub by_id-IsChain : (hs : List History) → All IsChain hs → AllValues IsChain (by_id hs)
unfolding by_id
by_id-IsChain hs cs = collect-IsChain [] hs tt cs

observe_one-IsChain :
    (archive_id external_id digest : String) (m : OrderedMap History)
    → AllValues IsChain m
    → AllValues IsChain (observe_one archive_id external_id digest m)
unfolding observe_one
observe_one-IsChain archive_id external_id digest m c =
    AllValues-insert IsChain external_id _ m
      (IsChain-record_present _
        (entry-All IsChain (new_history external_id) external_id m (IsChain-new_history external_id)
          c)
        archive_id digest false)
      c

module _ (ds : Digests) (archive_id : String) where
  pub observe_canvas-IsChain :
      (xs : List ParsedCanvasDocument) (m : OrderedMap History)
      → AllValues IsChain m
      → AllValues IsChain (observe_canvas ds archive_id xs m)
  unfolding observe_canvas
  observe_canvas-IsChain [] m c = c
  observe_canvas-IsChain (d ∷ xs) m c =
      observe_canvas-IsChain xs _ (observe_one-IsChain archive_id d.external_id _ m c)

  pub observe_assets-IsChain :
      (xs : List ParsedAsset) (m : OrderedMap History)
      → AllValues IsChain m
      → AllValues IsChain (observe_assets ds archive_id xs m)
  unfolding observe_assets
  observe_assets-IsChain [] m c = c
  observe_assets-IsChain (a ∷ xs) m c =
      observe_assets-IsChain xs _ (observe_one-IsChain archive_id a.external_id _ m c)

-- The history of a project and those of its instructions.
pub record IsProjectChain (h : ProjectHistory) : Type 0 where
  pub own : IsChain h.history
  pub instructions : All IsChain h.instructions

module _ (ds : Digests) (display : Display) (archive_id : String) where
  observe_instructions-IsChain :
      (project : ParsedProject) (xs : List ParsedInstruction) (m : OrderedMap History)
      → AllValues IsChain m
      → AllValues IsChain (observe_instructions ds display archive_id project xs m)
  unfolding observe_instructions
  observe_instructions-IsChain project [] m c = c
  observe_instructions-IsChain project (i ∷ xs) m c =
      observe_instructions-IsChain project xs _ (observe_one-IsChain archive_id _ _ m c)

  observe_project-IsChain :
      (project : ParsedProject) (h : ProjectHistory)
      → IsProjectChain h
      → IsProjectChain (observe_project ds display archive_id project h)
  unfolding observe_project
  observe_project-IsChain project h c = record {
    own = IsChain-record_present h.history c.own archive_id (ds.project_digest project) false;
    instructions = All-values IsChain _ (
        AllValues-mark_absent IsChain _ (record_missing archive_id)
          (λ v p. IsChain-record_missing v p archive_id) _
          (observe_instructions-IsChain project project.instructions _
            (by_id-IsChain h.instructions c.instructions)));
  }

  pub observe_projects-IsChain :
      (xs : List ParsedProject) (m : OrderedMap ProjectHistory)
      → AllValues IsProjectChain m
      → AllValues IsProjectChain (observe_projects ds display archive_id xs m)
  unfolding observe_projects
  observe_projects-IsChain [] m c = c
  observe_projects-IsChain (p ∷ xs) m c = observe_projects-IsChain xs _ (
      AllValues-insert IsProjectChain p.external_id _ m
        (observe_project-IsChain p _ (
          entry-All IsProjectChain (new_project_history p.external_id) p.external_id m
            (record { own = IsChain-new_history p.external_id; instructions = tt }) c))
        c)

map-IsChain :
    (archive_id : String) (hs : List History)
    → All IsChain hs
    → All IsChain (map (record_missing archive_id) hs)
map-IsChain archive_id [] cs = tt
map-IsChain archive_id (h ∷ hs) cs =
    (IsChain-record_missing h cs.0 archive_id, map-IsChain archive_id hs cs.1)

pub miss_project-IsChain :
    (archive_id : String) (h : ProjectHistory)
    → IsProjectChain h
    → IsProjectChain (miss_project archive_id h)
unfolding miss_project
miss_project-IsChain archive_id h c = record {
  own = IsChain-record_missing h.history c.own archive_id;
  instructions = map-IsChain archive_id h.instructions c.instructions;
}
