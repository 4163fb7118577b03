-- ===== src/Reconciliation/Observe.antt =====
-- How one archive is recorded in the histories: `record_present` and the observers of
-- crates/chatgpt-archive/src/reconciliation/core.rs.
pub mod Chains
use Prim.Native.String.{◌++◌ as append}
use ratatoskr_chatgpt.Prelude.{
  ℕ, String, Bool, false, not, none, some, List, [], ◌∷◌, ◌++◌, map, if◌then◌else◌, str_eq, any,
}
use ratatoskr_chatgpt.Reconciliation.Model.{
  ParsedInstruction, ParsedProject, ParsedCanvasDocument, ParsedAsset, Digests, present,
  missing_from_latest_snapshot, Observation, History, ProjectHistory,
}
use ratatoskr_chatgpt.Reconciliation.OrderedMap
use ratatoskr_chatgpt.Reconciliation.OrderedMap.{OrderedMap}

-- `record_present`: the history after it, and whether the revision is new.
unfoldable pub record_present : History → String → String → Bool → History × Bool
record_present h archive_id digest orphaned =
    let created = not (any (str_eq digest) h.revisions) in
    (
      record h {
        revisions = if created then h.revisions ++ digest ∷ [] else h.revisions;
        observations =
            h.observations
            ++ record {
              archive_id = archive_id;
              state = present;
              revision_digest = some digest;
              orphaned = orphaned;
            }
              ∷ [];
      },
      created,
    )

abbrev pub missing_observation : String → Observation
missing_observation archive_id = record {
  archive_id = archive_id;
  state = missing_from_latest_snapshot;
  revision_digest = none;
  orphaned = false;
}

unfoldable pub record_missing : String → History → History
record_missing archive_id h = record h {
  observations = h.observations ++ missing_observation archive_id ∷ [];
}

abbrev pub new_history : String → History
new_history external_id = record { external_id = external_id; revisions = []; observations = [] }

-- `entry(external_id).or_insert_with(…)`
unfoldable pub entry : {V : Type 0} → V → String → OrderedMap V → V
entry fresh external_id m = elim (OrderedMap.lookup external_id m) [ none ↦ fresh | some v ↦ v ]

-- The values that were drained, keyed by their identity again: `collect`, where a later value takes
-- the place of an earlier one.
unfoldable pub collect : OrderedMap History → List History → OrderedMap History
collect m [] = m
collect m (h ∷ hs) = collect (OrderedMap.insert h.external_id h m) hs

unfoldable pub by_id : List History → OrderedMap History
unfolding collect
by_id hs = collect [] hs

-- The loop of `record_missing_projects` and its like over the entries that are not present.
unfoldable pub mark_absent : {V : Type 0} → (String → Bool) → (V → V) → OrderedMap V → OrderedMap V
mark_absent is_present miss [] = []
mark_absent is_present miss ((k, v) ∷ m) =
    (k, if is_present k then v else miss v) ∷ mark_absent is_present miss m

-- One record of a kind that has nothing below it: a Canvas document, an asset, an instruction.
unfoldable pub observe_one : String → String → String → OrderedMap History → OrderedMap History
unfolding record_present entry
observe_one archive_id external_id digest m =
    OrderedMap.insert external_id
      (record_present (entry (new_history external_id) external_id m) archive_id digest false).0 m

-- `observe_canvas`
unfoldable pub observe_canvas :
    Digests → String → List ParsedCanvasDocument → OrderedMap History → OrderedMap History
unfolding observe_one
observe_canvas ds archive_id [] m = m
observe_canvas ds archive_id (d ∷ rest) m =
    observe_canvas ds archive_id rest (observe_one archive_id d.external_id (ds.canvas_digest d) m)

-- `observe_assets`
unfoldable pub observe_assets :
    Digests → String → List ParsedAsset → OrderedMap History → OrderedMap History
unfolding observe_one
observe_assets ds archive_id [] m = m
observe_assets ds archive_id (a ∷ rest) m =
    observe_assets ds archive_id rest (observe_one archive_id a.external_id (ds.asset_digest a) m)

-- The display of a `usize`, which the standard library prints.
abbrev pub Display : Type 0
Display = ℕ → String

-- `instruction_external_id`
unfoldable pub instruction_external_id : Display → ParsedProject → ParsedInstruction → String
instruction_external_id display project i = elim i.external_id [
  | some external_id ↦ external_id
  | none ↦ append (append project.external_id ":") (display i.ordinal)
]

observe_instructions :
    Digests
    → Display
    → String
    → ParsedProject
    → List ParsedInstruction
    → OrderedMap History
    → OrderedMap History
unfolding observe_one instruction_external_id
observe_instructions ds display archive_id project [] m = m
observe_instructions ds display archive_id project (i ∷ rest) m =
    observe_instructions ds display archive_id project rest (
      observe_one archive_id (instruction_external_id display project i) (ds.instruction_digest i)
        m)

-- The body of the loop of `observe_projects`.
unfoldable pub observe_project :
    Digests → Display → String → ParsedProject → ProjectHistory → ProjectHistory
unfolding record_present observe_instructions by_id mark_absent record_missing
observe_project ds display archive_id project h = record {
  history = (record_present h.history archive_id (ds.project_digest project) false).0;
  instructions = OrderedMap.values (
      mark_absent
        (λ k. any (λ i. str_eq (instruction_external_id display project i) k) project.instructions)
        (record_missing archive_id)
        (observe_instructions ds display archive_id project project.instructions
          (by_id h.instructions)));
}

abbrev pub new_project_history : String → ProjectHistory
new_project_history external_id = record { history = new_history external_id; instructions = [] }

-- `observe_projects`
unfoldable pub observe_projects :
    Digests
    → Display
    → String
    → List ParsedProject
    → OrderedMap ProjectHistory
    → OrderedMap ProjectHistory
unfolding observe_project entry
observe_projects ds display archive_id [] m = m
observe_projects ds display archive_id (p ∷ rest) m = observe_projects ds display archive_id rest (
    OrderedMap.insert p.external_id
      (observe_project ds display archive_id p
        (entry (new_project_history p.external_id) p.external_id m))
      m)

-- `record_missing_projects`, for one project.
unfoldable pub miss_project : String → ProjectHistory → ProjectHistory
unfolding record_missing
miss_project archive_id h = record {
  history = record_missing archive_id h.history;
  instructions = map (record_missing archive_id) h.instructions;
}
