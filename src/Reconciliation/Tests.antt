-- ===== src/Reconciliation/Tests.antt =====
-- Reconciliation of two snapshots of one account: the second omits a conversation.
use ratatoskr_chatgpt.Json.{object, empty}
use ratatoskr_chatgpt.Prelude.{
  arith, ◌+◌, ◌≡◌, String, some, none, List, [], ◌∷◌, any, str_eq, length, if◌then◌else◌,
}
use ratatoskr_chatgpt.Reconciliation.Model.{
  ConversationHistory, user, missing, uploaded, ParsedMessage, ParsedConversation, ParsedAsset,
  ParsedConversations, ArchiveSnapshot, Digests, assets_missing,
}
use ratatoskr_chatgpt.Reconciliation.Observe.{Display}
use ratatoskr_chatgpt.Reconciliation.Conversations.{
  is_orphan, no_statistics, observe_conversation, new_conversation_history,
}
use ratatoskr_chatgpt.Reconciliation.Conversations.Statistics.{
  AreIdsApart, all_revisions, observe_conversation-counted,
}
use ratatoskr_chatgpt.Reconciliation.Graph.{graph_evidence}
use ratatoskr_chatgpt.Reconciliation.Graph.Dangling.{dangles, graph_evidence-is_orphan}
use ratatoskr_chatgpt.Reconciliation.Report.{archive_report, same_gap, gap_set}
use ratatoskr_chatgpt.Reconciliation.Report.Counts.{AreOrdered, gap_set-union}
use ratatoskr_chatgpt.Reconciliation.Core.{no_evidence, observe_snapshot, reconcile}
use ratatoskr_chatgpt.Reconciliation.Core.Chains.{HasChains, reconcile-HasChains}
use ratatoskr_chatgpt.Reconciliation.Core.{observe_all}
use ratatoskr_chatgpt.Reconciliation.Growth.Archives.{IsGrown, observe_all-IsGrown}
use ratatoskr_chatgpt.Reconciliation.Growth.Snapshots.{IsObserved, observe_snapshot-IsObserved}

abbrev digests : Digests
digests = record {
  conversation_digest = λ c. c.external_id;
  message_digest = λ m. m.external_id;
  project_digest = λ p. p.external_id;
  instruction_digest = λ i. "instruction";
  canvas_digest = λ d. d.external_id;
  asset_digest = λ a. a.external_id;
}

abbrev display : Display
display n = "0"

abbrev message : String → String → ParsedMessage
message id parent = record {
  external_id = id;
  parent_external_id = some parent;
  role = user;
  created_at_epoch_seconds = none;
  updated_at_epoch_seconds = none;
  model_slug = none;
  provider_metadata = object empty;
  parts = [];
}

abbrev talk : ParsedConversation
talk = record {
  external_id = "talk";
  title = none;
  created_at_epoch_seconds = none;
  updated_at_epoch_seconds = none;
  provider_metadata = object empty;
  messages = message "a" "b" ∷ message "b" "lost" ∷ [];
}

abbrev lost_asset : ParsedAsset
lost_asset = record {
  external_id = "asset";
  kind = uploaded;
  project_external_id = none;
  conversation_external_id = none;
  display_name = none;
  media_type = none;
  availability = missing;
  blob = none;
  anomaly = none;
  provider_metadata = object empty;
}

abbrev parsed : List ParsedConversation → ParsedConversations
parsed conversations = record {
  schema_id = "synthetic";
  parser_name = "parser";
  parser_version = "1";
  conversations = conversations;
  projects = [];
  canvas_documents = [];
  assets = lost_asset ∷ [];
  raw_records = [];
}

abbrev full : ArchiveSnapshot
full = record { archive_id = "first"; sequence = 1; parsed = parsed (talk ∷ []) }

abbrev bare : ArchiveSnapshot
bare = record { archive_id = "second"; sequence = 2; parsed = parsed [] }

reconcile-HasChains_example : HasChains (reconcile digests display (full ∷ bare ∷ []))
reconcile-HasChains_example = reconcile-HasChains digests display (full ∷ bare ∷ [])

observe_snapshot-IsObserved_example :
    IsObserved bare
      (observe_snapshot digests display full no_evidence)
      (observe_snapshot digests display bare (observe_snapshot digests display full no_evidence))
observe_snapshot-IsObserved_example =
    observe_snapshot-IsObserved digests display bare
      (observe_snapshot digests display full no_evidence)

graph_evidence-is_orphan_example :
    is_orphan (graph_evidence (talk ∷ [])).orphaned_messages "talk" "b"
    ≡ any (λ c. dangles "talk" "b" c c.messages) (talk ∷ [])
graph_evidence-is_orphan_example = graph_evidence-is_orphan (talk ∷ []) "talk" "b"

-- The conversation as a first observation left it.
abbrev talked : ConversationHistory
talked = (observe_conversation digests "first" [] talk (new_conversation_history "talk")).0

talked_apart : AreIdsApart talked.messages
unfolding observe_conversation
talked_apart = ground arith

observe_conversation-counted_example :
    ((observe_conversation digests "second" [] talk talked).1.new_revisions + all_revisions talked
      ≡ all_revisions (observe_conversation digests "second" [] talk talked).0)
    × ((observe_conversation digests "second" [] talk talked).1.new_revisions
          + (observe_conversation digests "second" [] talk talked).1.reused_revisions
        ≡ length talk.messages
          + (if any (str_eq (digests.conversation_digest talk)) talked.history.revisions
              then 0
              else 1))
observe_conversation-counted_example =
    observe_conversation-counted digests "second" [] talk talked talked_apart

gap_set-union_example :
    (any
        (same_gap assets_missing)
        (gap_set (archive_report full [] no_statistics ∷ archive_report bare [] no_statistics ∷ []))
      ≡ any
          (λ r. any (same_gap assets_missing) r.gaps)
          (archive_report full [] no_statistics ∷ archive_report bare [] no_statistics ∷ []))
    × AreOrdered
        (gap_set (archive_report full [] no_statistics ∷ archive_report bare [] no_statistics ∷ []))
gap_set-union_example =
    gap_set-union assets_missing
      (archive_report full [] no_statistics ∷ archive_report bare [] no_statistics ∷ [])

observe_all-IsGrown_example : IsGrown (observe_snapshot digests display full no_evidence) (
    observe_all digests display
      (bare ∷ full ∷ [])
      (observe_snapshot digests display full no_evidence))
observe_all-IsGrown_example =
    observe_all-IsGrown digests display (bare ∷ full ∷ [])
      (observe_snapshot digests display full no_evidence)
