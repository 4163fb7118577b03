-- ===== src/Reconciliation/Conversations.antt =====
-- `observe_conversation` and the statistics of crates/chatgpt-archive/src/reconciliation/core.rs.
pub mod Chains
pub mod Statistics
use ratatoskr_chatgpt.Prelude.{
  ◌+◌, String, Bool, true, false, List, [], ◌∷◌, if◌then◌else◌, str_eq, ◌&&◌, any,
}
use ratatoskr_chatgpt.Reconciliation.Model.{
  ParsedMessage, ParsedConversation, Digests, History, ConversationHistory, RevisionStatistics,
}
use ratatoskr_chatgpt.Reconciliation.OrderedMap
use ratatoskr_chatgpt.Reconciliation.OrderedMap.{OrderedMap}
use ratatoskr_chatgpt.Reconciliation.Observe.{record_present, new_history, entry, by_id}

abbrev pub no_statistics : RevisionStatistics
no_statistics = record {
  new_revisions = 0;
  reused_revisions = 0;
  present_conversation_observations = 0;
  missing_conversation_observations = 0;
}

unfoldable pub add_statistics : RevisionStatistics → RevisionStatistics → RevisionStatistics
add_statistics a b = record {
  new_revisions = a.new_revisions + b.new_revisions;
  reused_revisions = a.reused_revisions + b.reused_revisions;
  present_conversation_observations =
      a.present_conversation_observations + b.present_conversation_observations;
  missing_conversation_observations =
      a.missing_conversation_observations + b.missing_conversation_observations;
}

-- One more message revision, new or reused.
unfoldable pub count_message : Bool → RevisionStatistics → RevisionStatistics
count_message true s = record s { new_revisions = s.new_revisions + 1 }
count_message false s = record s { reused_revisions = s.reused_revisions + 1 }

-- The set of the orphans, as pairs of a conversation and a message.
abbrev pub Orphans : Type 0
Orphans = List (String × String)

unfoldable pub is_orphan : Orphans → String → String → Bool
is_orphan orphans conversation message =
    any (λ o. str_eq o.0 conversation && str_eq o.1 message) orphans

-- The loop over the messages of a conversation.
unfoldable pub observe_messages :
    Digests
    → String
    → Orphans
    → String
    → List ParsedMessage
    → OrderedMap History × RevisionStatistics
    → OrderedMap History × RevisionStatistics
unfolding record_present entry is_orphan count_message OrderedMap.insert
observe_messages ds archive_id orphans conversation [] st = st
observe_messages ds archive_id orphans conversation (msg ∷ rest) (m, stats) =
    let (h, created) =
      record_present (entry (new_history msg.external_id) msg.external_id m) archive_id
        (ds.message_digest msg) (is_orphan orphans conversation msg.external_id) in
    observe_messages ds archive_id orphans conversation rest
      (OrderedMap.insert msg.external_id h m, count_message created stats)

unfoldable pub observe_conversation :
    Digests
    → String
    → Orphans
    → ParsedConversation
    → ConversationHistory
    → ConversationHistory × RevisionStatistics
unfolding record_present by_id observe_messages OrderedMap.values
observe_conversation ds archive_id orphans conversation h =
    let (history, created) =
      record_present h.history archive_id (ds.conversation_digest conversation) false in
    let (m, stats) =
      observe_messages ds archive_id orphans conversation.external_id conversation.messages
        (by_id h.messages, record no_statistics { new_revisions = if created then 1 else 0 }) in
    (record { history = history; messages = OrderedMap.values m }, stats)

abbrev pub new_conversation_history : String → ConversationHistory
new_conversation_history external_id = record { history = new_history external_id; messages = [] }

-- The loop of `reconcile` over the conversations of a snapshot.
unfoldable pub observe_conversations :
    Digests
    → String
    → Orphans
    → List ParsedConversation
    → OrderedMap ConversationHistory × RevisionStatistics
    → OrderedMap ConversationHistory × RevisionStatistics
unfolding observe_conversation entry add_statistics OrderedMap.insert
observe_conversations ds archive_id orphans [] st = st
observe_conversations ds archive_id orphans (c ∷ rest) (m, stats) =
    let (h, added) =
      observe_conversation ds archive_id orphans c
        (entry (new_conversation_history c.external_id) c.external_id m) in
    observe_conversations ds archive_id orphans rest
      (OrderedMap.insert c.external_id h m, add_statistics stats added)
