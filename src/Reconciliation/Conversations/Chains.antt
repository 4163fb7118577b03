-- ===== src/Reconciliation/Conversations/Chains.antt =====
-- The chains of revisions under `observe_conversation` of
-- crates/chatgpt-archive/src/reconciliation/core.rs.
use ratatoskr_chatgpt.Prelude.{String, false, List, [], ◌∷◌, All}
use ratatoskr_chatgpt.Reconciliation.Model.{
  ParsedMessage, ParsedConversation, Digests, History, ConversationHistory, RevisionStatistics,
}
use ratatoskr_chatgpt.Reconciliation.OrderedMap.{
  OrderedMap, AllValues, AllValues-insert, All-values,
}
use ratatoskr_chatgpt.Reconciliation.Observe.{new_history}
use ratatoskr_chatgpt.Reconciliation.Observe.Chains.{entry-All, by_id-IsChain}
use ratatoskr_chatgpt.Reconciliation.Chain.{IsChain, IsChain-new_history, IsChain-record_present}
use ratatoskr_chatgpt.Reconciliation.Conversations.{
  Orphans, is_orphan, observe_messages, observe_conversation, new_conversation_history,
  observe_conversations,
}

-- The history of a conversation and those of its messages.
pub record IsConversationChain (h : ConversationHistory) : Type 0 where
  pub own : IsChain h.history
  pub messages : All IsChain h.messages

module _ (ds : Digests) (archive_id : String) (orphans : Orphans) where
  observe_messages-IsChain :
      (conversation : String) (xs : List ParsedMessage) (m : OrderedMap History)
      (stats : RevisionStatistics)
      → AllValues IsChain m
      → AllValues IsChain (observe_messages ds archive_id orphans conversation xs (m, stats)).0
  unfolding observe_messages
  observe_messages-IsChain conversation [] m stats c = c
  observe_messages-IsChain conversation (msg ∷ xs) m stats c =
      observe_messages-IsChain conversation xs _ _ (
        AllValues-insert IsChain msg.external_id _ m
          (IsChain-record_present _
            (entry-All IsChain (new_history msg.external_id) msg.external_id m
              (IsChain-new_history msg.external_id) c)
            archive_id (ds.message_digest msg) (is_orphan orphans conversation msg.external_id))
          c)

  observe_conversation-IsChain :
      (conversation : ParsedConversation) (h : ConversationHistory)
      → IsConversationChain h
      → IsConversationChain (observe_conversation ds archive_id orphans conversation h).0
  unfolding observe_conversation
  observe_conversation-IsChain conversation h c = record {
    own =
        IsChain-record_present h.history c.own archive_id (ds.conversation_digest conversation)
          false;
    messages = All-values IsChain _ (
        observe_messages-IsChain conversation.external_id conversation.messages _ _
          (by_id-IsChain h.messages c.messages));
  }

  pub observe_conversations-IsChain :
      (xs : List ParsedConversation) (m : OrderedMap ConversationHistory)
      (stats : RevisionStatistics)
      → AllValues IsConversationChain m
      → AllValues IsConversationChain (observe_conversations ds archive_id orphans xs (m, stats)).0
  unfolding observe_conversations
  observe_conversations-IsChain [] m stats c = c
  observe_conversations-IsChain (p ∷ xs) m stats c = observe_conversations-IsChain xs _ _ (
      AllValues-insert IsConversationChain p.external_id _ m
        (observe_conversation-IsChain p _ (
          entry-All IsConversationChain (new_conversation_history p.external_id) p.external_id m
            (record { own = IsChain-new_history p.external_id; messages = tt }) c))
        c)
