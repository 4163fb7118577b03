-- ===== src/Reconciliation/Graph.antt =====
-- `graph_evidence` of crates/chatgpt-archive/src/reconciliation/core.rs: the messages whose parent
-- is not in their conversation.
pub mod Dangling
use Prim.Native.Nat.{Ordering}
use Prim.Native.String.{compare}
use ratatoskr_chatgpt.Prelude.{
  ℕ, String, Bool, true, false, Option, none, some, List, [], ◌∷◌, ◌++◌, ◌&&◌, ◌||◌, if◌then◌else◌,
  str_eq, any, ltb, ◌==◌,
}
use ratatoskr_chatgpt.Reconciliation.Model.{
  ParsedMessage, ParsedConversation, WarningCode, missing_parent, self_parent,
  cross_conversation_parent, ReconciliationWarning,
}
use ratatoskr_chatgpt.Reconciliation.Conversations.{Orphans}

-- `local_messages.contains(parent)`
unfoldable pub has_message : String → List ParsedMessage → Bool
has_message id ms = any (λ m. str_eq m.external_id id) ms

-- `all_messages.contains_key(parent)`
unfoldable pub known_message : String → List ParsedConversation → Bool
unfolding has_message
known_message id cs = any (λ c. has_message id c.messages) cs

-- What is wrong with the parent of a message, if anything is.
unfoldable pub parent_code :
    List ParsedConversation
    → ParsedConversation
    → ParsedMessage
    → Option String
    → Option WarningCode
unfolding has_message known_message
parent_code all c m none = none
parent_code all c m (some parent) =
    if str_eq parent m.external_id
    then some self_parent
    else if has_message parent c.messages
    then none
    else if known_message parent all
    then some cross_conversation_parent
    else some missing_parent

pub record GraphEvidence : Type 0 where
  pub warnings : List ReconciliationWarning
  pub orphaned_messages : Orphans

unfoldable pub note : String → String → Option WarningCode → GraphEvidence → GraphEvidence
note conversation message none g = g
note conversation message (some code) g = record {
  warnings =
      g.warnings
      ++ record {
        code = code;
        conversation_external_id = conversation;
        message_external_id = some message;
      }
        ∷ [];
  orphaned_messages = (conversation, message) ∷ g.orphaned_messages;
}

-- The loop over the messages of one conversation.
unfoldable pub scan_messages :
    List ParsedConversation
    → ParsedConversation
    → List ParsedMessage
    → GraphEvidence
    → GraphEvidence
unfolding parent_code note
scan_messages all c [] g = g
scan_messages all c (m ∷ ms) g =
    scan_messages all c ms
      (note c.external_id m.external_id (parent_code all c m m.parent_external_id) g)

unfoldable pub scan_conversations :
    List ParsedConversation → List ParsedConversation → GraphEvidence → GraphEvidence
unfolding scan_messages
scan_conversations all [] g = g
scan_conversations all (c ∷ cs) g = scan_conversations all cs (scan_messages all c c.messages g)

-- The derived order of the warnings: the code, the conversation, the message.
code_rank : WarningCode → ℕ
code_rank missing_parent = 0
code_rank self_parent = 1
code_rank cross_conversation_parent = 2

text_before : String → String → Bool
text_before a b = elim (compare a b) [ Ordering.lt ↦ true | _ ↦ false ]

option_before : Option String → Option String → Bool
unfolding text_before
option_before none none = false
option_before none (some b) = true
option_before (some a) none = false
option_before (some a) (some b) = text_before a b

unfoldable pub warning_before : ReconciliationWarning → ReconciliationWarning → Bool
unfolding code_rank text_before option_before
warning_before a b =
    ltb (code_rank a.code) (code_rank b.code)
    || code_rank a.code == code_rank b.code
      && (text_before a.conversation_external_id b.conversation_external_id
          || str_eq a.conversation_external_id b.conversation_external_id
            && option_before a.message_external_id b.message_external_id)

unfoldable pub insert_warning :
    ReconciliationWarning → List ReconciliationWarning → List ReconciliationWarning
unfolding warning_before
insert_warning x [] = x ∷ []
insert_warning x (y ∷ ys) = if warning_before y x then y ∷ insert_warning x ys else x ∷ y ∷ ys

-- `warnings.sort()`. Warnings that the order does not tell apart are equal, so one sort is another.
unfoldable pub sort_warnings : List ReconciliationWarning → List ReconciliationWarning
unfolding insert_warning
sort_warnings [] = []
sort_warnings (x ∷ xs) = insert_warning x (sort_warnings xs)

unfoldable pub graph_evidence : List ParsedConversation → GraphEvidence
unfolding scan_conversations sort_warnings
graph_evidence cs =
    let g = scan_conversations cs cs (record { warnings = []; orphaned_messages = [] }) in
    record g { warnings = sort_warnings g.warnings }
