-- ===== src/Reconciliation/Graph/Dangling.antt =====
-- The parents of messages, beside `graph_evidence` of crates/chatgpt-archive/src/reconciliation/core.rs.
use ratatoskr_chatgpt.Prelude.{
  ℕ, ◌+◌, suc, ◌≡◌, refl, ◌∙◌, ap, String, Bool, true, false, not, ◌&&◌, ◌||◌, Option, none, some,
  List, [], ◌∷◌, arith, if◌then◌else◌, str_eq, any, length, Bool-cases, Option-cases, inl, inr,
  length-append,
}
use ratatoskr_chatgpt.Reconciliation.Model.{
  ParsedMessage, ParsedConversation, WarningCode, ReconciliationWarning,
}
use ratatoskr_chatgpt.Reconciliation.Conversations.{is_orphan}
use ratatoskr_chatgpt.Reconciliation.Report.{sum_of}
use ratatoskr_chatgpt.Reconciliation.Graph.{
  has_message, known_message, parent_code, GraphEvidence, note, scan_messages, scan_conversations,
  sort_warnings, warning_before, insert_warning, graph_evidence,
}

-- A message that names a parent which is itself, or which is not in its conversation.
unfoldable pub is_dangling : ParsedConversation → ParsedMessage → Bool
unfolding has_message
is_dangling c m = elim m.parent_external_id [
  | none ↦ false
  | some parent ↦ str_eq parent m.external_id || not (has_message parent c.messages)
]

abbrev is_noted : Option WarningCode → Bool
is_noted none = false
is_noted (some code) = true

noted :
    (all : List ParsedConversation) (c : ParsedConversation) (m : ParsedMessage)
    → is_noted (parent_code all c m m.parent_external_id) ≡ is_dangling c m
unfolding parent_code is_dangling
noted all c m = elim (Option-cases m.parent_external_id) [
  | inl e ↦ rw (e, parent_code) refl
  | inr (p, e) ↦
      rw (e, parent_code)
        (go (str_eq p m.external_id) (has_message p c.messages) (known_message p all))
]
  where
    go :
        (a b d : Bool)
        → is_noted (
            if a
            then some WarningCode.self_parent
            else if b
            then none
            else if d
            then some WarningCode.cross_conversation_parent
            else some WarningCode.missing_parent)
          ≡ (a || not b)
    go a b d = ground arith

-- Which of the messages of a list has these identities and dangles.
abbrev pub dangles : String → String → ParsedConversation → List ParsedMessage → Bool
dangles conversation message c ms =
    any (λ m. str_eq c.external_id conversation && str_eq m.external_id message && is_dangling c m)
      ms

module _ (conversation message : String) where
  is_orphan-note :
      (c m : String) (code : Option WarningCode) (g : GraphEvidence)
      → is_orphan (note c m code g).orphaned_messages conversation message ≡ (
          (str_eq c conversation && str_eq m message && is_noted code)
          || is_orphan g.orphaned_messages conversation message)
  unfolding note is_orphan
  is_orphan-note c m none g = ground arith
  is_orphan-note c m (some code) g = ground arith

  is_orphan-scan_messages :
      (all : List ParsedConversation) (c : ParsedConversation) (ms : List ParsedMessage)
      (g : GraphEvidence)
      → is_orphan (scan_messages all c ms g).orphaned_messages conversation message
        ≡ (dangles conversation message c ms || is_orphan g.orphaned_messages conversation message)
  unfolding scan_messages
  is_orphan-scan_messages all c [] g = refl
  is_orphan-scan_messages all c (m ∷ ms) g = ground (
    arith,
    is_orphan-scan_messages all c ms
        (note c.external_id m.external_id (parent_code all c m m.parent_external_id) g),
    is_orphan-note c.external_id m.external_id (parent_code all c m m.parent_external_id) g,
    noted all c m,
  )

  is_orphan-scan_conversations :
      (all cs : List ParsedConversation) (g : GraphEvidence)
      → is_orphan (scan_conversations all cs g).orphaned_messages conversation message ≡ (
          any (λ c. dangles conversation message c c.messages) cs
          || is_orphan g.orphaned_messages conversation message)
  unfolding scan_conversations
  is_orphan-scan_conversations all [] g = refl
  is_orphan-scan_conversations all (c ∷ cs) g = ground (
    arith,
    is_orphan-scan_conversations all cs (scan_messages all c c.messages g),
    is_orphan-scan_messages all c c.messages g,
  )

or_false : (b : Bool) → (b || false) ≡ b
or_false true = refl
or_false false = refl

-- A message is marked as an orphan exactly where the snapshot has a message with these identities
-- whose parent is the message itself or is not in its own conversation, whichever other
-- conversation may hold it.
pub graph_evidence-is_orphan :
    (cs : List ParsedConversation) (conversation message : String)
    → is_orphan (graph_evidence cs).orphaned_messages conversation message
      ≡ any (λ c. dangles conversation message c c.messages) cs
unfolding graph_evidence is_orphan
graph_evidence-is_orphan cs conversation message =
    is_orphan-scan_conversations conversation message cs cs
      (record { warnings = []; orphaned_messages = [] })
    ∙ or_false _

abbrev pub count_dangling : ParsedConversation → List ParsedMessage → ℕ
count_dangling c ms = sum_of (λ m. if is_dangling c m then 1 else 0) ms

length-note :
    (c m : String) (code : Option WarningCode) (g : GraphEvidence)
    → length (note c m code g).warnings ≡ (if is_noted code then 1 else 0) + length g.warnings
unfolding note
length-note c m none g = omega arith
length-note c m (some code) g = length-append g.warnings _ ∙ omega arith

length-scan_messages :
    (all : List ParsedConversation) (c : ParsedConversation) (ms : List ParsedMessage)
    (g : GraphEvidence)
    → length (scan_messages all c ms g).warnings ≡ count_dangling c ms + length g.warnings
unfolding scan_messages
length-scan_messages all c [] g = omega arith
length-scan_messages all c (m ∷ ms) g = ground (
  arith,
  length-scan_messages all c ms
      (note c.external_id m.external_id (parent_code all c m m.parent_external_id) g),
  length-note c.external_id m.external_id (parent_code all c m m.parent_external_id) g,
  noted all c m,
)

length-scan_conversations :
    (all cs : List ParsedConversation) (g : GraphEvidence)
    → length (scan_conversations all cs g).warnings
      ≡ sum_of (λ c. count_dangling c c.messages) cs + length g.warnings
unfolding scan_conversations
length-scan_conversations all [] g = omega arith
length-scan_conversations all (c ∷ cs) g = omega (
  arith,
  length-scan_conversations all cs (scan_messages all c c.messages g),
  length-scan_messages all c c.messages g,
)

length-insert_warning :
    (x : ReconciliationWarning) (ws : List ReconciliationWarning)
    → length (insert_warning x ws) ≡ suc (length ws)
unfolding insert_warning
length-insert_warning x [] = refl
length-insert_warning x (y ∷ ys) = elim (Bool-cases (warning_before y x)) [
  | inl e ↦ rw (e) (ap suc (length-insert_warning x ys))
  | inr e ↦ rw (e) refl
]

length-sort_warnings : (ws : List ReconciliationWarning) → length (sort_warnings ws) ≡ length ws
unfolding sort_warnings
length-sort_warnings [] = refl
length-sort_warnings (x ∷ xs) =
    length-insert_warning x (sort_warnings xs) ∙ ap suc (length-sort_warnings xs)

-- There is one warning for each message of the snapshot whose parent is the message itself or is not
-- in its own conversation.
length-graph_evidence :
    (cs : List ParsedConversation)
    → length (graph_evidence cs).warnings ≡ sum_of (λ c. count_dangling c c.messages) cs
unfolding graph_evidence
length-graph_evidence cs =
    length-sort_warnings
      (scan_conversations cs cs (record { warnings = []; orphaned_messages = [] })).warnings
    ∙ length-scan_conversations cs cs (record { warnings = []; orphaned_messages = [] })
    ∙ omega arith
