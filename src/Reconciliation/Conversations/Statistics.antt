-- ===== src/Reconciliation/Conversations/Statistics.antt =====
-- The statistics of `observe_conversation` of crates/chatgpt-archive/src/reconciliation/core.rs.
use ratatoskr_chatgpt.Prelude.{
  refl, none, inl, inr, All, All-mono, All-zip, All-of, Bool-cases, Option-cases, length-append,
  suc, ◌∙◌, not, if◌then◌else◌, any, str_eq, ◌+◌, ℕ, ◌≡◌, String, Bool, true, false, List, [], ◌∷◌,
  arith, length,
}
use ratatoskr_chatgpt.Reconciliation.Model.{
  ParsedMessage, ParsedConversation, Digests, History, ConversationHistory, RevisionStatistics,
}
use ratatoskr_chatgpt.Reconciliation.OrderedMap.{OrderedMap, lookup-insert}
use ratatoskr_chatgpt.Reconciliation.OrderedMap
use ratatoskr_chatgpt.Reconciliation.OrderedMap.Totals.{
  AreApart, AreApart-insert, total, weigh_if, total-insert, total_of, total_of-values,
}
use ratatoskr_chatgpt.Reconciliation.Observe.{by_id, record_present, entry, new_history, collect}
use ratatoskr_chatgpt.Reconciliation.Conversations.{
  no_statistics, Orphans, count_message, is_orphan, observe_messages, observe_conversation,
}

-- How many revisions the statistics speak of.
abbrev counted : RevisionStatistics → ℕ
counted s = s.new_revisions + s.reused_revisions

one_more :
    (b : Bool) (s : RevisionStatistics) (n : ℕ)
    → counted (count_message b s) + n ≡ counted s + suc n
unfolding count_message
one_more true s n = omega arith
one_more false s n = omega arith

own_revision :
    (known : Bool) (n : ℕ)
    → counted (record no_statistics { new_revisions = if not known then 1 else 0 }) + n
      ≡ n + (if known then 0 else 1)
own_revision true n = omega arith
own_revision false n = omega arith

-- No identity stands twice.
abbrev pub AreIdsApart : List History → Type 0
AreIdsApart [] = Unit
AreIdsApart (h ∷ hs) = All (λ g. str_eq h.external_id g.external_id ≡ false) hs × AreIdsApart hs

abbrev pub revision_count : History → ℕ
revision_count h = length h.revisions

-- The revisions of a conversation and of its messages.
abbrev pub all_revisions : ConversationHistory → ℕ
all_revisions h = revision_count h.history + total_of revision_count h.messages

collect-total :
    (hs : List History) (m : OrderedMap History)
    → AreApart m
    → All (λ g. OrderedMap.lookup g.external_id m ≡ none) hs
    → AreIdsApart hs
    → AreApart (collect m hs)
      × (total revision_count (collect m hs) ≡ total revision_count m + total_of revision_count hs)
unfolding collect
collect-total [] m apart free ids = (apart, omega arith)
collect-total (h ∷ hs) m apart free ids =
    let weighed = total-insert revision_count h.external_id h m apart in
    let (apart', rest) =
      collect-total hs (OrderedMap.insert h.external_id h m)
        (AreApart-insert h.external_id h m apart)
        (All-mono (λ g (f, other). rw (lookup-insert h.external_id g.external_id h m, other) f) hs
          (All-zip _ _ hs free.1 ids.0))
        ids.1 in
    (apart', omega (arith, rest, rw free.0 at weighed))

by_id-total :
    (hs : List History)
    → AreIdsApart hs
    → AreApart (by_id hs) × (total revision_count (by_id hs) ≡ total_of revision_count hs)
unfolding by_id OrderedMap.lookup
by_id-total hs ids =
    let (apart, sum) =
      collect-total hs [] tt
        (All-of (λ g. OrderedMap.lookup {V = History} g.external_id [] ≡ none) (λ g. refl) hs)
        ids in
    (apart, omega (arith, sum))

length-record_present :
    (h : History) (archive_id digest : String) (orphaned : Bool)
    → revision_count (record_present h archive_id digest orphaned).0
      ≡ revision_count h + (if (record_present h archive_id digest orphaned).1 then 1 else 0)
unfolding record_present
length-record_present h archive_id digest orphaned =
    elim (Bool-cases (any (str_eq digest) h.revisions)) [
      | inl k ↦ rw (k) (omega arith)
      | inr k ↦ rw (k) (omega (arith, length-append h.revisions (digest ∷ [])))
    ]

entry-weigh_if :
    (external_id : String) (m : OrderedMap History)
    → revision_count (entry (new_history external_id) external_id m)
      ≡ weigh_if revision_count (OrderedMap.lookup external_id m)
unfolding entry
entry-weigh_if external_id m = elim (Option-cases (OrderedMap.lookup external_id m)) [
  | inl e ↦ rw (entry, e) refl
  | inr (h, e) ↦ rw (entry, e) refl
]

new-count_message :
    (b : Bool) (s : RevisionStatistics)
    → (count_message b s).new_revisions ≡ s.new_revisions + (if b then 1 else 0)
unfolding count_message
new-count_message true s = refl
new-count_message false s = omega arith

abbrev start : Bool → RevisionStatistics
start created = record no_statistics { new_revisions = if created then 1 else 0 }

module _ (ds : Digests) (archive_id : String) (orphans : Orphans) where
  counted-observe_messages :
      (conversation : String) (xs : List ParsedMessage) (m : OrderedMap History)
      (stats : RevisionStatistics)
      → counted (observe_messages ds archive_id orphans conversation xs (m, stats)).1
        ≡ counted stats + length xs
  unfolding observe_messages
  counted-observe_messages conversation [] m stats = omega arith
  counted-observe_messages conversation (msg ∷ xs) m stats =
      counted-observe_messages conversation xs _ _ ∙ one_more _ stats (length xs)

  new-observe_messages :
      (conversation : String) (xs : List ParsedMessage) (m : OrderedMap History)
      (stats : RevisionStatistics)
      → AreApart m
      → (observe_messages ds archive_id orphans conversation xs (m, stats)).1.new_revisions
          + total revision_count m
        ≡ stats.new_revisions
          + total revision_count
              (observe_messages ds archive_id orphans conversation xs (m, stats)).0
  unfolding observe_messages
  new-observe_messages conversation [] m stats apart = refl
  new-observe_messages conversation (msg ∷ xs) m stats apart =
      let orphaned = is_orphan orphans conversation msg.external_id in
      let old = entry (new_history msg.external_id) msg.external_id m in
      let (h, created) = record_present old archive_id (ds.message_digest msg) orphaned in
      omega (
        arith,
        new-observe_messages conversation xs (OrderedMap.insert msg.external_id h m)
            (count_message created stats) (AreApart-insert msg.external_id h m apart),
        total-insert revision_count msg.external_id h m apart,
        entry-weigh_if msg.external_id m,
        length-record_present old archive_id (ds.message_digest msg) orphaned,
        new-count_message created stats,
      )

  counted-all :
      (conversation : ParsedConversation) (h : ConversationHistory)
      → (observe_conversation ds archive_id orphans conversation h).1.new_revisions
          + (observe_conversation ds archive_id orphans conversation h).1.reused_revisions
        ≡ length conversation.messages
          + (if any (str_eq (ds.conversation_digest conversation)) h.history.revisions
              then 0
              else 1)
  unfolding observe_conversation record_present
  counted-all conversation h =
      counted-observe_messages conversation.external_id conversation.messages (by_id h.messages) _
      ∙ own_revision (any (str_eq (ds.conversation_digest conversation)) h.history.revisions)
          (length conversation.messages)

  -- Observing a conversation whose message histories are of different messages, the statistics' new
  -- revisions are as many as the revisions by which the histories of the conversation and of its
  -- messages grow. Every message is counted once, as a new or as a reused revision, and the
  -- conversation itself only where its digest is new: where it is unchanged, it is in neither count.
  pub observe_conversation-counted :
      (conversation : ParsedConversation) (h : ConversationHistory)
      → AreIdsApart h.messages
      → ((observe_conversation ds archive_id orphans conversation h).1.new_revisions
            + all_revisions h
          ≡ all_revisions (observe_conversation ds archive_id orphans conversation h).0)
        × ((observe_conversation ds archive_id orphans conversation h).1.new_revisions
              + (observe_conversation ds archive_id orphans conversation h).1.reused_revisions
            ≡ length conversation.messages
              + (if any (str_eq (ds.conversation_digest conversation)) h.history.revisions
                  then 0
                  else 1))
  unfolding observe_conversation
  observe_conversation-counted conversation h ids =
      let (apart, sum) = by_id-total h.messages ids in
      let (history, created) =
        record_present h.history archive_id (ds.conversation_digest conversation) false in
      let stats = start created in
      let m =
        (observe_messages ds archive_id orphans conversation.external_id conversation.messages
          (by_id h.messages, stats)).0 in
      (
        omega (
          arith,
          sum,
          new-observe_messages conversation.external_id conversation.messages (by_id h.messages)
              stats apart,
          length-record_present h.history archive_id (ds.conversation_digest conversation) false,
          total_of-values revision_count m,
        ),
        counted-all conversation h,
      )
