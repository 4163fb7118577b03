-- ===== src/Outbox/Pump.antt =====
-- crates/chatgpt-archive/src/receipt/outbox/mod.rs and publish.rs: one pass of the pump. The
-- counters and log lines are left out, and so are the points at which a test may hold the pump.
pub mod Selection
use ratatoskr_chatgpt.Prelude.{
  ℕ, zero, suc, ◌-◌, String, Bool, true, false, Option, none, some, List, [], ◌∷◌, map, not, ◌&&◌,
  ◌||◌, if◌then◌else◌, ltb, leb, str_eq, length, any,
}
use ratatoskr_chatgpt.Effect.{Result, ok, err, Exec, pure, raise, attempt, ◌>>=◌, ◌>>◌}
use ratatoskr_chatgpt.Outbox.Model.{
  OutboxRow, Store, Candidate, BrokerFault, broken_pipe, unacknowledged, Reply, acknowledged,
  refused, State, Env, PublishError, broker, database, mark_lost, unknown_event_type,
}
use ratatoskr_chatgpt.Outbox.Store.{sql, wait, spend, select, commit, roll_back}
use ratatoskr_chatgpt.Outbox.Subject.{subject_for_event_type, stored_envelope, tombstone_event_type}
use ratatoskr_chatgpt.Outbox.Marks.{
  is_null, not_null, mark_published, mark_resent, record_resend_failure, mark_undeliverable,
  record_failure, is_unpublished,
}
use ratatoskr_chatgpt.Outbox.Carry.{remember, forget, reconcile_carried}

abbrev pub batch_size : ℕ
batch_size = 32

abbrev pub payload_headroom_bytes : ℕ
payload_headroom_bytes = 1024

-- `next_attempt_at <= now()`, which a null never satisfies.
abbrev pub is_due : ℕ → Option ℕ → Bool
is_due now none = false
is_due now (some at) = leb at now

-- The two halves of the selection: a first publication, and an overdue tombstone.
unfoldable pub awaits_publication : ℕ → OutboxRow → Bool
awaits_publication now r = is_null r.published_at && leb r.next_attempt_at now

unfoldable pub awaits_resend : ℕ → OutboxRow → Bool
awaits_resend now r =
    str_eq r.event_type tombstone_event_type
    && not_null r.published_at
    && is_null r.acknowledged_at
    && is_due now r.next_resend_at

unfoldable pub is_pending : ℕ → OutboxRow → Bool
unfolding awaits_publication awaits_resend
is_pending now r = is_null r.undeliverable_at && (awaits_publication now r || awaits_resend now r)

abbrev pub take : {A : Type 0} → ℕ → List A → List A
take zero xs = []
take (suc n) [] = []
take (suc n) (x ∷ xs) = x ∷ take n xs

unfoldable pub read_candidate : OutboxRow → Candidate
read_candidate r = record {
  id = r.id;
  event_type = r.event_type;
  payload = r.payload;
  account_id = r.tenant_id;
  resend = not_null r.published_at;
}

unfoldable pub pending_in : Store → List Candidate
unfolding is_pending read_candidate select
pending_in s = map read_candidate (take batch_size (select (is_pending s.clock) s.events))

unfoldable pub pending_rows : Exec PublishError State (List Candidate)
unfolding pending_in
pending_rows = sql database (λ s. (pending_in s, s))

-- `Outcome`
pub data Outcome : Type 0 where
  published skipped : Outcome

-- `publish_row`, which hands the message to the broker and waits for its acknowledgement.
unfoldable pub publish_reply :
    Candidate → String → String → List ℕ → List Reply → Exec PublishError State ℕ
publish_reply c subject event_id body [] w = (err (broker unacknowledged), w)
publish_reply c subject event_id body (refused fault ∷ replies) w =
    (err (broker fault), record w { replies = replies })
publish_reply c subject event_id body (acknowledged sequence ∷ replies) w = (
  ok sequence,
  record w {
    replies = replies;
    copies =
        record {
          candidate = c;
          subject = subject;
          msg_id = event_id;
          body = body;
          sequence = sequence;
        }
        ∷ w.copies;
  },
)

unfoldable pub publish_row : Candidate → String → String → List ℕ → Exec PublishError State ℕ
unfolding publish_reply
publish_row c subject event_id body w = publish_reply c subject event_id body w.replies w

unfoldable pub publish_again :
    Env → Candidate → String → String → List ℕ → Exec PublishError State Outcome
publish_again env c subject event_id body = do
  publish_row c subject event_id body
  mark_resent env c.id
  pure published

-- The locking statement answers the row that waits and that no other transaction holds.
unfoldable pub can_lock : ℕ → (ℕ → Bool) → List OutboxRow → Bool
can_lock id held rows =
    any (λ r. is_unpublished id r && is_null r.undeliverable_at && not (held id)) rows

unfoldable pub lock_row : Candidate → Exec PublishError State Bool
unfolding can_lock
lock_row c w =
    let (w', t) = spend w in
    if t.fault then (err database, w') else (ok (can_lock c.id t.held w'.store.events), w')

unfoldable pub publish_held :
    Env → Candidate → String → String → List ℕ → Exec PublishError State Outcome
publish_held env c subject event_id body = do
  sequence ← publish_row c subject event_id body
  sequences ← remember env c event_id sequence
  mark_published env c.id sequences
  pure published

unfoldable pub publish_locked :
    Env → Candidate → String → String → List ℕ → Exec PublishError State Outcome
unfolding publish_held lock_row
publish_locked env c subject event_id body = do
  locked ← lock_row c
  if locked then publish_held env c subject event_id body else pure skipped

-- Ends the transaction: `before` are the rows when it began.
unfoldable pub end_first :
    Candidate → Store → Result PublishError Outcome → Exec PublishError State Outcome
end_first c before (ok published) = do commit database before; forget c.id; pure published
end_first c before (ok skipped) = roll_back before (ok skipped)
end_first c before (err e) = roll_back before (err e)

unfoldable pub publish_first :
    Env → Candidate → String → String → List ℕ → Exec PublishError State Outcome
unfolding publish_locked end_first
publish_first env c subject event_id body w =
    let (w', t) = wait w in
    if t.fault
    then (err database, w')
    else (let (r, w'') = publish_locked env c subject event_id body w' in
        end_first c w'.store r w'')

unfoldable pub mark_closed : Exec PublishError State Unit
mark_closed w = (ok tt, record w { live = false })

-- What a candidate did to the pass: published, or the failure that it leaves.
pub data Progress : Type 0 where
  counted passed : Progress
  failing : PublishError → Progress

unfoldable pub note_closed : BrokerFault → Exec PublishError State Unit
unfolding mark_closed
note_closed broken_pipe = mark_closed
note_closed unacknowledged = pure tt

-- The arms of `match outcome`.
unfoldable pub settle_outcome :
    Candidate → Result PublishError Outcome → Exec PublishError State Progress
unfolding note_closed
settle_outcome c (ok published) = pure counted
settle_outcome c (ok skipped) = pure passed
settle_outcome c (err (broker fault)) = do
  note_closed fault
  if c.resend then record_resend_failure c.id else record_failure c.id
  pure (failing (broker fault))
settle_outcome c (err mark_lost) = pure (failing mark_lost)
settle_outcome c (err e) = raise e

unfoldable pub publish_envelope :
    Env
    → Candidate
    → String
    → Result PublishError (List ℕ × String)
    → Exec PublishError State Progress
unfolding settle_outcome publish_again publish_first
publish_envelope env c subject (err e) = raise e
publish_envelope env c subject (ok (body, event_id)) =
    if ltb (env.max_payload - payload_headroom_bytes) (length body)
    then mark_undeliverable c.id >> pure passed
    else attempt (
        if c.resend
        then publish_again env c subject event_id body
        else publish_first env c subject event_id body)
      >>= settle_outcome c

unfoldable pub publish_subject : Env → Candidate → Option String → Exec PublishError State Progress
unfolding publish_envelope
publish_subject env c none = raise unknown_event_type
publish_subject env c (some subject) =
    publish_envelope env c subject (stored_envelope env c.event_type c.payload)

-- One round of the loop.
unfoldable pub publish_candidate : Env → Candidate → Exec PublishError State Progress
unfolding publish_subject
publish_candidate env c = publish_subject env c (subject_for_event_type c.event_type)

abbrev pub count_progress : Progress → ℕ → ℕ
count_progress counted n = suc n
count_progress passed n = n
count_progress (failing e) n = n

-- `first_failure.get_or_insert(error)`
abbrev pub first_failure_after : Progress → Option PublishError → Option PublishError
first_failure_after (failing e) none = some e
first_failure_after progress first = first

abbrev pub end_pass : ℕ → Option PublishError → Exec PublishError State ℕ
end_pass n none = pure n
end_pass n (some e) = raise e

unfoldable pub publish_all :
    Env → List Candidate → ℕ → Option PublishError → Exec PublishError State ℕ
unfolding publish_candidate
publish_all env [] n first = end_pass n first
publish_all env (c ∷ cs) n first = do
  progress ← publish_candidate env c
  publish_all env cs (count_progress progress n) (first_failure_after progress first)

unfoldable pub publish_rows : Env → List Candidate → Exec PublishError State ℕ
unfolding publish_all
publish_rows env candidates = publish_all env candidates 0 none

-- The live connection; else the seed is read and a new one opened, both of which may fail.
unfoldable pub connection : Exec PublishError State Unit
connection w =
    if w.live
    then (ok tt, w)
    else (let (w1, seed) = spend w in
        let (w2, connect) = spend w1 in
        if seed.fault
        then (err (broker unacknowledged), w1)
        else if connect.fault
        then (err (broker unacknowledged), w2)
        else (ok tt, record w2 { live = true }))

-- `refresh_gauges`: how many tombstones are unacknowledged, and the age of the oldest.
unfoldable pub oldest : List OutboxRow → Option ℕ
oldest [] = none
oldest (r ∷ rs) = elim (oldest rs) [
  | none ↦ some r.created_at
  | some at ↦ if leb r.created_at at then some r.created_at else some at
]

abbrev pub unacknowledged_tombstone : OutboxRow → Bool
unacknowledged_tombstone r = str_eq r.event_type tombstone_event_type && is_null r.acknowledged_at

abbrev age : ℕ → Option ℕ → ℕ
age now none = 0
age now (some at) = now - at

unfoldable pub refresh_gauges : Exec PublishError State (ℕ × ℕ)
unfolding select oldest
refresh_gauges = sql database (λ s. (
  (
    length (select unacknowledged_tombstone s.events),
    age s.clock (oldest (select unacknowledged_tombstone s.events)),
  ),
  s,
))

unfoldable pub publish_chosen : Env → List Candidate → Exec PublishError State ℕ
unfolding publish_rows connection
publish_chosen env [] = pure 0
publish_chosen env (c ∷ cs) = do connection; publish_rows env (c ∷ cs)

unfoldable pub publish_pending_once : Env → Exec PublishError State ℕ
unfolding publish_chosen refresh_gauges pending_rows
publish_pending_once env = do
  refresh_gauges
  reconcile_carried env
  candidates ← pending_rows
  publish_chosen env candidates
