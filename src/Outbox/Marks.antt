-- ===== src/Outbox/Marks.antt =====
-- crates/chatgpt-archive/src/receipt/outbox/marks.rs: the statements that move an outbox row
-- between its delivery states.
pub mod Bounds
use ratatoskr_chatgpt.Prelude.{
  ℕ, ◌+◌, ◌*◌, ◌^◌, min, String, Bool, true, false, Option, none, some, List, [], ◌∷◌, ◌++◌, ◌&&◌,
  if◌then◌else◌, ◌==◌, ltb, str_eq,
}
use ratatoskr_chatgpt.Effect.{Exec, pure, raise, ◌>>=◌, ◌>>◌}
use ratatoskr_chatgpt.Outbox.Model.{OutboxRow, State, Env, PublishError, database, mark_lost}
use ratatoskr_chatgpt.Outbox.Store.{Statement, sql, sql_in, count_where, update_where}
use ratatoskr_chatgpt.Outbox.Subject.{tombstone_event_type}

abbrev pub max_backoff_seconds : ℕ
max_backoff_seconds = 300

abbrev pub class_payload_too_large : String
class_payload_too_large = "payload_too_large"

abbrev pub is_null : {A : Type 0} → Option A → Bool
is_null none = true
is_null (some a) = false

-- Inserts into an ascending sequence without duplicates, as a `BTreeSet` does.
unfoldable pub insert_sequence : ℕ → List ℕ → List ℕ
insert_sequence n [] = n ∷ []
insert_sequence n (m ∷ ms) =
    let rest = insert_sequence n ms in
    if ltb n m then n ∷ m ∷ ms else if n == m then m ∷ ms else m ∷ rest

-- `SELECT DISTINCT … ORDER BY …`
unfoldable pub ascending : List ℕ → List ℕ
unfolding insert_sequence
ascending [] = []
ascending (n ∷ ns) = insert_sequence n (ascending ns)

-- `least(power(2, least(attempt_count, 8))::int, $2)`
unfoldable pub backoff_seconds : ℕ → ℕ
backoff_seconds attempts = min (2 ^ min attempts 8) max_backoff_seconds

-- `least($2 * power(2, least(resend_count + 1, 30)), $3)`
unfoldable pub resend_seconds : Env → ℕ → ℕ
resend_seconds env resends = min (env.resend_after * 2 ^ min (resends + 1) 30) env.resend_cap

unfoldable pub update_events : (OutboxRow → Bool) → (OutboxRow → OutboxRow) → Statement ℕ
unfolding count_where update_where
update_events p f s = (count_where p s.events, record s { events = update_where p f s.events })

abbrev pub is_unpublished : ℕ → OutboxRow → Bool
is_unpublished id r = r.id == id && is_null r.published_at

unfoldable pub set_published : Env → List ℕ → ℕ → OutboxRow → OutboxRow
unfolding ascending
set_published env sequences now r = record r {
  published_at = some now;
  published_stream_seqs = ascending (r.published_stream_seqs ++ sequences);
  next_resend_at =
      if str_eq r.event_type tombstone_event_type then some (now + env.resend_after) else none;
}

unfoldable pub publish_mark : Env → ℕ → List ℕ → Statement ℕ
unfolding update_events set_published
publish_mark env id sequences s =
    update_events (is_unpublished id) (set_published env sequences s.clock) s

unfoldable pub mark_published : Env → ℕ → List ℕ → Exec PublishError State Unit
unfolding publish_mark
mark_published env id sequences = do
  rows ← sql_in database (publish_mark env id sequences)
  if rows == 1 then pure tt else raise mark_lost

unfoldable pub set_resent : Env → ℕ → OutboxRow → OutboxRow
unfolding resend_seconds
set_resent env now r = record r {
  next_resend_at = some (now + resend_seconds env r.resend_count);
  resend_count = r.resend_count + 1;
}

unfoldable pub mark_resent : Env → ℕ → Exec PublishError State Unit
unfolding update_events set_resent
mark_resent env id = do
  sql database
      (λ s. update_events (λ r. r.id == id && is_null r.acknowledged_at) (set_resent env s.clock) s)
  pure tt

unfoldable pub set_resend_failed : ℕ → OutboxRow → OutboxRow
unfolding backoff_seconds
set_resend_failed now r = record r {
  attempt_count = r.attempt_count + 1;
  last_error = some "not_acknowledged";
  next_resend_at = some (now + backoff_seconds r.attempt_count);
}

abbrev pub not_null : {A : Type 0} → Option A → Bool
not_null none = false
not_null (some a) = true

unfoldable pub record_resend_failure : ℕ → Exec PublishError State Unit
unfolding update_events set_resend_failed
record_resend_failure id = do
  sql database (λ s.
      update_events (λ r. r.id == id && not_null r.published_at && is_null r.acknowledged_at)
        (set_resend_failed s.clock) s)
  pure tt

unfoldable pub set_undeliverable : ℕ → OutboxRow → OutboxRow
set_undeliverable now r = record r {
  undeliverable_at = some now;
  last_error = some class_payload_too_large;
}

unfoldable pub mark_undeliverable : ℕ → Exec PublishError State Unit
unfolding update_events set_undeliverable
mark_undeliverable id = do
  sql database (λ s.
      update_events (λ r. is_unpublished id r && is_null r.undeliverable_at)
        (set_undeliverable s.clock) s)
  pure tt

unfoldable pub set_failed : ℕ → OutboxRow → OutboxRow
unfolding backoff_seconds
set_failed now r = record r {
  attempt_count = r.attempt_count + 1;
  last_error = some "not_acknowledged";
  next_attempt_at = now + backoff_seconds r.attempt_count;
}

unfoldable pub record_failure : ℕ → Exec PublishError State Unit
unfolding update_events set_failed
record_failure id = do
  sql database (λ s. update_events (is_unpublished id) (set_failed s.clock) s)
  pure tt
