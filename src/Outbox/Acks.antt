-- ===== src/Outbox/Acks.antt =====
-- Knowledge's acknowledgement of deletion tombstones: crates/chatgpt-archive/src/deletion_ack.rs, and
-- the loop of deletion_ack/consumer.rs over the messages of its durable.
pub mod Effects
pub mod Counts
use ratatoskr_chatgpt.Prelude.{
  ℕ, suc, ◌+◌, String, Bool, true, false, Option, none, some, List, [], ◌∷◌, ◌++◌, ◌&&◌,
  if◌then◌else◌, ◌==◌, str_eq,
}
use ratatoskr_chatgpt.Json.{column_text}
use ratatoskr_chatgpt.Effect.{Result, ok, err, Exec, pure, attempt, ◌>>=◌}
use ratatoskr_chatgpt.Outbox.Model.{OutboxRow, Store, State}
use ratatoskr_chatgpt.Outbox.Store.{sql}
use ratatoskr_chatgpt.Outbox.Subject.{tombstone_event_type}
use ratatoskr_chatgpt.Outbox.Marks.{update_events, is_null}

pub data AckApplication : Type 0 where
  applied refused unmatched : AckApplication

-- What the outbox reads of `KnowledgeDeletionAcknowledged`; identities are spelled out.
pub record Acknowledgement : Type 0 where
  pub acknowledged_event_id : String
  pub owner : String
  pub is_refused : Bool

-- `sqlx::Error`
pub data DatabaseError : Type 0 where
  database_failed : DatabaseError

abbrev pub has_text : Option String → String → Bool
has_text none expected = false
has_text (some s) expected = str_eq s expected

-- The tombstone that an acknowledgement names, for its owner.
unfoldable pub is_addressed : Acknowledgement → OutboxRow → Bool
is_addressed ack r =
    str_eq r.event_type tombstone_event_type
    && has_text (column_text "event_id" r.payload) ack.acknowledged_event_id
    && has_text (column_text "tenant_id" r.payload) ack.owner

unfoldable pub awaits_ack : Acknowledgement → OutboxRow → Bool
unfolding is_addressed
awaits_ack ack r = is_null r.acknowledged_at && is_addressed ack r

abbrev pub coalesce : Option ℕ → ℕ → ℕ
coalesce none now = now
coalesce (some at) now = at

unfoldable pub set_acknowledged : Bool → ℕ → OutboxRow → OutboxRow
set_acknowledged is_refused now r = record r {
  acknowledged_at = some now;
  ack_outcome = some (if is_refused then "refused" else "applied");
  published_at = some (coalesce r.published_at now);
}

unfoldable pub application_of : Bool → ℕ → AckApplication
application_of is_refused rows =
    if rows == 0 then unmatched else if is_refused then refused else applied

unfoldable pub acknowledge : Acknowledgement → Exec DatabaseError State AckApplication
unfolding update_events awaits_ack set_acknowledged application_of
acknowledge ack = do
  rows ←
      sql database_failed
        (λ s. update_events (awaits_ack ack) (set_acknowledged ack.is_refused s.clock) s)
  pure (application_of ack.is_refused rows)

-- What `EventEnvelope::from_json` finds in a message: its type and producer, and the acknowledgement
-- where the payload reads as one.
pub record AckEnvelope : Type 0 where
  pub wire_type : String
  pub producer : String
  pub acknowledgement : Option Acknowledgement

abbrev pub acknowledged_event_type : String
acknowledged_event_type = "knowledge.deletion.acknowledged.v1"

abbrev pub knowledge : String
knowledge = "ratatoskr-knowledge"

pub data Handling : Type 0 where
  terminate retry : Handling
  done : AckApplication → Handling

unfoldable pub handling_of : Result DatabaseError AckApplication → Handling
handling_of (ok application) = done application
handling_of (err e) = retry

unfoldable pub handle_valid : Option Acknowledgement → Exec DatabaseError State Handling
unfolding handling_of
handle_valid none = pure terminate
handle_valid (some ack) = do r ← attempt (acknowledge ack); pure (handling_of r)

unfoldable pub handle_envelope : Option AckEnvelope → Exec DatabaseError State Handling
unfolding handle_valid
handle_envelope none = pure terminate
handle_envelope (some e) =
    if str_eq e.wire_type acknowledged_event_type && str_eq e.producer knowledge
    then handle_valid e.acknowledgement
    else pure terminate

-- `read` is `EventEnvelope::from_json` with `payload_as`.
unfoldable pub handle : (List ℕ → Option AckEnvelope) → List ℕ → Exec DatabaseError State Handling
unfolding handle_envelope
handle read payload = handle_envelope (read payload)

-- `AckSummary`
pub record AckSummary : Type 0 where
  pub applied_count : ℕ
  pub refused_count : ℕ
  pub ignored_count : ℕ
  pub terminated_count : ℕ
  pub retried_count : ℕ

abbrev pub no_acks : AckSummary
no_acks = record {
  applied_count = 0;
  refused_count = 0;
  ignored_count = 0;
  terminated_count = 0;
  retried_count = 0;
}

-- `AckKind`
pub data AckKind : Type 0 where
  term ack nak : AckKind

unfoldable pub count_handling : Handling → AckSummary → AckSummary
count_handling terminate s = record s { terminated_count = s.terminated_count + 1 }
count_handling (done applied) s = record s { applied_count = s.applied_count + 1 }
count_handling (done refused) s = record s { refused_count = s.refused_count + 1 }
count_handling (done unmatched) s = record s { ignored_count = s.ignored_count + 1 }
count_handling retry s = record s { retried_count = s.retried_count + 1 }

unfoldable pub kind_of : Handling → AckKind
kind_of terminate = term
kind_of (done application) = ack
kind_of retry = nak

-- What the loop meets next: a message, a stream error that it survives (with the shutdown during
-- its pause, or not) or that it does not, the shutdown. Nothing more is the end of the stream.
pub data Incoming : Type 0 where
  message : List ℕ → Incoming
  recoverable fatal shutdown shutdown_in_pause : Incoming

pub data AckError : Type 0 where
  bus stopped : AckError

-- What the loop did to the outbox and answered to the broker, and how it ended.
pub record Session : Type 0 where
  pub outcome : Result AckError AckSummary
  pub answers : List AckKind
  pub state : State

handled : Result DatabaseError Handling → Handling
handled (ok h) = h
handled (err e) = retry

unfoldable pub run : (List ℕ → Option AckEnvelope) → List Incoming → AckSummary → State → Session
unfolding handle handled count_handling kind_of
run read [] summary w = record { outcome = err stopped; answers = []; state = w }
run read (shutdown ∷ rest) summary w = record { outcome = ok summary; answers = []; state = w }
run read (shutdown_in_pause ∷ rest) summary w = record {
  outcome = ok summary;
  answers = [];
  state = w;
}
run read (fatal ∷ rest) summary w = record { outcome = err bus; answers = []; state = w }
run read (recoverable ∷ rest) summary w = run read rest summary w
run read (message payload ∷ rest) summary w =
    let (r, w') = handle read payload w in
    let session = run read rest (count_handling (handled r) summary) w' in
    record session { answers = kind_of (handled r) ∷ session.answers }
