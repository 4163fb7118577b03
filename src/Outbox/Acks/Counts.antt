-- ===== src/Outbox/Acks/Counts.antt =====
-- What the loop in crates/chatgpt-archive/src/deletion_ack/consumer.rs answers to the broker, and how
-- it sums up what it did.
use ratatoskr_chatgpt.Prelude.{
  ℕ, ◌+◌, ◌≡◌, refl, inl, inr, List, [], ◌∷◌, ◌&&◌, Option, none, some, str_eq, Bool-cases,
  if◌then◌else◌,
}
use ratatoskr_chatgpt.Effect.{Result, ok, err, pure, ◌>>=◌}
use ratatoskr_chatgpt.Outbox.Model.{State}
use ratatoskr_chatgpt.Outbox.Acks.{
  Acknowledgement, AckApplication, DatabaseError, acknowledge, AckEnvelope, applied, refused,
  unmatched, Handling, AckSummary, AckKind, term, ack, nak, count_handling, kind_of, Incoming,
  message, recoverable, fatal, shutdown, shutdown_in_pause, bus, stopped, Session, run, handle,
  handle_envelope, handle_valid, handled, handling_of,
}

-- The acknowledgement of a message, where it is one: of its type, from Knowledge, and readable.
abbrev valid_of : Option AckEnvelope → Option Acknowledgement
valid_of none = none
valid_of (some e) =
    if str_eq e.wire_type "knowledge.deletion.acknowledged.v1"
      && str_eq e.producer "ratatoskr-knowledge"
    then e.acknowledgement
    else none

-- One more of what was applied, refused, or found nothing.
abbrev plus : AckApplication → AckSummary → AckSummary
plus applied s = record s { applied_count = s.applied_count + 1 }
plus refused s = record s { refused_count = s.refused_count + 1 }
plus unmatched s = record s { ignored_count = s.ignored_count + 1 }

-- How one message is answered: a message that is no valid acknowledgement is terminated and changes
-- nothing; one that the database fails to record is asked for again; one that it records is
-- acknowledged, and counted by what the record did.
pub data Answers (found : Option Acknowledgement) (w : State) (s : AckSummary)
    : AckKind → AckSummary → State → Type 0 where
  invalid :
      found ≡ none
      → Answers found w s term (record s { terminated_count = s.terminated_count + 1 }) w
  failed :
      (a : Acknowledgement) (e : DatabaseError)
      → found ≡ some a
      → (acknowledge a w).0 ≡ err e
      → Answers found w s nak (record s { retried_count = s.retried_count + 1 }) (acknowledge a w).1
  recorded :
      (a : Acknowledgement) (application : AckApplication)
      → found ≡ some a
      → (acknowledge a w).0 ≡ ok application
      → Answers found w s ack (plus application s) (acknowledge a w).1

-- What the loop does, from a summary and a state on.
pub data Runs (read : List ℕ → Option AckEnvelope)
    : List Incoming → AckSummary → State → Session → Type 0 where
  drained :
      {s : AckSummary} {w : State}
      → Runs read [] s w (record { outcome = err stopped; answers = []; state = w })
  asked :
      {rest : List Incoming} {s : AckSummary} {w : State}
      → Runs read (shutdown ∷ rest) s w (record { outcome = ok s; answers = []; state = w })
  asked_in_pause :
      {rest : List Incoming} {s : AckSummary} {w : State}
      → Runs read
          (shutdown_in_pause ∷ rest)
          s
          w
          (record { outcome = ok s; answers = []; state = w })
  broken :
      {rest : List Incoming} {s : AckSummary} {w : State}
      → Runs read (fatal ∷ rest) s w (record { outcome = err bus; answers = []; state = w })
  survived :
      {rest : List Incoming} {s : AckSummary} {w : State} {session : Session}
      → Runs read rest s w session
      → Runs read (recoverable ∷ rest) s w session
  answered :
      {payload : List ℕ} {rest : List Incoming} {s s' : AckSummary} {w w' : State} {kind : AckKind}
      {session : Session}
      → Answers (valid_of (read payload)) w s kind s' w'
      → Runs read rest s' w' session
      → Runs read (message payload ∷ rest) s w (record session { answers = kind ∷ session.answers })

Answered :
    Option Acknowledgement → State → AckSummary → Result DatabaseError Handling × State → Type 0
Answered found w s (r, w') =
    Answers found w s (kind_of (handled r)) (count_handling (handled r) s) w'

answer-Answers :
    (a : Acknowledgement) (w : State) (s : AckSummary) (r : Result DatabaseError AckApplication)
    → (acknowledge a w).0 ≡ r
    → Answers
        (some a)
        w
        s
        (kind_of (handling_of r))
        (count_handling (handling_of r) s)
        (acknowledge a w).1
unfolding kind_of count_handling handling_of
answer-Answers a w s (err e) k = failed a e refl k
answer-Answers a w s (ok applied) k = recorded a applied refl k
answer-Answers a w s (ok refused) k = recorded a refused refl k
answer-Answers a w s (ok unmatched) k = recorded a unmatched refl k

handle_valid-Answered :
    (found : Option Acknowledgement) (w : State) (s : AckSummary)
    → Answered found w s (handle_valid found w)
unfolding Answered handle_valid pure ◌>>=◌ kind_of count_handling handled handling_of
handle_valid-Answered none w s = invalid refl
handle_valid-Answered (some a) w s = answer-Answers a w s (acknowledge a w).0 refl

handle_envelope-Answered :
    (e : Option AckEnvelope) (w : State) (s : AckSummary)
    → Answered (valid_of e) w s (handle_envelope e w)
unfolding Answered handle_envelope pure kind_of count_handling handled
handle_envelope-Answered none w s = invalid refl
handle_envelope-Answered (some e) w s =
    elim (Bool-cases (
      str_eq e.wire_type "knowledge.deletion.acknowledged.v1"
      && str_eq e.producer "ratatoskr-knowledge")) [
        | inl k ↦ rw (k) (handle_valid-Answered e.acknowledgement w s)
        | inr k ↦ rw (k) (invalid refl)
      ]

-- Whatever messages and stream errors come, the loop does as `Runs` lists: it answers each message
-- before its end once, as `Answers` has it, counts it so, and ends with its summary at a shutdown
-- only.
pub run-Runs :
    (read : List ℕ → Option AckEnvelope) (incoming : List Incoming) (summary : AckSummary)
    (w : State)
    → Runs read incoming summary w (run read incoming summary w)
unfolding run handle Answered
run-Runs read [] summary w = drained
run-Runs read (shutdown ∷ rest) summary w = asked
run-Runs read (shutdown_in_pause ∷ rest) summary w = asked_in_pause
run-Runs read (fatal ∷ rest) summary w = broken
run-Runs read (recoverable ∷ rest) summary w = survived (run-Runs read rest summary w)
run-Runs read (message payload ∷ rest) summary w =
    let (r, w') = handle read payload w in
    answered (handle_envelope-Answered (read payload) w summary)
      (run-Runs read rest (count_handling (handled r) summary) w')
