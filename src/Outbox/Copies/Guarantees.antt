-- ===== src/Outbox/Copies/Guarantees.antt =====
-- The loop over the candidates of a pass, `publish_rows` of
-- crates/chatgpt-archive/src/receipt/outbox/publish.rs.
use ratatoskr_chatgpt.Prelude.{
  ℕ, ◌-◌, ◌≡◌, refl, inl, inr, String, Bool, true, false, Option, none, some, List, [], ◌∷◌,
  if◌then◌else◌, All, Bool-cases, str_eq, ltb, length,
}
use ratatoskr_chatgpt.Effect.{Result, ok, err}
use ratatoskr_chatgpt.Effect.Guards.{
  Guards, Guards-bind, Guards-pure, Guards-raise, Guards-if, Guards-attempt,
}
use ratatoskr_chatgpt.Outbox.Model.{
  Candidate, State, Env, Envelope, BrokerFault, broken_pipe, unacknowledged, PublishError, broker,
  database, encode, unknown_event_type, invalid_row, mark_lost,
}
use ratatoskr_chatgpt.Outbox.Subject.{
  stored_envelope, envelope_of_bytes, check_envelope, stream_erasure_command,
  subject_for_event_type,
}
use ratatoskr_chatgpt.Outbox.Marks.{not_null}
use ratatoskr_chatgpt.Outbox.Pump.{
  Outcome, published, skipped, counted, passed, failing, note_closed, settle_outcome,
  publish_envelope, publish_subject, publish_candidate, publish_all, publish_rows, publish_again,
  publish_first, end_pass, count_progress, first_failure_after, payload_headroom_bytes,
}
use ratatoskr_chatgpt.Outbox.Copies.{IsSafe, IsOrderly, ReadsUuids, keeping_copies}
use ratatoskr_chatgpt.Outbox.Copies.Steps.{
  Guards-record_resend_failure, Guards-record_failure, Guards-mark_undeliverable,
}
use ratatoskr_chatgpt.Outbox.Copies.First.{IsChosen, Guards-publish_first, Guards-publish_again}

module _ (env : Env) (reads : ReadsUuids env) where
  -- The identity beside a stored envelope is the spelling of a UUID.
  abbrev Spells : Result PublishError (List ℕ × String) → Type 0
  Spells (ok (body, event_id)) = not_null (env.parse_uuid event_id) ≡ true
  Spells (err e) = Unit

  checked-Spells :
      (event_type : String) (bytes : List ℕ) (o : Option Envelope)
      → ((e : Envelope) → o ≡ some e → not_null (env.parse_uuid e.id) ≡ true)
      → Spells (check_envelope event_type bytes o)
  unfolding check_envelope
  checked-Spells event_type bytes none h = tt
  checked-Spells event_type bytes (some e) h = elim (Bool-cases (str_eq e.wire_type event_type)) [
    | inl k ↦ rw (k) (h e refl)
    | inr k ↦ rw (k) tt
  ]

  read-Spells :
      (event_type : String) (bytes : Option (List ℕ))
      → Spells (envelope_of_bytes env event_type bytes)
  unfolding envelope_of_bytes
  read-Spells event_type none = tt
  read-Spells event_type (some bytes) =
      elim (Bool-cases (str_eq event_type stream_erasure_command)) [
        | inl k ↦ rw (k) (checked-Spells event_type bytes _ (reads.command bytes))
        | inr k ↦ rw (k) (checked-Spells event_type bytes _ (reads.event bytes))
      ]

  module _ (owes : ℕ → Bool) where
    Guards-note_closed :
        (fault : BrokerFault) → Guards (keeping_copies env owes) (note_closed fault)
    unfolding note_closed keeping_copies
    Guards-note_closed broken_pipe = record {
      at = λ w o safe. (
        record { others = o.others; replies = o.replies },
        record { kept = safe.kept; owed = safe.owed },
      );
    }
    Guards-note_closed unacknowledged = Guards-pure tt

    Guards-settle_outcome :
        (c : Candidate) (r : Result PublishError Outcome)
        → Guards (keeping_copies env owes) (settle_outcome c r)
    unfolding settle_outcome
    Guards-settle_outcome c (ok published) = Guards-pure counted
    Guards-settle_outcome c (ok skipped) = Guards-pure passed
    Guards-settle_outcome c (err (broker fault)) = Guards-bind _ _ (Guards-note_closed fault) (λ _.
        Guards-bind _ _
          (Guards-if c.resend _ _ (Guards-record_resend_failure env owes c.id)
            (Guards-record_failure env owes c.id))
          (λ _. Guards-pure (failing (broker fault))))
    Guards-settle_outcome c (err mark_lost) = Guards-pure (failing mark_lost)
    Guards-settle_outcome c (err database) = Guards-raise database
    Guards-settle_outcome c (err encode) = Guards-raise encode
    Guards-settle_outcome c (err unknown_event_type) = Guards-raise unknown_event_type
    Guards-settle_outcome c (err invalid_row) = Guards-raise invalid_row

    module _ (c : Candidate) (chosen : IsChosen owes c) (subject : String) where
      Guards-publish :
          (event_id : String) (body : List ℕ) (resend : Bool)
          → c.resend ≡ resend
          → not_null (env.parse_uuid event_id) ≡ true
          → Guards (keeping_copies env owes) (
              if resend
              then publish_again env c subject event_id body
              else publish_first env c subject event_id body)
      Guards-publish event_id body true e uuid =
          Guards-publish_again env owes c chosen subject event_id body uuid (chosen.resent e)
      Guards-publish event_id body false e uuid =
          Guards-publish_first env owes c chosen subject event_id body uuid

      Guards-publish_envelope :
          (r : Result PublishError (List ℕ × String))
          → Spells r
          → Guards (keeping_copies env owes) (publish_envelope env c subject r)
      unfolding publish_envelope
      Guards-publish_envelope (err e) h = Guards-raise e
      Guards-publish_envelope (ok (body, event_id)) h =
          Guards-if (ltb (env.max_payload - payload_headroom_bytes) (length body)) _ _
            (Guards-bind _ _ (Guards-mark_undeliverable env owes c.id) (λ _. Guards-pure passed))
            (Guards-bind _ _ (Guards-attempt _ (Guards-publish event_id body c.resend refl h))
              (Guards-settle_outcome c))

    Guards-publish_subject :
        (c : Candidate) (subject : Option String)
        → IsChosen owes c
        → Guards (keeping_copies env owes) (publish_subject env c subject)
    unfolding publish_subject stored_envelope
    Guards-publish_subject c none chosen = Guards-raise unknown_event_type
    Guards-publish_subject c (some subject) chosen =
        Guards-publish_envelope c chosen subject _ (read-Spells c.event_type (env.to_vec c.payload))

    Guards-end_pass :
        (n : ℕ) (first : Option PublishError) → Guards (keeping_copies env owes) (end_pass n first)
    Guards-end_pass n none = Guards-pure n
    Guards-end_pass n (some e) = Guards-raise e

    Guards-publish_all :
        (cs : List Candidate) (n : ℕ) (first : Option PublishError)
        → All (IsChosen owes) cs
        → Guards (keeping_copies env owes) (publish_all env cs n first)
    unfolding publish_all publish_candidate
    Guards-publish_all [] n first h = Guards-end_pass n first
    Guards-publish_all (c ∷ cs) n first h =
        Guards-bind _ _ (Guards-publish_subject c (subject_for_event_type c.event_type) h.0)
          (λ progress.
            Guards-publish_all cs (count_progress progress n) (first_failure_after progress first)
              h.1)

-- Whatever the database and the broker refuse, whichever commits fail (taking effect or not), and
-- whatever others do in between as long as they settle what they delete, the pump's loop over the
-- candidates of a pass loses no copy that carries content of an owner: each acknowledged one is
-- recorded on its row, carried by the pump, or named by a command to erase it.
pub publish_rows-IsSafe :
    (env : Env) (owes : ℕ → Bool) (cs : List Candidate) (w : State)
    → ReadsUuids env
    → All (IsChosen owes) cs
    → IsOrderly env owes w
    → IsSafe env owes w
    → IsSafe env owes (publish_rows env cs w).1
unfolding publish_rows keeping_copies
publish_rows-IsSafe env owes cs w reads chosen o safe =
    ((Guards-publish_all env reads owes cs 0 none chosen).at w o safe).1
