-- ===== src/Outbox/Subject.antt =====
-- crates/chatgpt-archive/src/receipt/outbox/subject.rs: the closed table from event types to
-- subjects, and the stored document as the bytes that a publish carries; with the list of
-- content-bearing types of stream_erasure.rs and the tombstone type of deletion_ack.rs.
pub mod Closed
use ratatoskr_chatgpt.Prelude.{
  ℕ, String, Bool, Option, none, some, List, [], ◌∷◌, if◌then◌else◌, any, str_eq,
}
use ratatoskr_chatgpt.Effect.{Result, ok, err}
use ratatoskr_chatgpt.Json.{Json}
use ratatoskr_chatgpt.Outbox.Model.{Env, Envelope, PublishError, encode, invalid_row}

abbrev pub operation_reported_subject : String
operation_reported_subject = "evt.ai-archive.chatgpt.operation.reported.v1"

abbrev pub stream_erasure_command : String
stream_erasure_command = "platform.stream_erasure.requested.v1"

abbrev pub tombstone_event_type : String
tombstone_event_type = "ai_archive.subject.tombstoned.v1"

abbrev pub content_bearing_types : List String
content_bearing_types =
    "ai_archive.archive.imported.v1" ∷ "ai_archive.conversation.added.v1"
    ∷ "ai_archive.conversation.updated.v1" ∷ "ai_archive.project.added.v1"
    ∷ "ai_archive.project.updated.v1" ∷ "ai_archive.artifact.added.v1"
    ∷ "ai_archive.artifact.updated.v1" ∷ []

-- `CONTENT_BEARING_TYPES.contains(…)`, and `event_type = ANY(…)`.
unfoldable pub is_content_bearing : String → Bool
is_content_bearing event_type = any (str_eq event_type) content_bearing_types

-- The arms of the match, in their order.
abbrev pub subject_table : List (String × String)
subject_table =
    ("platform.operation.reported.v1", operation_reported_subject)
    ∷ ("ai_archive.archive.imported.v1", "evt.ai_archive.archive.imported.v1")
    ∷ ("ai_archive.conversation.added.v1", "evt.ai_archive.conversation.added.v1")
    ∷ ("ai_archive.conversation.updated.v1", "evt.ai_archive.conversation.updated.v1")
    ∷ ("ai_archive.project.added.v1", "evt.ai_archive.project.added.v1")
    ∷ ("ai_archive.project.updated.v1", "evt.ai_archive.project.updated.v1")
    ∷ ("ai_archive.artifact.added.v1", "evt.ai_archive.artifact.added.v1")
    ∷ ("ai_archive.artifact.updated.v1", "evt.ai_archive.artifact.updated.v1")
    ∷ ("ai_archive.subject.tombstoned.v1", "evt.ai_archive.subject.tombstoned.v1")
    ∷ ("platform.stream_erasure.requested.v1", "cmd.platform.stream_erasure.requested.v1")
    ∷ []

unfoldable pub find_subject : String → List (String × String) → Option String
find_subject event_type [] = none
find_subject event_type ((name, subject) ∷ rest) =
    if str_eq event_type name then some subject else find_subject event_type rest

unfoldable pub subject_for_event_type : String → Option String
unfolding find_subject
subject_for_event_type event_type = find_subject event_type subject_table

-- The document has to be the envelope of the row's declared type.
unfoldable pub check_envelope :
    String → List ℕ → Option Envelope → Result PublishError (List ℕ × String)
check_envelope event_type bytes none = err invalid_row
check_envelope event_type bytes (some envelope) =
    if str_eq envelope.wire_type event_type then ok (bytes, envelope.id) else err invalid_row

unfoldable pub envelope_of_bytes :
    Env → String → Option (List ℕ) → Result PublishError (List ℕ × String)
unfolding check_envelope
envelope_of_bytes env event_type none = err encode
envelope_of_bytes env event_type (some bytes) = check_envelope event_type bytes (
    if str_eq event_type stream_erasure_command
    then env.command_from_json bytes
    else env.event_from_json bytes)

unfoldable pub stored_envelope : Env → String → Json → Result PublishError (List ℕ × String)
unfolding envelope_of_bytes
stored_envelope env event_type payload = envelope_of_bytes env event_type (env.to_vec payload)
