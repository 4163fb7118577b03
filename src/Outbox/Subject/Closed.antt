-- ===== src/Outbox/Subject/Closed.antt =====
-- The table of crates/chatgpt-archive/src/receipt/outbox/subject.rs against the constraint
-- `outbox_event_type_closed` of schema.sql.
use ratatoskr_chatgpt.Prelude.{◌≡◌, refl, String, List, [], ◌∷◌, any, str_eq, arith}
use ratatoskr_chatgpt.Outbox.Marks.{not_null}
use ratatoskr_chatgpt.Outbox.Subject.{subject_for_event_type, find_subject, subject_table}

-- The types that the schema admits, in the order in which it lists them.
abbrev pub closed_event_types : List String
closed_event_types =
    "platform.operation.reported.v1" ∷ "ai_archive.archive.imported.v1"
    ∷ "ai_archive.conversation.added.v1" ∷ "ai_archive.conversation.updated.v1"
    ∷ "ai_archive.project.added.v1" ∷ "ai_archive.project.updated.v1"
    ∷ "ai_archive.artifact.added.v1" ∷ "ai_archive.artifact.updated.v1"
    ∷ "ai_archive.subject.tombstoned.v1" ∷ "platform.stream_erasure.requested.v1" ∷ []

found-listed :
    (event_type : String) (table : List (String × String))
    → not_null (find_subject event_type table)
      ≡ any (λ (name, subject). str_eq event_type name) table
unfolding find_subject
found-listed event_type [] = refl
found-listed event_type ((name, subject) ∷ table) = ground (arith, found-listed event_type table)

-- A type has a subject exactly when the schema admits it.
pub subject_for_event_type-closed :
    (event_type : String)
    → not_null (subject_for_event_type event_type) ≡ any (str_eq event_type) closed_event_types
unfolding subject_for_event_type
subject_for_event_type-closed event_type = found-listed event_type subject_table
