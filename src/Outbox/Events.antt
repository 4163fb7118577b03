-- ===== src/Outbox/Events.antt =====
-- crates/chatgpt-archive/src/outbox.rs: the normalized archive facts as outbox events. A contract
-- payload stands for what the module reads of it.
pub mod Announcing
use ratatoskr_chatgpt.Prelude.{
  ℕ, suc, String, Bool, true, false, Option, none, some, List, [], ◌∷◌, ◌&&◌, if◌then◌else◌,
}
use ratatoskr_chatgpt.Json.{Json, Members, object}
use ratatoskr_chatgpt.Effect.{Result, ok, err, Exec, pure, raise, map_err, ◌>>=◌, ◌>>◌}
use ratatoskr_chatgpt.Outbox.Model.{Store, State}
use ratatoskr_chatgpt.Outbox.Store.{sql_in}
use ratatoskr_chatgpt.Outbox.Subject.{tombstone_event_type}
use ratatoskr_chatgpt.Outbox.Erasure.{NewEvent, insert_event}
use ratatoskr_chatgpt.Outbox.Announced.{
  SubjectKind, archive, conversation, project, AnnouncedSubject, record_subject,
}

-- `EntityRef`
pub record EntityRef : Type 0 where
  pub kind : String
  pub local_id : String

-- `EventEnvelope` without the fields that are always the same.
pub record EventDocument : Type 0 where
  pub event_id : ℕ
  pub event_type : String
  pub occurred_at : ℕ
  pub producer : String
  pub aggregate_ref : EntityRef
  pub correlation_id : ℕ
  pub tenant : String
  pub body : Members

-- `NormalizedArchiveEvent`
pub record NormalizedArchiveEvent : Type 0 where
  pub event_type : String
  pub aggregate_id : ℕ
  pub envelope : EventDocument
  pub announced : Option AnnouncedSubject

-- `OutboxPlacement`
pub record OutboxPlacement : Type 0 where
  pub account_id : Option ℕ
  pub export_id : Option ℕ
  pub deduplication_key : Option String

pub data OutboxError : Type 0 where
  invalid_provenance not_encoded not_stored no_envelope announcement_without_account : OutboxError

-- What the constructors read of a contract payload: whether `validate` accepts it, the identity that
-- it is about, the archive and the owner of its provenance, the owner that it names itself, the
-- instant, and the payload's document.
pub record Fact : Type 0 where
  pub is_valid : Bool
  pub subject_id : ℕ
  pub ai_archive_id : ℕ
  pub owner : String
  pub provenance_owner : String
  pub imported_at : ℕ
  pub document : Option Json

-- What the contract crates answer: the event type of a payload is its first field here, a reference
-- is spelled by its kind, and `EntityLocalId::parse` may refuse the identity of an artifact.
pub record EventEnv : Type 0 where
  pub new_event_id : ℕ → ℕ
  pub entity_ref : String → ℕ → EntityRef
  pub artifact_ref : String → Option EntityRef
  pub accepts_producer : Bool
  pub to_value : EventDocument → Option Json

abbrev pub producer : String
producer = "ratatoskr-chatgpt"

unfoldable pub encode_body :
    EventEnv
    → ℕ
    → String
    → ℕ
    → EntityRef
    → String
    → ℕ
    → Option Json
    → Result OutboxError NormalizedArchiveEvent
encode_body env event_id event_type aggregate_id aggregate_ref tenant occurred_at none =
    err not_encoded
encode_body env event_id event_type aggregate_id aggregate_ref tenant occurred_at
      (some (object body)) =
    if env.accepts_producer
    then ok (record {
      event_type = event_type;
      aggregate_id = aggregate_id;
      envelope = record {
        event_id = event_id;
        event_type = event_type;
        occurred_at = occurred_at;
        producer = producer;
        aggregate_ref = aggregate_ref;
        correlation_id = event_id;
        tenant = tenant;
        body = body;
      };
      announced = none;
    })
    else err no_envelope
encode_body env event_id event_type aggregate_id aggregate_ref tenant occurred_at (some _) =
    err no_envelope

-- `encode`; the identity of the event is minted from `minted`.
unfoldable pub encode_event :
    EventEnv
    → ℕ
    → String
    → ℕ
    → EntityRef
    → String
    → ℕ
    → Option Json
    → Result OutboxError NormalizedArchiveEvent
unfolding encode_body
encode_event env minted = encode_body env (env.new_event_id minted)

-- `.map(|event| event.announcing(…))`
unfoldable pub announcing :
    SubjectKind
    → ℕ
    → ℕ
    → String
    → Result OutboxError NormalizedArchiveEvent
    → Result OutboxError NormalizedArchiveEvent
announcing kind subject_id ai_archive_id owner (err e) = err e
announcing kind subject_id ai_archive_id owner (ok event) = ok (record event {
  announced = some (record {
    kind = kind;
    subject_id = subject_id;
    ai_archive_id = ai_archive_id;
    owner = owner;
  });
})

unfoldable pub archive_imported : EventEnv → ℕ → Fact → Result OutboxError NormalizedArchiveEvent
unfolding announcing encode_event
archive_imported env minted fact =
    announcing archive fact.ai_archive_id fact.ai_archive_id fact.owner (
      encode_event env minted "ai_archive.archive.imported.v1" fact.ai_archive_id
        (env.entity_ref "archive" fact.ai_archive_id) fact.owner fact.imported_at fact.document)

-- A conversation is announced under the owner that its record names.
unfoldable pub conversation_event :
    String → EventEnv → ℕ → Fact → Result OutboxError NormalizedArchiveEvent
unfolding announcing encode_event
conversation_event event_type env minted fact =
    if fact.is_valid
    then announcing conversation fact.subject_id fact.ai_archive_id fact.owner (
        encode_event env minted event_type fact.subject_id
          (env.entity_ref "conversation" fact.subject_id) fact.owner fact.imported_at fact.document)
    else err invalid_provenance

unfoldable pub conversation_added : EventEnv → ℕ → Fact → Result OutboxError NormalizedArchiveEvent
unfolding conversation_event
conversation_added = conversation_event "ai_archive.conversation.added.v1"

unfoldable pub conversation_updated :
    EventEnv → ℕ → Fact → Result OutboxError NormalizedArchiveEvent
unfolding conversation_event
conversation_updated = conversation_event "ai_archive.conversation.updated.v1"

-- A project is announced under the owner of its provenance.
unfoldable pub project_event :
    String → EventEnv → ℕ → Fact → Result OutboxError NormalizedArchiveEvent
unfolding announcing encode_event
project_event event_type env minted fact =
    if fact.is_valid
    then announcing project fact.subject_id fact.ai_archive_id fact.provenance_owner (
        encode_event env minted event_type fact.subject_id
          (env.entity_ref "project" fact.subject_id) fact.provenance_owner fact.imported_at
          fact.document)
    else err invalid_provenance

unfoldable pub project_added : EventEnv → ℕ → Fact → Result OutboxError NormalizedArchiveEvent
unfolding project_event
project_added = project_event "ai_archive.project.added.v1"

unfoldable pub project_updated : EventEnv → ℕ → Fact → Result OutboxError NormalizedArchiveEvent
unfolding project_event
project_updated = project_event "ai_archive.project.updated.v1"

-- `AiArchiveTombstoneSubject`
pub data TombstoneSubject : Type 0 where
  whole_archive : TombstoneSubject
  one_conversation one_project : ℕ → TombstoneSubject
  one_artifact : String → TombstoneSubject

-- `AiArchiveTombstone`
pub record Tombstone : Type 0 where
  pub ai_archive_id : ℕ
  pub subject : TombstoneSubject
  pub owner : String
  pub observed_at : ℕ
  pub document : Option Json

unfoldable pub tombstone_subject_ref : EventEnv → ℕ → TombstoneSubject → Option EntityRef
tombstone_subject_ref env ai_archive_id whole_archive =
    some (env.entity_ref "archive" ai_archive_id)
tombstone_subject_ref env ai_archive_id (one_conversation id) =
    some (env.entity_ref "conversation" id)
tombstone_subject_ref env ai_archive_id (one_project id) = some (env.entity_ref "project" id)
tombstone_subject_ref env ai_archive_id (one_artifact id) = env.artifact_ref id

unfoldable pub tombstoned : EventEnv → ℕ → Tombstone → Result OutboxError NormalizedArchiveEvent
unfolding encode_event tombstone_subject_ref
tombstoned env minted t = elim (tombstone_subject_ref env t.ai_archive_id t.subject) [
  | none ↦ err no_envelope
  | some ref ↦
      encode_event env minted tombstone_event_type t.ai_archive_id ref t.owner t.observed_at
        t.document
]

unfoldable pub occurring_at : ℕ → NormalizedArchiveEvent → NormalizedArchiveEvent
occurring_at instant event = record event {
  envelope = record event.envelope { occurred_at = instant };
}

unfoldable pub with_correlation : ℕ → NormalizedArchiveEvent → NormalizedArchiveEvent
with_correlation correlation event = record event {
  envelope = record event.envelope { correlation_id = correlation };
}

abbrev pub event_row : NormalizedArchiveEvent → OutboxPlacement → Json → NewEvent
event_row event placement document = record {
  event_type = event.event_type;
  aggregate_id = event.aggregate_id;
  tenant_id = placement.account_id;
  export_id = placement.export_id;
  payload = document;
  correlation_id = some event.envelope.correlation_id;
  deduplication_key = placement.deduplication_key;
}

-- Records the announcement of an event whose row was added.
unfoldable pub announce : Option AnnouncedSubject → Option ℕ → Exec OutboxError State Unit
unfolding record_subject
announce none account = pure tt
announce (some subject) none = raise announcement_without_account
announce (some subject) (some account_id) = sql_in not_stored (record_subject subject account_id)

unfoldable pub enqueue_document :
    NormalizedArchiveEvent → OutboxPlacement → Option Json → Exec OutboxError State Bool
unfolding announce
enqueue_document event placement none = raise not_encoded
enqueue_document event placement (some document) = do
  added ← sql_in not_stored (insert_event (event_row event placement document))
  if added then announce event.announced placement.account_id else pure tt
  pure added

unfoldable pub enqueue_normalized_event :
    EventEnv → NormalizedArchiveEvent → OutboxPlacement → Exec OutboxError State Bool
unfolding enqueue_document
enqueue_normalized_event env event placement =
    enqueue_document event placement (env.to_value event.envelope)
