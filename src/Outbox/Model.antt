-- ===== src/Outbox/Model.antt =====
-- What the outbox keeps: the rows of `outbox_events` and `announced_subjects` in schema.sql, the
-- memory of the pump in crates/chatgpt-archive/src/receipt/outbox, and the schedule of what the
-- database, the broker and other tasks do.
use ratatoskr_chatgpt.Prelude.{ℕ, String, Bool, false, Option, List, [], ◌∷◌}
use ratatoskr_chatgpt.Json.{Json}
use ratatoskr_chatgpt.Effect.{Result}

-- A row of `outbox_events`. Instants count seconds of the database clock, identities are UUIDs
-- read as numbers. Rows stand in the order of `id`.
pub record OutboxRow : Type 0 where
  pub id : ℕ
  pub event_type : String
  pub aggregate_id : ℕ
  pub tenant_id : Option ℕ
  pub export_id : Option ℕ
  pub payload : Json
  pub correlation_id : Option ℕ
  pub deduplication_key : Option String
  pub created_at : ℕ
  pub published_at : Option ℕ
  pub attempt_count : ℕ
  pub last_error : Option String
  pub next_attempt_at : ℕ
  pub undeliverable_at : Option ℕ
  pub acknowledged_at : Option ℕ
  pub ack_outcome : Option String
  pub resend_count : ℕ
  pub next_resend_at : Option ℕ
  pub published_stream_seqs : List ℕ

-- A row of `announced_subjects`.
pub record AnnouncedRow : Type 0 where
  pub subject_kind : String
  pub subject_id : ℕ
  pub ai_archive_id : ℕ
  pub owner_ref : String
  pub account_id : ℕ
  pub announced_at : ℕ

-- The two tables, the identity that the next outbox row gets, and `now()`. `delivered` is no column:
-- it stands for what Edge was asked to erase by published commands whose rows are dropped since.
pub record Store : Type 0 where
  pub events : List OutboxRow
  pub next_id : ℕ
  pub announced : List AnnouncedRow
  pub clock : ℕ
  pub delivered : List ℕ

-- `Carried`
pub record Carried : Type 0 where
  pub owner : String
  pub event_id : ℕ
  pub account_id : Option ℕ
  pub sequences : List ℕ

-- `Candidate`
pub record Candidate : Type 0 where
  pub id : ℕ
  pub event_type : String
  pub payload : Json
  pub account_id : Option ℕ
  pub resend : Bool

-- A message that the broker acknowledged: the candidate that it was published for, what was sent,
-- and the stream sequence that it got.
pub record Copy : Type 0 where
  pub candidate : Candidate
  pub subject : String
  pub msg_id : String
  pub body : List ℕ
  pub sequence : ℕ

-- A broker failure by the one kind that the pump tells apart: the client is closed.
pub data BrokerFault : Type 0 where
  broken_pipe unacknowledged : BrokerFault

-- What the broker answers to a publish.
pub data Reply : Type 0 where
  acknowledged : ℕ → Reply
  refused : BrokerFault → Reply

-- One call of the database or the network: whether it fails, whether a failing commit took effect
-- all the same, which rows another transaction holds, and what others did just before it.
pub record Turn : Type 0 where
  pub fault : Bool
  pub landed : Bool
  pub held : ℕ → Bool
  pub others : Store → Store

-- `carry` is the pump's map of carried copies, `live` whether it has an open connection. The lists
-- `replies` and `turns` are what is still to come; beyond their ends the broker acknowledges
-- nothing, and the database answers with nobody else about.
pub record State : Type 0 where
  pub store : Store
  pub carry : List (ℕ × Carried)
  pub live : Bool
  pub copies : List Copy
  pub replies : List Reply
  pub turns : List Turn
  pub minted : ℕ

pub data PublishError : Type 0 where
  broker : BrokerFault → PublishError
  database encode unknown_event_type invalid_row mark_lost : PublishError

pub data EnqueueError : Type 0 where
  invalid unstored unencoded : EnqueueError

-- `PlatformStreamErasureRequested` in its command envelope.
pub record ErasureCommand : Type 0 where
  pub command_id : ℕ
  pub issued_at : ℕ
  pub request_id : ℕ
  pub correlation_id : ℕ
  pub owner : String
  pub stream_sequences : List ℕ

-- The type and the identity that an envelope reader finds in a document.
pub record Envelope : Type 0 where
  pub wire_type : String
  pub id : String

-- What other crates answer: `serde_json::to_vec`, `EventEnvelope::from_json`,
-- `CommandEnvelope::from_json`, `Uuid::parse_str`, the spelling of a UUID, `TenantRef::parse`, the
-- construction of the references of an erasure command and of its document, and the UUID generator.
-- `named_by` reads the sequences that the document of an erasure command names, as Edge does.
-- The last three are the configuration and the server's `max_payload`; durations count seconds.
pub record Env : Type 0 where
  pub to_vec : Json → Option (List ℕ)
  pub event_from_json : List ℕ → Option Envelope
  pub command_from_json : List ℕ → Option Envelope
  pub parse_uuid : String → Option ℕ
  pub spell_uuid : ℕ → String
  pub is_tenant : String → Bool
  pub is_request : ℕ → Bool
  pub encode_command : ErasureCommand → Result EnqueueError Json
  pub named_by : Json → List ℕ
  pub mint : ℕ → ℕ
  pub max_payload : ℕ
  pub resend_after : ℕ
  pub resend_cap : ℕ

-- A turn on which nothing goes wrong and nobody else is about.
abbrev pub calm : Turn
calm = record { fault = false; landed = false; held = λ _. false; others = λ s. s }

abbrev pub next_turn : List Turn → Turn
next_turn [] = calm
next_turn (t ∷ ts) = t

abbrev pub later_turns : List Turn → List Turn
later_turns [] = []
later_turns (t ∷ ts) = ts
