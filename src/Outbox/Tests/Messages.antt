-- ===== src/Outbox/Tests/Messages.antt =====
-- Runs of the removal, the acknowledgements, the ledger and the enqueue of events on small inputs.
use ratatoskr_chatgpt.Prelude.{
  ℕ, ◌≡◌, refl, true, false, Option, none, some, List, [], ◌∷◌, any, map, str_eq,
}
use ratatoskr_chatgpt.Json.{string, object, empty, member}
use ratatoskr_chatgpt.Effect.{ok, ◌>>=◌}
use ratatoskr_chatgpt.Reconciliation.OrderedMap.{insert, lookup}
use ratatoskr_chatgpt.Outbox.Model.{OutboxRow, Store, State}
use ratatoskr_chatgpt.Outbox.Store.{sql_in}
use ratatoskr_chatgpt.Outbox.Subject.{tombstone_event_type}
use ratatoskr_chatgpt.Outbox.Marks.{insert_sequence}
use ratatoskr_chatgpt.Outbox.Erasure.{chunks, insert_event}
use ratatoskr_chatgpt.Outbox.Erasure.Commands.{OnOk, AreFree, erasure_keys}
use ratatoskr_chatgpt.Outbox.Erasure.{OwnerErasure, enqueue_owner_erasure}
use ratatoskr_chatgpt.Outbox.Erasure.Added.{SharedOut, enqueue_owner_erasure-adds}
use ratatoskr_chatgpt.Outbox.Copies.{is_settled}
use ratatoskr_chatgpt.Outbox.Removal.{
  Removal, remove_published_facts, enqueue_erasure_commands, facts_of, drop_rows, fact_owner,
  is_dropped,
}
use ratatoskr_chatgpt.Outbox.Removal.Settlement.{removal_keys, remove_published_facts-settles}
use ratatoskr_chatgpt.Outbox.Acks.{
  Acknowledgement, AckEnvelope, Incoming, message, recoverable, shutdown, no_acks, run,
}
use ratatoskr_chatgpt.Outbox.Acks.Counts.{Runs, run-Runs}
use ratatoskr_chatgpt.Outbox.Announced.{
  project, AnnouncedSubject, record_subject, forget_subject, owners_of,
}
use ratatoskr_chatgpt.Outbox.Announced.Ledger.{owners_of-record}
use ratatoskr_chatgpt.Outbox.Events.{
  EventEnv, NormalizedArchiveEvent, OutboxPlacement, enqueue_normalized_event,
}
use ratatoskr_chatgpt.Outbox.Events.Announcing.{IsOnce, enqueue_normalized_event-IsOnce}
use ratatoskr_chatgpt.Outbox.Tests.{
  env, fact_row, store_of, first_only, env-NamesCommands, encode_sequences, read_sequences,
  read_items, spell_all, read_item, count_items, spell,
}

abbrev settled_state : Store → State
settled_state s = record {
  store = s;
  carry = [];
  live = true;
  copies = [];
  replies = [];
  turns = [];
  minted = 0;
}

-- The published fact of export 4.
abbrev published_row : OutboxRow
published_row = record fact_row { published_at = some 15; published_stream_seqs = 5 ∷ 7 ∷ [] }

abbrev removal : Removal
removal = record {
  tenant_id = 2;
  correlation_id = none;
  request_id = 8;
  issued_at = 20;
  outbox_ids = [];
  exports = 4 ∷ [];
}

abbrev removing : State
removing = settled_state (store_of published_row)

removal-AreFree :
    AreFree
      (removal_keys env removal (facts_of (drop_rows env removal removing.store).0 []))
      (drop_rows env removal removing.store).1.events
unfolding facts_of drop_rows insert insert_sequence lookup chunks
removal-AreFree = record { apart = (refl, tt); free = (refl, tt) }

remove_published_facts-settles_example :
    OnOk
      (λ s'.
        (id x : ℕ)
        → first_only id ≡ true
        → is_settled env id x removing.store ≡ true
        → is_settled env id x s' ≡ true)
      (remove_published_facts env removal removing)
unfolding fact_owner is_dropped
remove_published_facts-settles_example =
    remove_published_facts-settles env removal first_only removing env-NamesCommands (refl, tt)
      (refl, tt) removal-AreFree

-- The fact is gone, and one command names its two copies.
removed :
    map (λ r. env.named_by r.payload) (remove_published_facts env removal removing).1.store.events
    ≡ (5 ∷ 7 ∷ []) ∷ []
unfolding remove_published_facts ◌>>=◌ sql_in enqueue_erasure_commands insert encode_sequences
    read_sequences read_items spell_all read_item count_items spell
removed = refl

abbrev ack : Acknowledgement
ack = record { acknowledged_event_id = "t"; owner = "user:a"; is_refused = false }

abbrev tombstone_row : OutboxRow
tombstone_row = record fact_row {
  event_type = tombstone_event_type;
  payload = object (member "event_id" (string "t") (member "tenant_id" (string "user:a") empty));
  published_at = some 15;
}

abbrev waiting : State
waiting = settled_state (store_of tombstone_row)

abbrev read_ack : List ℕ → Option AckEnvelope
read_ack payload = some (record {
  wire_type = "knowledge.deletion.acknowledged.v1";
  producer = "ratatoskr-knowledge";
  acknowledgement = some ack;
})

abbrev incoming : List Incoming
incoming = message [] ∷ recoverable ∷ message [] ∷ shutdown ∷ message [] ∷ []

run-Runs_example : Runs read_ack incoming no_acks waiting (run read_ack incoming no_acks waiting)
run-Runs_example = run-Runs read_ack incoming no_acks waiting

abbrev announced_project : AnnouncedSubject
announced_project = record { kind = project; subject_id = 3; ai_archive_id = 6; owner = "user:a" }

owners_of-record_example :
    let s' = (record_subject announced_project 2 removing.store).1 in
    (any (λ (o, a). str_eq o "user:a") (owners_of env 2 project 3 s') ≡ true)
    × (owners_of env 2 project 3 (forget_subject 2 project 3 s').1 ≡ [])
owners_of-record_example = owners_of-record env announced_project 2 removing.store refl tt

abbrev event_env : EventEnv
event_env = record {
  new_event_id = λ n. n;
  entity_ref = λ kind id. record { kind = kind; local_id = "l" };
  artifact_ref = λ id. none;
  accepts_producer = true;
  to_value = λ d. some (object d.body);
}

abbrev project_fact : NormalizedArchiveEvent
project_fact = record {
  event_type = "ai_archive.project.added.v1";
  aggregate_id = 3;
  envelope = record {
    event_id = 1;
    event_type = "ai_archive.project.added.v1";
    occurred_at = 20;
    producer = "ratatoskr-chatgpt";
    aggregate_ref = record { kind = "project"; local_id = "l" };
    correlation_id = 1;
    tenant = "user:a";
    body = empty;
  };
  announced = some announced_project;
}

abbrev placement : OutboxPlacement
placement = record { account_id = some 2; export_id = some 4; deduplication_key = some "k" }

enqueue_normalized_event-IsOnce_example :
    IsOnce "k" (enqueue_normalized_event event_env project_fact placement waiting)
enqueue_normalized_event-IsOnce_example =
    enqueue_normalized_event-IsOnce event_env project_fact placement waiting "k" refl

-- The event adds its row, and its subject is announced.
enqueued :
    owners_of env 2 project 3
      (enqueue_normalized_event event_env project_fact placement waiting).1.store
    ≡ ("user:a", 6) ∷ []
unfolding enqueue_normalized_event owners_of ◌>>=◌ sql_in insert_event
enqueued = refl

abbrev erasure : OwnerErasure
erasure = record {
  owner = "user:a";
  sequences = 5 ∷ 7 ∷ [];
  request_id = 9;
  account_id = none;
  correlation_id = none;
  issued_at = 20;
  key_stem = "erasure:9";
}

erasure-AreFree : AreFree (erasure_keys erasure) removing.store.events
unfolding chunks
erasure-AreFree = record { apart = (refl, tt); free = (refl, tt) }

enqueue_owner_erasure-adds_example :
    OnOk
      (SharedOut env env-NamesCommands erasure removing.store)
      (enqueue_owner_erasure env erasure removing)
enqueue_owner_erasure-adds_example =
    enqueue_owner_erasure-adds env env-NamesCommands erasure removing erasure-AreFree

-- It succeeds, with one command.
erased : (enqueue_owner_erasure env erasure removing).0 ≡ ok tt
unfolding enqueue_owner_erasure ◌>>=◌ encode_sequences sql_in
erased = refl
