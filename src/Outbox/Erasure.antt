-- ===== src/Outbox/Erasure.antt =====
-- crates/chatgpt-archive/src/stream_erasure.rs: the commands that ask Edge to erase stream
-- messages. Sequences are never negative here, so their conversion to `u64` cannot fail.
pub mod Chunks
pub mod Commands
pub mod Added
use Prim.Native.Nat.{◌/◌, ◌%◌}
use Prim.Native.String
use ratatoskr_chatgpt.Prelude.{
  ℕ, zero, suc, ◌-◌, String, Bool, true, false, Option, none, some, List, [], ◌∷◌, ◌++◌,
  if◌then◌else◌, ltb, any, str_eq, ◌&&◌,
}
use ratatoskr_chatgpt.Json.{Json}
use ratatoskr_chatgpt.Effect.{Result, ok, err, Exec, pure, raise, ◌>>=◌, ◌>>◌}
use ratatoskr_chatgpt.Outbox.Model.{
  OutboxRow, State, Env, EnqueueError, invalid, unstored, ErasureCommand,
}
use ratatoskr_chatgpt.Outbox.Store.{Statement, sql_in}
use ratatoskr_chatgpt.Outbox.Subject.{stream_erasure_command}

-- What an `INSERT INTO outbox_events` gives; the other columns take their defaults.
pub record NewEvent : Type 0 where
  pub event_type : String
  pub aggregate_id : ℕ
  pub tenant_id : Option ℕ
  pub export_id : Option ℕ
  pub payload : Json
  pub correlation_id : Option ℕ
  pub deduplication_key : Option String

abbrev pub has_key : String → OutboxRow → Bool
has_key key r = elim r.deduplication_key [ none ↦ false | some k ↦ str_eq k key ]

abbrev pub key_taken : Option String → List OutboxRow → Bool
key_taken none rows = false
key_taken (some key) rows = any (has_key key) rows

abbrev pub new_row : ℕ → ℕ → NewEvent → OutboxRow
new_row id now e = record {
  id = id;
  event_type = e.event_type;
  aggregate_id = e.aggregate_id;
  tenant_id = e.tenant_id;
  export_id = e.export_id;
  payload = e.payload;
  correlation_id = e.correlation_id;
  deduplication_key = e.deduplication_key;
  created_at = now;
  published_at = none;
  attempt_count = 0;
  last_error = none;
  next_attempt_at = now;
  undeliverable_at = none;
  acknowledged_at = none;
  ack_outcome = none;
  resend_count = 0;
  next_resend_at = none;
  published_stream_seqs = [];
}

-- `INSERT … ON CONFLICT (deduplication_key) … DO NOTHING`: whether a row was added.
unfoldable pub insert_event : NewEvent → Statement Bool
insert_event e s = if key_taken e.deduplication_key s.events then (false, s) else (
  true,
  record s { events = s.events ++ new_row s.next_id s.clock e ∷ []; next_id = suc s.next_id },
)

-- `OwnerErasure`
pub record OwnerErasure : Type 0 where
  pub owner : String
  pub sequences : List ℕ
  pub request_id : ℕ
  pub account_id : Option ℕ
  pub correlation_id : Option ℕ
  pub issued_at : ℕ
  pub key_stem : String

abbrev pub max_sequences_per_command : ℕ
max_sequences_per_command = 500

-- `chunks` of the standard library's slices: the chunk that has room for `room` more, and the chunks
-- after it.
unfoldable pub fill_chunk : ℕ → ℕ → List ℕ → List ℕ × List (List ℕ)
fill_chunk size room [] = ([], [])
fill_chunk size zero (x ∷ xs) = let (c, cs) = fill_chunk size (size - 1) xs in ([], (x ∷ c) ∷ cs)
fill_chunk size (suc room) (x ∷ xs) = let (c, cs) = fill_chunk size room xs in (x ∷ c, cs)

-- As the erasure calls it, on the sequences and the bound.
unfoldable pub chunks : ℕ → List ℕ → List (List ℕ)
unfolding fill_chunk
chunks size xs = (fill_chunk size 0 xs).1

abbrev digit : ℕ → String
digit n = String.◌∷◌ (String.char_at "0123456789" n) String.[]

-- The decimal spelling of a number; each round divides by ten, so `fuel` above the number is enough.
decimal_from : ℕ → ℕ → String
decimal_from zero n = ""
decimal_from (suc fuel) n =
    let front = decimal_from fuel (n / 10) in
    if ltb n 10 then digit n else String.◌++◌ front (digit (n % 10))

unfoldable pub decimal : ℕ → String
unfolding decimal_from
decimal n = decimal_from (suc n) n

-- `format!("{key_stem}:{index}")`
unfoldable pub chunk_key : String → ℕ → String
unfolding decimal
chunk_key key_stem index = String.◌++◌ key_stem (String.◌++◌ ":" (decimal index))

abbrev or_own : ℕ → Option ℕ → ℕ
or_own own none = own
or_own own (some id) = id

new_command_id : Env → Exec EnqueueError State ℕ
new_command_id env w = (ok (env.mint w.minted), record w { minted = suc w.minted })

abbrev pub command_event : OwnerErasure → String → ℕ → Json → NewEvent
command_event erasure key correlation document = record {
  event_type = stream_erasure_command;
  aggregate_id = erasure.request_id;
  tenant_id = erasure.account_id;
  export_id = none;
  payload = document;
  correlation_id = some correlation;
  deduplication_key = some key;
}

abbrev pub command_of : OwnerErasure → List ℕ → ℕ → ErasureCommand
command_of erasure chunk command_id = record {
  command_id = command_id;
  issued_at = erasure.issued_at;
  request_id = erasure.request_id;
  correlation_id = or_own command_id erasure.correlation_id;
  owner = erasure.owner;
  stream_sequences = chunk;
}

store_command : OwnerErasure → ℕ → ℕ → Result EnqueueError Json → Exec EnqueueError State Unit
unfolding insert_event
store_command erasure index command_id (err e) = raise e
store_command erasure index command_id (ok document) = do
  sql_in unstored (
      insert_event (
        command_event erasure (chunk_key erasure.key_stem index)
          (or_own command_id erasure.correlation_id) document))
  pure tt

unfoldable pub enqueue_chunk : Env → OwnerErasure → ℕ → List ℕ → Exec EnqueueError State Unit
unfolding new_command_id store_command chunk_key
enqueue_chunk env erasure index chunk = do
  command_id ← new_command_id env
  store_command erasure index command_id (env.encode_command (command_of erasure chunk command_id))

unfoldable pub enqueue_chunks :
    Env → OwnerErasure → ℕ → List (List ℕ) → Exec EnqueueError State Unit
unfolding enqueue_chunk
enqueue_chunks env erasure index [] = pure tt
enqueue_chunks env erasure index (chunk ∷ rest) = do
  enqueue_chunk env erasure index chunk
  enqueue_chunks env erasure (suc index) rest

unfoldable pub enqueue_owner_erasure : Env → OwnerErasure → Exec EnqueueError State Unit
unfolding enqueue_chunks chunks
enqueue_owner_erasure env erasure =
    if env.is_request erasure.request_id && env.is_tenant erasure.owner
    then enqueue_chunks env erasure 0 (chunks max_sequences_per_command erasure.sequences)
    else raise invalid
