-- ===== src/Outbox/Removal.antt =====
-- crates/chatgpt-archive/src/privacy_deletion/erasure.rs: the removal of outbox rows by a privacy
-- deletion, which asks Edge to erase the stream copies of the facts that it removes.
pub mod Settlement
use Prim.Native.String
use ratatoskr_chatgpt.Prelude.{
  ℕ, String, Bool, true, false, Option, none, some, List, [], ◌∷◌, ◌++◌, not, ◌&&◌, ◌||◌,
  if◌then◌else◌, ◌==◌, any, str_eq,
}
use ratatoskr_chatgpt.Json.{column_text}
use ratatoskr_chatgpt.Effect.{Exec, pure, map_err, ◌>>=◌, ◌>>◌}
use ratatoskr_chatgpt.Reconciliation.OrderedMap.{OrderedMap, lookup, insert}
use ratatoskr_chatgpt.Reconciliation.OrderedMap
use ratatoskr_chatgpt.Outbox.Model.{
  OutboxRow, Store, State, Env, EnqueueError, invalid, unstored, unencoded,
}
use ratatoskr_chatgpt.Outbox.Store.{Statement, sql_in, select}
use ratatoskr_chatgpt.Outbox.Subject.{is_content_bearing, stream_erasure_command}
use ratatoskr_chatgpt.Outbox.Marks.{insert_sequence, not_null}
use ratatoskr_chatgpt.Outbox.Erasure.{OwnerErasure, enqueue_owner_erasure}

-- The errors of `PrivacyDeletionError` that the removal can answer.
pub data RemovalError : Type 0 where
  stream_erasure row_store row_encoding : RemovalError

-- The arguments: the durable request's tenant and correlation, the request and its instant, the
-- outbox rows and the exports that are deleted.
pub record Removal : Type 0 where
  pub tenant_id : ℕ
  pub correlation_id : Option ℕ
  pub request_id : ℕ
  pub issued_at : ℕ
  pub outbox_ids : List ℕ
  pub exports : List ℕ

abbrev in_exports : List ℕ → Option ℕ → Bool
in_exports exports none = false
in_exports exports (some id) = any (λ e. e == id) exports

-- `id = ANY($1) OR export_id = ANY($2)`
unfoldable pub is_dropped : Removal → OutboxRow → Bool
is_dropped removal r =
    any (λ i. i == r.id) removal.outbox_ids || in_exports removal.exports r.export_id

abbrev pub is_command : OutboxRow → Bool
is_command r = str_eq r.event_type stream_erasure_command

-- What the published commands among the rows name.
unfoldable pub delivered_by : Env → List OutboxRow → List ℕ
delivered_by env [] = []
delivered_by env (r ∷ rs) =
    let rest = delivered_by env rs in
    if is_command r && not_null r.published_at then env.named_by r.payload ++ rest else rest

-- `event_type = ANY($3) AND owner IS NOT NULL`
unfoldable pub fact_owner : OutboxRow → Option String
unfolding is_content_bearing
fact_owner r = if is_content_bearing r.event_type then column_text "tenant_id" r.payload else none

-- The sequences of one owner; none where there is no entry.
unfoldable pub sequences_at : String → OrderedMap (List ℕ) → List ℕ
sequences_at owner m = elim (lookup owner m) [ none ↦ [] | some ns ↦ ns ]

-- `entry(owner).or_default().insert(sequence)` for each of the sequences.
unfoldable pub add_sequences : String → List ℕ → OrderedMap (List ℕ) → OrderedMap (List ℕ)
unfolding sequences_at insert_sequence
add_sequences owner [] m = m
add_sequences owner (n ∷ ns) m =
    add_sequences owner ns (insert owner (insert_sequence n (sequences_at owner m)) m)

unfoldable pub add_facts : Option String → List ℕ → OrderedMap (List ℕ) → OrderedMap (List ℕ)
unfolding add_sequences
add_facts none ns m = m
add_facts (some owner) ns m = add_sequences owner ns m

unfoldable pub facts_of : List OutboxRow → OrderedMap (List ℕ) → OrderedMap (List ℕ)
unfolding add_facts fact_owner
facts_of [] m = m
facts_of (r ∷ rs) m = facts_of rs (add_facts (fact_owner r) r.published_stream_seqs m)

unfoldable pub drop_rows : Env → Removal → Statement (List OutboxRow)
unfolding is_dropped delivered_by select
drop_rows env removal s = (
  select (is_dropped removal) s.events,
  record s {
    events = select (λ r. not (is_dropped removal r)) s.events;
    delivered = s.delivered ++ delivered_by env (select (is_dropped removal) s.events);
  },
)

unfoldable pub drop_published_fact_rows :
    Env → Removal → Exec RemovalError State (OrderedMap (List ℕ))
unfolding drop_rows facts_of
drop_published_fact_rows env removal = do
  dropped ← sql_in row_store (drop_rows env removal)
  pure (facts_of dropped [])

removal_error : EnqueueError → RemovalError
removal_error invalid = stream_erasure
removal_error unstored = row_store
removal_error unencoded = row_encoding

abbrev pub owner_erasure : Env → Removal → String → List ℕ → OwnerErasure
owner_erasure env removal owner sequences = record {
  owner = owner;
  sequences = sequences;
  request_id = removal.request_id;
  account_id = some removal.tenant_id;
  correlation_id = removal.correlation_id;
  issued_at = removal.issued_at;
  key_stem =
      String.◌++◌ "stream-erasure:"
        (String.◌++◌ (env.spell_uuid removal.request_id) (String.◌++◌ ":" owner));
}

unfoldable pub enqueue_erasure_commands :
    Env → Removal → OrderedMap (List ℕ) → Exec RemovalError State Unit
unfolding removal_error enqueue_owner_erasure
enqueue_erasure_commands env removal [] = pure tt
enqueue_erasure_commands env removal ((owner, sequences) ∷ facts) = do
  map_err removal_error (enqueue_owner_erasure env (owner_erasure env removal owner sequences))
  enqueue_erasure_commands env removal facts

-- The two steps of a deletion that concern the outbox, one after the other.
unfoldable pub remove_published_facts : Env → Removal → Exec RemovalError State Unit
unfolding drop_published_fact_rows
remove_published_facts env removal = do
  facts ← drop_published_fact_rows env removal
  enqueue_erasure_commands env removal facts
