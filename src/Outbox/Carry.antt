-- ===== src/Outbox/Carry.antt =====
-- crates/chatgpt-archive/src/receipt/outbox/carry.rs: the copies that the broker acknowledged and
-- the database never recorded, and their erasure when the row is gone.
use Prim.Native.String
use ratatoskr_chatgpt.Prelude.{
  ℕ, String, Bool, Option, none, some, List, [], ◌∷◌, if◌then◌else◌, ◌==◌, ltb, any,
}
use ratatoskr_chatgpt.Json.{get_text}
use ratatoskr_chatgpt.Effect.{ok, err, Exec, pure, raise, gets, map_err, ◌>>=◌, ◌>>◌}
use ratatoskr_chatgpt.Receipt.Records.{i64_max}
use ratatoskr_chatgpt.Outbox.Model.{
  OutboxRow, Carried, Candidate, State, Env, PublishError, database, encode, invalid_row,
  EnqueueError, invalid, unstored, unencoded,
}
use ratatoskr_chatgpt.Outbox.Store.{sql, sql_in, transaction}
use ratatoskr_chatgpt.Outbox.Subject.{is_content_bearing}
use ratatoskr_chatgpt.Outbox.Marks.{insert_sequence}
use ratatoskr_chatgpt.Outbox.Erasure.{OwnerErasure, enqueue_owner_erasure}

-- The owner that a candidate's copies are carried under: only content-bearing facts are carried.
unfoldable pub carried_owner : Candidate → Option String
unfolding is_content_bearing
carried_owner c = if is_content_bearing c.event_type then get_text "tenant_id" c.payload else none

-- The sequences that the map holds for a row; none where it has no entry.
unfoldable pub sequences_of : ℕ → List (ℕ × Carried) → List ℕ
sequences_of id [] = []
sequences_of id ((i, e) ∷ entries) =
    let rest = sequences_of id entries in if i == id then e.sequences else rest

unfoldable pub fresh_entry : Candidate → String → ℕ → ℕ → Carried
fresh_entry c owner event_id sequence = record {
  owner = owner;
  event_id = event_id;
  account_id = c.account_id;
  sequences = sequence ∷ [];
}

-- `entries.entry(id).or_insert_with(…)` and the insertion of the sequence.
unfoldable pub note_copy : Candidate → String → ℕ → ℕ → List (ℕ × Carried) → List (ℕ × Carried)
unfolding fresh_entry insert_sequence
note_copy c owner event_id sequence [] = (c.id, fresh_entry c owner event_id sequence) ∷ []
note_copy c owner event_id sequence ((i, e) ∷ entries) =
    let rest = note_copy c owner event_id sequence entries in
    if i == c.id
    then (i, record e { sequences = insert_sequence sequence e.sequences }) ∷ entries
    else (i, e) ∷ rest

unfoldable pub keep_copy : Candidate → String → ℕ → Option ℕ → Exec PublishError State (List ℕ)
unfolding note_copy sequences_of
keep_copy c owner sequence none w = (err invalid_row, w)
keep_copy c owner sequence (some event_id) w =
    let carry = note_copy c owner event_id sequence w.carry in
    (ok (sequences_of c.id carry), record w { carry = carry })

unfoldable pub remember_for :
    Env → Candidate → String → ℕ → Option String → Exec PublishError State (List ℕ)
unfolding keep_copy
remember_for env c event_id sequence none = pure (sequence ∷ [])
remember_for env c event_id sequence (some owner) =
    keep_copy c owner sequence (env.parse_uuid event_id)

unfoldable pub remember : Env → Candidate → String → ℕ → Exec PublishError State (List ℕ)
unfolding remember_for carried_owner
remember env c event_id sequence =
    if ltb i64_max sequence
    then raise invalid_row
    else remember_for env c event_id sequence (carried_owner c)

unfoldable pub drop_entry : ℕ → List (ℕ × Carried) → List (ℕ × Carried)
drop_entry id [] = []
drop_entry id ((i, e) ∷ entries) =
    let rest = drop_entry id entries in if i == id then rest else (i, e) ∷ rest

unfoldable pub forget : {E : Type 0} → ℕ → Exec E State Unit
unfolding drop_entry
forget id w = (ok tt, record w { carry = drop_entry id w.carry })

-- `SELECT id FROM outbox_events WHERE id = ANY($1)`
unfoldable pub is_present : ℕ → List OutboxRow → Bool
is_present id rows = any (λ r. r.id == id) rows

publish_error : EnqueueError → PublishError
publish_error invalid = invalid_row
publish_error unstored = database
publish_error unencoded = encode

unfoldable pub orphan_erasure : Env → Carried → ℕ → OwnerErasure
orphan_erasure env entry now = record {
  owner = entry.owner;
  sequences = entry.sequences;
  request_id = entry.event_id;
  account_id = entry.account_id;
  correlation_id = none;
  issued_at = now;
  key_stem = String.◌++◌ "stream-erasure:reconcile:" (env.spell_uuid entry.event_id);
}

-- Asks for the erasure of an orphaned entry, in one transaction, and drops the entry.
unfoldable pub erase_orphan : Env → ℕ → Carried → Exec PublishError State Unit
unfolding orphan_erasure publish_error enqueue_owner_erasure
erase_orphan env id entry = do
  transaction database (do
    now ← sql_in database (λ s. (s.clock, s))
    map_err publish_error (enqueue_owner_erasure env (orphan_erasure env entry now)))
  forget id

unfoldable pub erase_orphans :
    Env → List OutboxRow → List (ℕ × Carried) → Exec PublishError State Unit
unfolding erase_orphan is_present
erase_orphans env rows [] = pure tt
erase_orphans env rows ((id, entry) ∷ entries) = do
  if is_present id rows then pure tt else erase_orphan env id entry
  erase_orphans env rows entries

unfoldable pub reconcile_entries : Env → List (ℕ × Carried) → Exec PublishError State Unit
unfolding erase_orphans
reconcile_entries env [] = pure tt
reconcile_entries env (entry ∷ entries) = do
  rows ← sql database (λ s. (s.events, s))
  erase_orphans env rows (entry ∷ entries)

unfoldable pub reconcile_carried : Env → Exec PublishError State Unit
unfolding reconcile_entries
reconcile_carried env = do carried ← gets (λ w. w.carry); reconcile_entries env carried
