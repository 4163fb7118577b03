-- ===== src/Outbox/Tests.antt =====
-- Runs of the outbox on small inputs, at which the theorems about it are applied.
mod Messages
use ratatoskr_chatgpt.Prelude.{
  ℕ, zero, suc, ◌≤◌, ◌≡◌, refl, ap, subst, String, Bool, true, false, Option, none, some, List, [],
  ◌∷◌, ◌||◌, if◌then◌else◌, ◌==◌, ◌<◌, str_eq, any, map, All, length, arith, not, ◌&&◌,
}
use ratatoskr_chatgpt.Json.{
  Json, null, string, array, object, Items, nil, cons, Members, empty, member,
}
use ratatoskr_chatgpt.Effect.{Result, ok, err, ◌>>=◌}
use ratatoskr_chatgpt.Outbox.Model.{
  OutboxRow, Store, State, Env, Envelope, Turn, calm, ErasureCommand, EnqueueError, acknowledged,
  refused, unacknowledged, Candidate, Copy,
}
use ratatoskr_chatgpt.Outbox.Store.{wait, spend, sql_in, commit}
use ratatoskr_chatgpt.Outbox.Marks.{
  mark_published, backoff_seconds, set_published, is_null, not_null,
}
use ratatoskr_chatgpt.Outbox.Marks.Bounds.{
  IsAscending, backoff_seconds-bounds, set_published-merges,
}
use ratatoskr_chatgpt.Outbox.Subject.{subject_for_event_type, stored_envelope, is_content_bearing}
use ratatoskr_chatgpt.Outbox.Carry.{carried_owner, remember}
use ratatoskr_chatgpt.Outbox.Subject.Closed.{closed_event_types, subject_for_event_type-closed}
use ratatoskr_chatgpt.Outbox.Erasure.{chunks, max_sequences_per_command, NewEvent, new_row}
use ratatoskr_chatgpt.Outbox.Erasure.Commands.{NamesCommands, OnOk}
use ratatoskr_chatgpt.Outbox.Copies.{
  contains, is_settled, is_owed, IsSafe, IsOrderly, ReadsUuids, is_accounted,
}
use ratatoskr_chatgpt.Outbox.Copies.First.{IsChosen}
use ratatoskr_chatgpt.Outbox.Copies.Guarantees.{publish_rows-IsSafe}
use ratatoskr_chatgpt.Outbox.Pump.{publish_rows, publish_row, pending_in, read_candidate}
use ratatoskr_chatgpt.Outbox.Pump.Selection.{pending_in-IsChosen}
use ratatoskr_chatgpt.Outbox.Removal.{Removal, remove_published_facts}
use ratatoskr_chatgpt.Outbox.Removal.Settlement.{remove_published_facts-settles}

-- A document for each list of numbers, in unary.
spell : ℕ → Items
spell zero = nil
spell (suc n) = cons null (spell n)

spell_all : List ℕ → Items
spell_all [] = nil
spell_all (n ∷ ns) = cons (array (spell n)) (spell_all ns)

count_items : Items → ℕ
count_items nil = 0
count_items (cons j items) = suc (count_items items)

read_item : Json → ℕ
read_item (array items) = count_items items
read_item _ = 0

read_items : Items → List ℕ
read_items nil = []
read_items (cons j items) = read_item j ∷ read_items items

read_sequences : Json → List ℕ
read_sequences (array items) = read_items items
read_sequences _ = []

count_items-spell : (n : ℕ) → count_items (spell n) ≡ n
unfolding spell count_items
count_items-spell zero = refl
count_items-spell (suc n) = ap suc (count_items-spell n)

read_items-spell_all : (ns : List ℕ) → read_items (spell_all ns) ≡ ns
unfolding spell_all read_items read_item
read_items-spell_all [] = refl
read_items-spell_all (n ∷ ns) = rw (count_items-spell n, read_items-spell_all ns) refl

encode_sequences : ErasureCommand → Result EnqueueError Json
encode_sequences c = ok (array (spell_all c.stream_sequences))

document_of : Result EnqueueError Json → Json
document_of (ok j) = j
document_of (err e) = null

abbrev env : Env
env = record {
  to_vec = λ j. some (1 ∷ []);
  event_from_json = λ b. some (record { wire_type = "ai_archive.project.added.v1"; id = "e" });
  command_from_json = λ b. none;
  parse_uuid = λ s. some 9;
  spell_uuid = λ n. "u";
  is_tenant = λ s. true;
  is_request = λ n. true;
  encode_command = encode_sequences;
  named_by = read_sequences;
  mint = λ n. n;
  max_payload = 2000;
  resend_after = 600;
  resend_cap = 21600;
}

env-NamesCommands : NamesCommands env
unfolding encode_sequences read_sequences document_of
env-NamesCommands = record {
  named = λ c j e.
      subst (λ d. env.named_by d ≡ c.stream_sequences) (ap document_of e)
        (read_items-spell_all c.stream_sequences);
}

env-ReadsUuids : ReadsUuids env
env-ReadsUuids = record { event = λ b e h. refl; command = λ b e h. refl }

-- The fact of a project, announced to a tenant.
abbrev fact_event : NewEvent
fact_event = record {
  event_type = "ai_archive.project.added.v1";
  aggregate_id = 3;
  tenant_id = some 2;
  export_id = some 4;
  payload = object (member "tenant_id" (string "user:a") empty);
  correlation_id = none;
  deduplication_key = none;
}

abbrev fact_row : OutboxRow
fact_row = new_row 1 10 fact_event

abbrev store_of : OutboxRow → Store
store_of r = record { events = r ∷ []; next_id = 2; announced = []; clock = 20; delivered = [] }

abbrev failing : Turn
failing = record calm { fault = true }

-- A first publication acknowledged as 5 was not committed; the next is acknowledged as 7.
abbrev interrupted : State
interrupted = record {
  store = store_of fact_row;
  carry =
      (1, record { owner = "user:a"; event_id = 9; account_id = some 2; sequences = 5 ∷ [] }) ∷ [];
  live = true;
  copies =
      record {
        candidate = read_candidate fact_row;
        subject = "evt.ai_archive.project.added.v1";
        msg_id = "e";
        body = [];
        sequence = 5;
      }
      ∷ [];
  replies = acknowledged 7 ∷ [];
  turns = calm ∷ calm ∷ calm ∷ failing ∷ [];
  minted = 0;
}

abbrev first_only : ℕ → Bool
first_only n = n == 1

pending_in-IsChosen_example :
    (length (pending_in interrupted.store) ≤ 32)
    × All (IsChosen first_only) (pending_in interrupted.store)
unfolding is_owed read_candidate carried_owner is_content_bearing
pending_in-IsChosen_example = pending_in-IsChosen first_only interrupted.store (refl, tt)

interrupted-IsSafe : IsSafe env first_only interrupted
unfolding is_accounted read_candidate
interrupted-IsSafe = record { kept = (λ h. refl, tt); owed = (refl, tt) }

interrupted-IsOrderly : IsOrderly env first_only interrupted
interrupted-IsOrderly = record {
  others = (λ s id x o h. h, (λ s id x o h. h, (λ s id x o h. h, (λ s id x o h. h, tt))));
  replies = (omega arith, tt);
}

batch-IsChosen : All (IsChosen first_only) (pending_in interrupted.store)
unfolding is_owed read_candidate carried_owner is_content_bearing
batch-IsChosen = (pending_in-IsChosen first_only interrupted.store (refl, tt)).1

publish_rows-IsSafe_example :
    IsSafe env first_only (publish_rows env (pending_in interrupted.store) interrupted).1
publish_rows-IsSafe_example =
    publish_rows-IsSafe env first_only (pending_in interrupted.store) interrupted env-ReadsUuids
      batch-IsChosen interrupted-IsOrderly interrupted-IsSafe

-- The commit fails, and the carry holds both sequences.
carried_both :
    map
      (λ (id, e). e.sequences)
      (publish_rows env (pending_in interrupted.store) interrupted).1.carry
    ≡ (5 ∷ 7 ∷ []) ∷ []
unfolding publish_rows pending_in ◌>>=◌ subject_for_event_type stored_envelope wait spend
    publish_row remember mark_published sql_in commit
carried_both = refl

backoff_seconds-bounds_example :
    (1 ≤ backoff_seconds 3) × (backoff_seconds 3 ≤ 256) × (backoff_seconds 3 ≤ backoff_seconds 4)
backoff_seconds-bounds_example = backoff_seconds-bounds 3

set_published-merges_example :
    IsAscending (set_published env (7 ∷ 5 ∷ []) 20 fact_row).published_stream_seqs
    × ((x : ℕ)
        → contains x (set_published env (7 ∷ 5 ∷ []) 20 fact_row).published_stream_seqs
          ≡ (contains x fact_row.published_stream_seqs || contains x (7 ∷ 5 ∷ [])))
set_published-merges_example = set_published-merges env (7 ∷ 5 ∷ []) 20 fact_row

subject_for_event_type-closed_example :
    not_null (subject_for_event_type "ai_archive.project.added.v1")
    ≡ any (str_eq "ai_archive.project.added.v1") closed_event_types
subject_for_event_type-closed_example = subject_for_event_type-closed "ai_archive.project.added.v1"
