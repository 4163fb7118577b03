-- ===== src/Outbox/Copies.antt =====
-- The stream copies that the pump of crates/chatgpt-archive/src/receipt/outbox answers for, and
-- where it keeps count of them: a row of the outbox, the carry, or a command to erase them.
pub mod Sequences
pub mod Steps
pub mod Ending
pub mod First
pub mod Guarantees
use ratatoskr_chatgpt.Prelude.{
  ℕ, ◌≡◌, ◌≤◌, Bool, true, false, List, some, ◌&&◌, ◌||◌, ◌==◌, any, All, str_eq,
}
use ratatoskr_chatgpt.Effect.Guards.{Preorder}
use ratatoskr_chatgpt.Receipt.Records.{i64_max}
use ratatoskr_chatgpt.Outbox.Model.{
  OutboxRow, Carried, Candidate, Copy, Reply, acknowledged, refused, Turn, Store, State, Env,
  Envelope,
}
use ratatoskr_chatgpt.Outbox.Subject.{stream_erasure_command}
use ratatoskr_chatgpt.Outbox.Marks.{not_null}
use ratatoskr_chatgpt.Outbox.Carry.{carried_owner, sequences_of}

abbrev pub contains : ℕ → List ℕ → Bool
contains n = any (λ m. m == n)

-- The row `id` records the sequence.
abbrev pub records : ℕ → ℕ → OutboxRow → Bool
records id sequence r = r.id == id && contains sequence r.published_stream_seqs

-- The row is a command to erase the sequence.
abbrev pub erases : Env → ℕ → OutboxRow → Bool
erases env sequence r =
    str_eq r.event_type stream_erasure_command && contains sequence (env.named_by r.payload)

unfoldable pub is_settled : Env → ℕ → ℕ → Store → Bool
is_settled env id sequence s =
    any (records id sequence) s.events
    || any (erases env sequence) s.events
    || contains sequence s.delivered

unfoldable pub is_accounted : Env → Store → List (ℕ × Carried) → ℕ → ℕ → Bool
unfolding is_settled sequences_of
is_accounted env s carry id sequence =
    contains sequence (sequences_of id carry) || is_settled env id sequence s

-- The pump answers for a copy that carries content of an owner.
unfoldable pub is_owed : Candidate → Bool
unfolding carried_owner
is_owed c = not_null (carried_owner c)

abbrev pub IsKept : Env → (ℕ → Bool) → Store → List (ℕ × Carried) → Copy → Type 0
IsKept env owes s carry copy =
    owes copy.candidate.id ≡ true → is_accounted env s carry copy.candidate.id copy.sequence ≡ true

-- `owes` says which rows have documents that carry content of an owner: a row's type and document
-- never change, and no identity is given twice, so the identity decides it. Every copy of such a row
-- is accounted for, and only such rows have entries in the carry.
pub record IsSafe (env : Env) (owes : ℕ → Bool) (w : State) : Type 0 where
  pub kept : All (IsKept env owes w.store w.carry) w.copies
  pub owed : All (λ (id, entry). owes id ≡ true) w.carry

-- What others do between two calls settles whatever was settled: who deletes a row asks for the
-- erasure of what it records.
abbrev pub Settles : Env → (ℕ → Bool) → (Store → Store) → Type 0
Settles env owes f =
    (s : Store) (id sequence : ℕ)
    → owes id ≡ true
    → is_settled env id sequence s ≡ true
    → is_settled env id sequence (f s) ≡ true

abbrev pub Fits : Reply → Type 0
Fits (acknowledged sequence) = sequence ≤ i64_max
Fits (refused fault) = Unit

-- Others settle what they delete, and the broker's sequences fit the column.
pub record IsOrderly (env : Env) (owes : ℕ → Bool) (w : State) : Type 0 where
  pub others : All (λ t. Settles env owes t.others) w.turns
  pub replies : All Fits w.replies

-- The identity of an envelope that its reader accepts is the spelling of a UUID.
pub record ReadsUuids (env : Env) : Type 0 where
  pub event :
      (bytes : List ℕ) (e : Envelope)
      → env.event_from_json bytes ≡ some e
      → not_null (env.parse_uuid e.id) ≡ true
  pub command :
      (bytes : List ℕ) (e : Envelope)
      → env.command_from_json bytes ≡ some e
      → not_null (env.parse_uuid e.id) ≡ true

unfoldable pub keeping_copies : Env → (ℕ → Bool) → Preorder State
keeping_copies env owes = record {
  rel =
      λ w w'. IsOrderly env owes w → IsSafe env owes w → IsOrderly env owes w' × IsSafe env owes w';
  same = λ w o safe. (o, safe);
  chain = λ g h o safe. let (o', safe') = g o safe in h o' safe';
}
