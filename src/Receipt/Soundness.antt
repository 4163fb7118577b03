-- ===== src/Receipt/Soundness.antt =====
-- The well-formedness of the rows that the receipt owns: what the schema and the writers promise to
-- whoever reads them.
pub mod Statements
use ratatoskr_chatgpt.Prelude.{
  ℕ, ◌≤◌, ◌≡◌, ◌≢◌, Bool, true, false, ◌||◌, ◌&&◌, Option, none, some, List, [], ◌∷◌, ◌++◌, ◌==◌,
  str_eq, any, Apart, All,
}
use ratatoskr_chatgpt.Import.{ImportState, received, hashed, stored, failed, duplicate, is_terminal}
use ratatoskr_chatgpt.Import.Machine.{rank}
use ratatoskr_chatgpt.Effect.Guards.{Preorder}
use ratatoskr_chatgpt.Receipt.World.{RunRow, Export, OperationRow, Db}
use ratatoskr_chatgpt.Receipt.Records.{i64_max}

abbrev pub is_present : {A : Type 0} → Option A → Bool
is_present none = false
is_present (some a) = true

-- Whether a stage is reached only by a run whose digest was recorded, or whose export was.
abbrev pub needs_digest : ImportState → Bool
needs_digest received = false
needs_digest failed = false
needs_digest _ = true

abbrev pub needs_export : ImportState → Bool
needs_export received = false
needs_export hashed = false
needs_export failed = false
needs_export duplicate = false
needs_export _ = true

abbrev pub AtMost : ℕ → Option ℕ → Type 0
AtMost limit none = Unit {0}
AtMost limit (some n) = n ≤ limit

-- A run is finished exactly at a terminal stage, holds the evidence that its stage needs, and its
-- length fits the column.
pub record IsSoundRun (r : RunRow) : Type 0 where
  pub finished : r.finished ≡ is_terminal r.state
  pub digest : needs_digest r.state ≡ true → is_present r.sha256_hex ≡ true
  pub byte_length : needs_digest r.state ≡ true → is_present r.byte_length ≡ true
  pub export : needs_export r.state ≡ true → is_present r.export_id ≡ true
  pub bounded : AtMost i64_max r.byte_length

abbrev pub same_run : RunRow → RunRow → Bool
same_run a b = a.id == b.id

-- One identity, or one digest for one account.
abbrev pub same_export : Export → Export → Bool
same_export a b = a.id == b.id || a.account_id == b.account_id && str_eq a.sha256_hex b.sha256_hex

abbrev pub same_operation : OperationRow → OperationRow → Bool
same_operation a b = a.operation_id == b.operation_id

pub record IsSound (db : Db) : Type 0 where
  pub runs_apart : Apart same_run db.runs
  pub runs_sound : All IsSoundRun db.runs
  pub exports_apart : Apart same_export db.exports
  pub exports_bounded : All (λ e. e.byte_length ≤ i64_max) db.exports
  pub operations_apart : Apart same_operation db.operations

-- The order on the rows: what was sound stays sound.
unfoldable pub staying_sound : Preorder Db
staying_sound = record {
  rel = λ db db'. IsSound db → IsSound db';
  same = λ db h. h;
  chain = λ f g h. g (f h);
}
