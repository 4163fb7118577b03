-- ===== src/Receipt/Orderly.antt =====
-- What statements and other writers have to satisfy for an order on the rows to be kept by the
-- operations of crates/chatgpt-archive/src/receipt.
use ratatoskr_chatgpt.Prelude.{ℕ, false, String, ◌≡◌, some, All, List}
use ratatoskr_chatgpt.Import.{ImportState, received, hashed, failed, duplicate, is_terminal}
use ratatoskr_chatgpt.Effect.{Exec}
use ratatoskr_chatgpt.Effect.Guards.{Preorder, Guards}
use ratatoskr_chatgpt.Receipt.Mode.{AcquisitionMode}
use ratatoskr_chatgpt.Receipt.World.{Db, OperationRow, Shared, Tick, World}
use ratatoskr_chatgpt.Receipt.Records.{PublishRequest, to_i64}
use ratatoskr_chatgpt.Receipt.Sql.{Statement, sits_at, update_runs}
use ratatoskr_chatgpt.Receipt.Repository.{fresh_run, insert_run, set_hashed, set_state}
use ratatoskr_chatgpt.Receipt.Publish.{
  new_export, insert_operation, upsert_account, insert_export, set_stored,
}

-- The others keep the order.
abbrev pub AreOrderly : Preorder Db → List Tick → Type 0
AreOrderly R = All (λ t. (s : Shared) → R.rel s.db (t.others s).db)

-- From a world whose others keep the order, the rows after are related to those before, and the
-- others to come keep the order still.
unfoldable pub keeping : Preorder Db → Preorder World
keeping R = record {
  rel = λ w w'. AreOrderly R w.ticks → AreOrderly R w'.ticks × R.rel w.db w'.db;
  same = λ w o. (o, R.same w.db);
  chain = λ g h o. let (o', f) = g o in let (o'', f') = h o' in (o'', R.chain f f');
}

-- A statement that, where it is not refused, keeps the order.
pub record Respects {A : Type 0} (R : Preorder Db) (st : Statement A) : Type 0 where
  pub at : (db : Db) (a : A) (db' : Db) → st db ≡ some (a, db') → R.rel db db'

-- Every statement by which a receipt writes keeps the order; a run is marked as a duplicate from
-- `hashed` only, and as failed from any stage that is not terminal.
pub record Accepts (R : Preorder Db) : Type 0 where
  pub creates :
      (id : ℕ) (account : String) (mode : AcquisitionMode) (media_type : String)
      → Respects R (insert_run (fresh_run id account mode media_type))
  pub hashes :
      (id : ℕ) (sha256_hex : String) (byte_length : ℕ)
      → Respects R (update_runs (sits_at id received) (set_hashed sha256_hex (to_i64 byte_length)))
  pub fails :
      (id : ℕ) (expected : ImportState)
      → is_terminal expected ≡ false
      → Respects R (update_runs (sits_at id expected) (set_state failed))
  pub repeats : (id : ℕ) → Respects R (update_runs (sits_at id hashed) (set_state duplicate))
  pub stores :
      (id export_id : ℕ) → Respects R (update_runs (sits_at id hashed) (set_stored export_id))
  pub binds : (row : OperationRow) → Respects R (insert_operation row)
  pub owns : (id : ℕ) (account : String) → Respects R (upsert_account id account)
  pub exports :
      (request : PublishRequest) (export_id ai_archive_id account_id : ℕ)
      → Respects R (insert_export (new_export request export_id ai_archive_id account_id))

-- An operation that keeps the order relates the rows before it to those after.
pub kept :
    (R : Preorder Db) {E A : Type 0} (m : Exec E World A)
    → Guards (keeping R) m
    → (w : World) → AreOrderly R w.ticks
    → R.rel w.db (m w).1.db
unfolding keeping
kept R m keeps w orderly = (keeps.at w orderly).1
