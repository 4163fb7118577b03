-- ===== src/Receipt/World.antt =====
-- What the receipt reads and writes: the rows of schema.sql that it touches, the staging files of
-- the receiver, the objects of the blob store, and the schedule of what may go wrong.
use ratatoskr_chatgpt.Prelude.{ℕ, suc, String, Bool, false, Option, List, [], ◌∷◌, if◌then◌else◌}
use ratatoskr_chatgpt.Effect.{ok, err, Exec}
use ratatoskr_chatgpt.Import.{ImportState}

-- `BlobRef`, whose digest algorithm is always SHA-256 here.
pub record BlobRef : Type 0 where
  pub owner_service : String
  pub digest_hex : String
  pub media_type : String
  pub length_bytes : ℕ

-- A row of `accounts`; identities are UUIDs, read as numbers.
pub record Account : Type 0 where
  pub id : ℕ
  pub external_kind : String
  pub external_ref : String

-- A row of `exports`.
pub record Export : Type 0 where
  pub id : ℕ
  pub ai_archive_id : ℕ
  pub account_id : ℕ
  pub acquisition_mode : String
  pub blob_ref : BlobRef
  pub sha256_hex : String
  pub byte_length : ℕ

-- A row of `import_runs`. The column `state` holds the spelling of a declared stage by its check
-- constraint; `finished` says that `finished_at` is set. Rows stand in the order of `started_at`.
pub record RunRow : Type 0 where
  pub id : ℕ
  pub account_ref : Option String
  pub acquisition_mode : Option String
  pub media_type : Option String
  pub state : ImportState
  pub sha256_hex : Option String
  pub byte_length : Option ℕ
  pub export_id : Option ℕ
  pub finished : Bool

-- A row of `platform_operation_imports`.
pub record OperationRow : Type 0 where
  pub operation_id : ℕ
  pub import_run_id : ℕ
  pub export_id : ℕ

pub record Db : Type 0 where
  pub accounts : List Account
  pub exports : List Export
  pub runs : List RunRow
  pub operations : List OperationRow

-- What other tasks of the service can change while a receipt waits: the rows and the blob objects,
-- which are named by the hex of their digest.
pub record Shared : Type 0 where
  pub db : Db
  pub objects : List (String × List ℕ)

-- One call of the database or the disk: whether it fails, and what others did just before it.
pub record Tick : Type 0 where
  pub fault : Bool
  pub others : Shared → Shared

-- `ticks` is the schedule: a call beyond its end works and is not preceded by others. A staging
-- file is named by its run. `minted` counts the identities handed out.
pub record World : Type 0 where
  pub shared : Shared
  pub open shared use *
  pub files : List (ℕ × List ℕ)
  pub ticks : List Tick
  pub minted : ℕ

-- What the service does not implement: the lowercase hex of a SHA-256, the grammar of media types
-- and the UUID generator; and the configured maximum.
pub record Env : Type 0 where
  pub sha256_hex : List ℕ → String
  pub is_media_type : String → Bool
  pub mint : ℕ → ℕ
  pub max_archive_bytes : ℕ

-- `std::io::Error` by the one kind that the service tells apart.
pub data IoError : Type 0 where
  not_found other : IoError

abbrev pub drop_tick : List Tick → List Tick
drop_tick [] = []
drop_tick (t ∷ ts) = ts

abbrev pub faulty : List Tick → Bool
faulty [] = false
faulty (t ∷ ts) = t.fault

abbrev pub meddle : List Tick → Shared → Shared
meddle [] s = s
meddle (t ∷ ts) s = t.others s

-- The world when the next call has been answered, and whether it failed.
unfoldable pub spend : World → World × Bool
spend w = (record w { ticks = drop_tick w.ticks }, faulty w.ticks)

-- The same where others may have come first.
unfoldable pub wait : World → World × Bool
unfolding spend
wait w = spend (record w { shared = meddle w.ticks w.shared })

-- A call of the file system.
unfoldable pub io : Exec IoError World Unit
unfolding spend
io w = let (w', fault) = spend w in (if fault then err other else ok tt, w')

unfoldable pub mint_id : {E : Type 0} → Env → Exec E World ℕ
mint_id env w = (ok (env.mint w.minted), record w { minted = suc w.minted })

-- A world whose schedule is empty: every call works and nobody comes first.
abbrev pub quiet : Shared → List (ℕ × List ℕ) → ℕ → World
quiet s files minted = record { shared = s; files = files; ticks = []; minted = minted }
