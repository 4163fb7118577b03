-- ===== src/Receipt/Tests.antt =====
-- Small worlds for the receipt of crates/chatgpt-archive/src/receipt.
mod Guarantees
mod Blobs
mod Outcomes
use ratatoskr_chatgpt.Prelude.{
  Bool, ℕ, ◌≡◌, ◌<◌, refl, String, true, false, some, none, List, [], ◌∷◌, arith, length,
}
use ratatoskr_chatgpt.Effect.{ok, err}
use ratatoskr_chatgpt.Import.{is_terminal}
use ratatoskr_chatgpt.Receipt.Mode.{consumer_export}
use ratatoskr_chatgpt.Receipt.World.{quiet, Db, Shared, Tick, World, Env}
use ratatoskr_chatgpt.Receipt.BlobStore.{file}
use ratatoskr_chatgpt.Receipt.BlobStore.{missing, object, store, verify, erase, register_blob}
use ratatoskr_chatgpt.Receipt.BlobStore.Contents.{
  ref_of, store-verify, erase-verify, register_blob-verify, register_blob-corrupt,
}
use ratatoskr_chatgpt.Receipt.Settle.{staging_evidence_lost}
use ratatoskr_chatgpt.Receipt.World.{RunRow, Export}
use ratatoskr_chatgpt.Receipt.Publish.{find_account, find_digest, account_is, set_stored}
use ratatoskr_chatgpt.Receipt.Settle.{HashedContext, stored, duplicate, settle_hashed}
use ratatoskr_chatgpt.Receipt.Settle.Outcomes.{settle_hashed-repeats}
use ratatoskr_chatgpt.Import.{hashed, ImportState}
use ratatoskr_chatgpt.Prelude.{inl, inr}
use ratatoskr_chatgpt.Receipt.Records.{to_i64}
use ratatoskr_chatgpt.Receipt.Repository.{set_hashed}
use ratatoskr_chatgpt.Receipt.Repository.{find_run, set_state}
use ratatoskr_chatgpt.Receipt.Resume.{verify_staged}
use ratatoskr_chatgpt.Prelude.{str_eq, Bool}
use ratatoskr_chatgpt.Import.{failed}
use ratatoskr_chatgpt.Receipt.Repository.{fresh_run}
use ratatoskr_chatgpt.Receipt.Staging.{overgrown, u64_max, stream_to_staging}
use ratatoskr_chatgpt.Receipt.Staging.Contents.{
  joined, chunks, stream_to_staging-fits, stream_to_staging-exceeds,
}
use ratatoskr_chatgpt.Receipt.Receiver.{Upload, receive_inner}
use ratatoskr_chatgpt.Receipt.Receiver.Guarantees.{receive_inner-Follows, receive_inner-IsSound}
use ratatoskr_chatgpt.Receipt.Resume.{resume, sweep_interrupted}
use ratatoskr_chatgpt.Receipt.Resume.Guarantees.{resume-IsSound, sweep_interrupted-IsSound}
use ratatoskr_chatgpt.Receipt.Orderly.{AreOrderly}
use ratatoskr_chatgpt.Receipt.Soundness.{IsSoundRun, IsSound, staying_sound}

abbrev hex_of : List ℕ → String
hex_of [] = "e3b0c442"
hex_of (b ∷ bs) = "5feceb66"

abbrev small_env : Env
small_env = record {
  sha256_hex = hex_of;
  is_media_type = λ t. true;
  mint = λ n. n;
  max_archive_bytes = 4;
}

abbrev one_run : Db
one_run = record {
  accounts = [];
  exports = [];
  runs = fresh_run 7 "tenant" consumer_export "application/zip" ∷ [];
  operations = [];
}

abbrev one_shared : Shared
one_shared = record { db = one_run; objects = [] }

abbrev works_then_fails : List Tick
works_then_fails =
    record { fault = false; others = λ s. s } ∷ record { fault = true; others = λ s. s } ∷ []

abbrev shaky : World
shaky = record { shared = one_shared; files = []; ticks = works_then_fails; minted = 8 }

abbrev upload : Upload
upload = record {
  tenant = "tenant";
  mode = consumer_export;
  media_type = "application/zip";
  declared_length = some 3;
  expectations = record { expected_sha256_hex = none; platform_operation = none };
}

abbrev body : List (List ℕ)
body = (1 ∷ 2 ∷ []) ∷ (3 ∷ []) ∷ []

abbrev large_body : List (List ℕ)
large_body = (1 ∷ 2 ∷ []) ∷ (3 ∷ 4 ∷ 5 ∷ []) ∷ []

abbrev one_file : List (ℕ × List ℕ)
one_file = (7, 1 ∷ []) ∷ []

nothing_old : (old : List ℕ) → object "5feceb66" [] ≡ some old → old ≡ 1 ∷ []
unfolding object
nothing_old old e = cc

abbrev stored_shared : Shared
stored_shared = record { db = one_run; objects = ("5feceb66", 1 ∷ []) ∷ [] }

abbrev corrupt_shared : Shared
corrupt_shared = record { db = one_run; objects = ("5feceb66", []) ∷ [] }

-- A hashed run of an account that is known, with its body staged.
abbrev hashed_row : RunRow
hashed_row = record {
  id = 7;
  account_ref = some "tenant";
  acquisition_mode = some "consumer_export";
  media_type = some "application/zip";
  state = hashed;
  sha256_hex = some "5feceb66";
  byte_length = some 1;
  export_id = none;
  finished = false;
}

abbrev held_export : Export
held_export = record {
  id = 5;
  ai_archive_id = 6;
  account_id = 3;
  acquisition_mode = "consumer_export";
  blob_ref = ref_of small_env "application/zip" (1 ∷ []);
  sha256_hex = "5feceb66";
  byte_length = 1;
}

abbrev hashed_shared : List Export → Shared
hashed_shared exports = record {
  db = record {
    accounts = record { id = 3; external_kind = "personal"; external_ref = "tenant" } ∷ [];
    exports = exports;
    runs = hashed_row ∷ [];
    operations = [];
  };
  objects = [];
}

abbrev hashed_context : HashedContext
hashed_context = record {
  run_id = 7;
  tenant = "tenant";
  mode_spelling = "consumer_export";
  media_type = "application/zip";
  sha256_hex = "5feceb66";
  byte_length = 1;
}

below : small_env.max_archive_bytes < u64_max
below = omega arith
