-- ===== src/Receipt/Tests/Outcomes.antt =====
-- Receipts, settlements and verifications that end in a small world.
use ratatoskr_chatgpt.Prelude.{true, Bool, ◌≡◌, refl, some, none, [], ◌∷◌}
use ratatoskr_chatgpt.Effect.{ok}
use ratatoskr_chatgpt.Receipt.World.{quiet, Shared}
use ratatoskr_chatgpt.Receipt.World.{Export}
use ratatoskr_chatgpt.Receipt.Settle.{duplicate, settle_hashed}
use ratatoskr_chatgpt.Receipt.Settle.Outcomes.{settle_hashed-repeats}
use ratatoskr_chatgpt.Import.{ImportState}
use ratatoskr_chatgpt.Receipt.Repository.{find_run}
use ratatoskr_chatgpt.Prelude.{Bool}
use ratatoskr_chatgpt.Receipt.Tests.{
  small_env, one_file, hashed_row, held_export, hashed_shared, hashed_context,
}

-- The same digest under the account of another tenant comes first.
abbrev foreign_export : Export
foreign_export = record held_export { id = 4; account_id = 9 }

settle_hashed-repeats_example :
    (s : Shared) × (settle_hashed small_env hashed_context none
        (quiet (hashed_shared (foreign_export ∷ held_export ∷ [])) one_file 8)
      ≡ (ok (duplicate 5 "5feceb66" 1), quiet s one_file 8))
    × (find_run 7 s.db.runs
        ≡ some (record hashed_row { state = ImportState.duplicate; finished = true }))
    × (s.db.exports ≡ foreign_export ∷ held_export ∷ [])
    × (s.db.accounts ≡ (hashed_shared []).db.accounts)
unfolding find_run
settle_hashed-repeats_example =
    settle_hashed-repeats small_env (hashed_shared (foreign_export ∷ held_export ∷ [])) one_file 8
      hashed_context hashed_row refl refl (foreign_export ∷ []) [] held_export refl refl (refl, tt)
