-- ===== src/Receipt/Repository/Quiet.antt =====
-- What the operations on import runs answer and leave, when no call fails and nobody else writes.
use ratatoskr_chatgpt.Prelude.{
  ℕ, ◌≡◌, refl, subst, String, Bool, true, false, some, List, [], ◌∷◌, ◌==◌, arith, str_eq_iff,
}
use ratatoskr_chatgpt.Effect.{ok, pure, ◌>>=◌}
use ratatoskr_chatgpt.Import.{ImportState, received, as_str}
use ratatoskr_chatgpt.Receipt.World.{RunRow, Shared, quiet, wait}
use ratatoskr_chatgpt.Receipt.Records.{to_i64}
use ratatoskr_chatgpt.Receipt.Sql.{
  sql, answer, affected, update, update_runs, sits_at, is_state, unless_conflict,
}
use ratatoskr_chatgpt.Receipt.Repository.{find_run, record_hash, mark_run, set_hashed, set_state}

abbrev pub with_runs : Shared → List RunRow → Shared
with_runs s runs = record s { db = record s.db { runs = runs } }

find_run-id :
    (id : ℕ) (rs : List RunRow) (r : RunRow) → find_run id rs ≡ some r → (r.id == id) ≡ true
unfolding find_run
find_run-id id [] r e = cc
find_run-id id (x ∷ rs) r e = ground (arith, find_run-id id rs r)

is_state_self : (s : ImportState) → is_state s s ≡ true
unfolding is_state
is_state_self s = (str_eq_iff (as_str s) (as_str s)).1 refl

-- A run that is found sits at its own stage.
pub sits_at_found :
    (id : ℕ) (rs : List RunRow) (row : RunRow)
    → find_run id rs ≡ some row
    → sits_at id row.state row ≡ true
sits_at_found id rs row found = rw (find_run-id id rs row found, is_state_self row.state) refl

affected_found :
    (p : RunRow → Bool) (id : ℕ) (rs : List RunRow) (row : RunRow)
    → find_run id rs ≡ some row
    → p row ≡ true
    → (affected p rs == 0) ≡ false
unfolding find_run affected
affected_found p id [] row e h = cc
affected_found p id (x ∷ rs) row e h = ground (arith, affected_found p id rs row)

module _ (s : Shared) (fs : List (ℕ × List ℕ)) (minted id : ℕ) (row : RunRow)
    (found : find_run id s.db.runs ≡ some row) where
  pub some_rows : (affected (sits_at id row.state) s.db.runs == 0) ≡ false
  some_rows =
      affected_found (sits_at id row.state) id s.db.runs row found
        (sits_at_found id s.db.runs row found)

  pub mark_run_lem :
      (target : ImportState)
      → mark_run id row.state target (quiet s fs minted) ≡ (
        ok tt,
        quiet (with_runs s (update (sits_at id row.state) (set_state target) s.db.runs)) fs minted,
      )
  unfolding mark_run sql answer update_runs wait unless_conflict pure ◌>>=◌
  mark_run_lem target = rw (some_rows) refl

  pub record_hash_lem :
      (sha256_hex : String) (byte_length : ℕ)
      → row.state ≡ received
      → record_hash id sha256_hex byte_length (quiet s fs minted) ≡ (
        ok tt,
        quiet
            (with_runs s
              (update (sits_at id received) (set_hashed sha256_hex (to_i64 byte_length)) s.db.runs))
            fs
            minted,
      )
  unfolding record_hash sql answer update_runs wait unless_conflict pure ◌>>=◌
  record_hash_lem sha256_hex byte_length at =
      rw (subst (λ t. (affected (sits_at id t) s.db.runs == 0) ≡ false) at some_rows) refl
