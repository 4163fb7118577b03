-- ===== src/Receipt/Resume/Drift.antt =====
-- What `verify_staged` does with a staging file, when no call fails.
use ratatoskr_chatgpt.Prelude.{ℕ, String, Bool, List, ◌&&◌, ◌==◌, str_eq, length}
use ratatoskr_chatgpt.Receipt.World.{Env}

-- Whether staged bytes are what was recorded.
abbrev pub agrees : Env → String → ℕ → List ℕ → Bool
agrees env expected_hex expected_length bytes =
    str_eq (env.sha256_hex bytes) expected_hex && length bytes == expected_length
