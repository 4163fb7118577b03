-- ===== src/Import/Tests.antt =====
-- The state machine on concrete stages.
use ratatoskr_chatgpt.Prelude.{◌≡◌, refl, ◌≤◌, ◌+◌, ◌↔◌, [], ◌∷◌, some, length}
use ratatoskr_chatgpt.Import.{hashed, stored, inspected, partial, ok, as_str, parse}
use ratatoskr_chatgpt.Import.Machine.{◌⟶*◌, rank, advance_all, advance_all-length}
use ratatoskr_chatgpt.Import.Spelling.{parse-as_str_iff}

two_moves : advance_all hashed (stored ∷ inspected ∷ []) ≡ ok inspected
unfolding advance_all
two_moves = refl

advance_all-length_example :
    (rank hashed + length (stored ∷ inspected ∷ []) ≤ 6) × (hashed ⟶* inspected)
advance_all-length_example = advance_all-length hashed inspected (stored ∷ inspected ∷ []) two_moves

parse-as_str_iff_example : (parse "partial" ≡ some partial) ↔ (as_str partial ≡ "partial")
parse-as_str_iff_example = parse-as_str_iff "partial" partial
