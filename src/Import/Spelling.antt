-- ===== src/Import/Spelling.antt =====
-- The database spellings of crates/chatgpt-archive/src/receipt/state.rs.
use ratatoskr_chatgpt.Prelude.{
  String, ◌≡◌, refl, subst, ap, ◌↔◌, Option, some, arith, str_eq, str_eq_iff, if◌then◌else◌,
}
use ratatoskr_chatgpt.Import.{
  ImportState, received, hashed, stored, inspected, parsed, reconciled, completed, partial, failed,
  duplicate, quarantined, as_str, parse,
}

parse-as_str : (s : ImportState) → parse (as_str s) ≡ some s
unfolding parse as_str
parse-as_str received = refl
parse-as_str _ = refl

-- What a search over the spellings may answer for a text.
abbrev IsSpelled : String → Option ImportState → Type 0
IsSpelled text found = (s : ImportState) → found ≡ some s → as_str s ≡ text

IsSpelled-if :
    (text : String) (v : ImportState) (rest : Option ImportState)
    → IsSpelled text rest
    → IsSpelled text (if str_eq text (as_str v) then some v else rest)
IsSpelled-if text v rest others s h = ground (arith, str_eq_iff text (as_str v), others s)

IsSpelled-parse : (text : String) → IsSpelled text (parse text)
unfolding parse as_str
IsSpelled-parse text = step received (
    step hashed (
      step stored (
        step inspected (
          step parsed (
            step reconciled (
              step completed
                (step partial (step failed (step duplicate (step quarantined (λ s h. cc)))))))))))
  where
    step :
        {rest : Option ImportState} (v : ImportState)
        → IsSpelled text rest
        → IsSpelled text (if str_eq text (as_str v) then some v else rest)
    step {rest} v = IsSpelled-if text v rest

-- A text parses to a stage exactly when it is the spelling of that stage.
pub parse-as_str_iff : (text : String) (s : ImportState) → (parse text ≡ some s) ↔ (as_str s ≡ text)
parse-as_str_iff text s =
    (IsSpelled-parse text s, λ e. subst (λ t. parse t ≡ some s) e (parse-as_str s))

-- Two stages with one spelling are one stage.
pub as_str-injective : (a b : ImportState) → as_str a ≡ as_str b → a ≡ b
as_str-injective a b e = cc (parse-as_str a, parse-as_str b, ap parse e)
