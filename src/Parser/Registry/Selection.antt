-- ===== src/Parser/Registry/Selection.antt =====
-- What a registration changes for the lookups of crates/chatgpt-archive/src/parser_registry.rs.
use ratatoskr_chatgpt.Prelude.{◌≡◌, String, Bool, true, false, none, some, List, if◌then◌else◌, any}
use ratatoskr_chatgpt.Effect.{Result, ok, err}
use ratatoskr_chatgpt.Receipt.Mode.{AcquisitionMode}
use ratatoskr_chatgpt.Parser.Decode.{ParserId}
use ratatoskr_chatgpt.Parser.Registry.{
  ParserRegistration, RegisteredParser, RegistryError, same_id, is_compatible, find_exact,
}

is_registered : ParserId → List RegisteredParser → Bool
is_registered id registry = any (λ item. same_id item.declaration.id id) registry

abbrev compiled_item : ParserRegistration → String → RegisteredParser
compiled_item registration executor = record {
  declaration = registration;
  executor = some executor;
}

-- What the lookups answer after a registration that was accepted.
pub Registers :
    ParserRegistration
    → String
    → List RegisteredParser
    → List String
    → AcquisitionMode
    → Result RegistryError (List RegisteredParser)
    → Type 0
Registers registration executor registry signals mode (err e) =
    is_registered registration.id registry ≡ true
Registers registration executor registry signals mode (ok after) =
    (is_registered registration.id registry ≡ false)
    × (find_exact registration.id signals mode after ≡ (
        if is_compatible signals mode (compiled_item registration executor)
        then some (record { id = registration.id; executor = executor })
        else none))
    × ((other : ParserId)
        → same_id registration.id other ≡ false
        → find_exact other signals mode after ≡ find_exact other signals mode registry)
