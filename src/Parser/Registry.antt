-- ===== src/Parser/Registry.antt =====
-- crates/chatgpt-archive/src/parser_registry.rs: the declarations of parsers, and which of them is
-- selected for an archive. An executor stands for a name.
pub mod Selection
use Prim.Native.Char.{code}
use Prim.Native.Nat.{Ordering, compare as compare_ℕ, ◌/◌}
use Prim.Native.String
use ratatoskr_chatgpt.Prelude.{
  ℕ, suc, ◌+◌, ◌-◌, ◌*◌, ◌^◌, String, Bool, true, false, Option, none, some, List, [], ◌∷◌, ◌++◌,
  map, ◌&&◌, ◌||◌, not, if◌then◌else◌, ◌==◌, ltb, leb, any, str_eq,
}
use ratatoskr_chatgpt.Effect.{Result, ok, err}
use ratatoskr_chatgpt.Outbox.Store.{select}
use ratatoskr_chatgpt.Receipt.Mode.{AcquisitionMode, consumer_export}
use ratatoskr_chatgpt.Receipt.Mode
use ratatoskr_chatgpt.Parser.Decode.{ParserId}

-- `ParserRegistration`; the required signals are a set.
pub record ParserRegistration : Type 0 where
  pub id : ParserId
  pub modes : List AcquisitionMode
  pub required_signals : List String

-- `RegisteredParser`
pub record RegisteredParser : Type 0 where
  pub declaration : ParserRegistration
  pub executor : Option String

-- `CompiledParser`
pub record CompiledParser : Type 0 where
  pub id : ParserId
  pub executor : String

pub data RegistryError : Type 0 where
  duplicate_identity : RegistryError

pub data ParserSelection : Type 0 where
  selected : ParserId → ParserSelection
  unsupported : ParserSelection
  ambiguous : List ParserId → ParserSelection

unfoldable pub same_id : ParserId → ParserId → Bool
same_id a b = str_eq a.name b.name && str_eq a.version b.version

register_with :
    Option String
    → ParserRegistration
    → List RegisteredParser
    → Result RegistryError (List RegisteredParser)
unfolding same_id
register_with executor registration registry =
    if any (λ item. same_id item.declaration.id registration.id) registry
    then err duplicate_identity
    else ok (registry ++ record { declaration = registration; executor = executor } ∷ [])

-- `register`
unfoldable pub register_declaration :
    ParserRegistration → List RegisteredParser → Result RegistryError (List RegisteredParser)
unfolding register_with
register_declaration = register_with none

unfoldable pub register_compiled :
    ParserRegistration
    → String
    → List RegisteredParser
    → Result RegistryError (List RegisteredParser)
unfolding register_with
register_compiled registration executor = register_with (some executor) registration

abbrev pub synthetic_registration : ParserRegistration
synthetic_registration = record {
  id = record { name = "synthetic-conversations"; version = "0.1.0" };
  modes = consumer_export ∷ [];
  required_signals = "conversations.json" ∷ [];
}

-- `runtime`
unfoldable pub runtime_registry : Result RegistryError (List RegisteredParser)
unfolding register_compiled
runtime_registry = register_compiled synthetic_registration "synthetic" []

is_subset : List String → List String → Bool
is_subset [] signals = true
is_subset (s ∷ required) signals = any (str_eq s) signals && is_subset required signals

-- `compatible`; of the inventory only its signals are read.
unfoldable pub is_compatible : List String → AcquisitionMode → RegisteredParser → Bool
unfolding is_subset
is_compatible signals mode item =
    any (λ m. str_eq (Mode.as_str m) (Mode.as_str mode)) item.declaration.modes
    && is_subset item.declaration.required_signals signals

pub data VersionPart : Type 0 where
  number : ℕ → VersionPart
  name : String → VersionPart

abbrev is_separator : ℕ → Bool
is_separator c = c == b'.' || c == b'-' || c == b'_'

abbrev is_digit : ℕ → Bool
is_digit c = leb (b'0') c && leb c (b'9')

-- `split(['.', '-', '_'])`: the part that the text begins with, and the parts after it.
split_version : String → String × List String
split_version String.[] = (String.[], [])
split_version (String.◌∷◌ c s) =
    let (part, parts) = split_version s in
    if is_separator (code c) then (String.[], part ∷ parts) else (String.◌∷◌ c part, parts)

-- The digits of a text as a number; `none` where one is no digit or the number passes 2^64 - 1.
read_digits : String → ℕ → Option ℕ
read_digits String.[] n = some n
read_digits (String.◌∷◌ c s) n =
    let rest = read_digits s (n * 10 + (code c - b'0')) in
    if is_digit (code c) && ltb (n * 10 + (code c - b'0')) (2 ^ 64) then rest else none

-- `parse::<u64>()`, which takes a leading plus sign and no empty text.
parse_u64 : String → Option ℕ
unfolding read_digits
parse_u64 String.[] = none
parse_u64 (String.◌∷◌ c String.[]) = read_digits (String.◌∷◌ c String.[]) 0
parse_u64 (String.◌∷◌ c (String.◌∷◌ d s)) =
    if code c == b'+'
    then read_digits (String.◌∷◌ d s) 0
    else read_digits (String.◌∷◌ c (String.◌∷◌ d s)) 0

version_part : String → VersionPart
unfolding parse_u64
version_part part = elim (parse_u64 part) [ none ↦ name part | some n ↦ number n ]

version_parts : String → List VersionPart
unfolding split_version version_part
version_parts version = let (part, parts) = split_version version in map version_part (part ∷ parts)

-- The derived order: a number stands before a text.
compare_part : VersionPart → VersionPart → Ordering
compare_part (number n) (number m) = compare_ℕ n m
compare_part (number n) (name t) = Ordering.lt
compare_part (name s) (number m) = Ordering.gt
compare_part (name s) (name t) = String.compare s t

compare_parts : List VersionPart → List VersionPart → Ordering
unfolding compare_part
compare_parts [] [] = Ordering.eq
compare_parts [] (q ∷ qs) = Ordering.lt
compare_parts (p ∷ ps) [] = Ordering.gt
compare_parts (p ∷ ps) (q ∷ qs) = String.then (compare_part p q) (compare_parts ps qs)

unfoldable pub compare_versions : String → String → Ordering
unfolding compare_parts version_parts
compare_versions left right = compare_parts (version_parts left) (version_parts right)

compare_ids : ParserId → ParserId → Ordering
unfolding compare_versions
compare_ids a b = String.then (String.compare a.name b.name) (compare_versions a.version b.version)

abbrev not_after : Ordering → Bool
not_after Ordering.gt = false
not_after _ = true

-- `sort_by`, which is stable.
place_id : ParserId → List ParserId → List ParserId
unfolding compare_ids
place_id id [] = id ∷ []
place_id id (x ∷ xs) =
    let rest = place_id id xs in if not_after (compare_ids id x) then id ∷ x ∷ xs else x ∷ rest

sort_ids : List ParserId → List ParserId
unfolding place_id
sort_ids [] = []
sort_ids (id ∷ ids) = place_id id (sort_ids ids)

compatible_versions : List String → AcquisitionMode → List RegisteredParser → List ParserId
unfolding is_compatible sort_ids select
compatible_versions signals mode registry =
    sort_ids (map (λ item. item.declaration.id) (select (is_compatible signals mode) registry))

abbrev compiled_of : ParserId → Option String → Option CompiledParser
compiled_of id none = none
compiled_of id (some executor) = some (record { id = id; executor = executor })

-- `find_map`: the first match that has an executor.
unfoldable pub find_exact :
    ParserId → List String → AcquisitionMode → List RegisteredParser → Option CompiledParser
unfolding same_id is_compatible
find_exact id signals mode [] = none
find_exact id signals mode (item ∷ registry) =
    let rest = find_exact id signals mode registry in
    if same_id item.declaration.id id && is_compatible signals mode item
    then elim (compiled_of item.declaration.id item.executor) [ none ↦ rest | some c ↦ some c ]
    else rest

selection_of : List ParserId → ParserSelection
selection_of [] = unsupported
selection_of (id ∷ []) = selected id
selection_of (id ∷ other ∷ rest) = ambiguous (id ∷ other ∷ rest)

-- `select`
unfoldable pub select_parser :
    List String → AcquisitionMode → List RegisteredParser → ParserSelection
unfolding compatible_versions selection_of
select_parser signals mode registry = selection_of (compatible_versions signals mode registry)
