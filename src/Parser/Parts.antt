-- ===== src/Parser/Parts.antt =====
-- crates/chatgpt-archive/src/synthetic_parser/parts.rs: the kinds of content parts, the normalized
-- roles, and the raw records that keep what the model does not hold.
pub mod Paths
use Prim.Native.Char.{code}
use Prim.Native.String
use package.text.Mathlib.Text
use ratatoskr_chatgpt.Prelude.{
  ℕ, suc, String, Bool, true, false, Option, none, some, List, [], ◌∷◌, ◌++◌, if◌then◌else◌, ◌==◌,
  str_eq,
}
use ratatoskr_chatgpt.Json.{Json, string, object, Members, empty, member, get_member, as_text}
use ratatoskr_chatgpt.Reconciliation.Model.{
  MessageRole, system, user, assistant, tool, internal, unknown_role, ContentPartKind, text,
  tool_call, tool_result, image, file, unknown_part, ParsedContentPart, RawRecord,
}
use ratatoskr_chatgpt.Outbox.Erasure.{decimal}

-- `segment.replace(c, by)`
unfoldable pub replace : ℕ → String → String → String
replace c by String.[] = String.[]
replace c by (String.◌∷◌ d s) =
    let rest = replace c by s in if code d == c then String.◌++◌ by rest else String.◌∷◌ d rest

unfoldable pub escape : String → String
unfolding replace
escape segment = replace (b'/') "~1" (replace (b'~') "~0" segment)

unfoldable pub child_path : String → String → String
unfolding escape
child_path path segment = String.◌++◌ path (String.◌++◌ "/" (escape segment))

unfoldable pub record_extra : String → Members → List RawRecord → List RawRecord
unfolding child_path
record_extra path empty records = records
record_extra path (member key payload rest) records =
    record_extra path rest
      (records ++ record { path = child_path path key; payload = payload } ∷ [])

unfoldable pub normalize_role : String → MessageRole
normalize_role role =
    if str_eq role "system"
    then system
    else if str_eq role "user"
    then user
    else if str_eq role "assistant"
    then assistant
    else if str_eq role "tool"
    then tool
    else if str_eq role "internal"
    then internal
    else unknown_role

abbrev pub text_of : Option Json → Option String
text_of none = none
text_of (some j) = as_text j

abbrev starts_image : Option String → Bool
starts_image none = false
starts_image (some media_type) = Text.starts_with media_type "image/"

unfoldable pub media_kind : Members → ContentPartKind
media_kind members = if starts_image (text_of (get_member "mime_type" members)) then image else file

unfoldable pub kind_named : Members → Option String → ContentPartKind
unfolding media_kind
kind_named members none = unknown_part
kind_named members (some kind) =
    if str_eq kind "tool_call"
    then tool_call
    else if str_eq kind "tool_result"
    then tool_result
    else if str_eq kind "media_reference"
    then media_kind members
    else unknown_part

unfoldable pub part_kind : Json → ContentPartKind
unfolding kind_named
part_kind (string s) = text
part_kind (object members) = kind_named members (text_of (get_member "kind" members))
part_kind _ = unknown_part

abbrev pub is_unknown_part : ContentPartKind → Bool
is_unknown_part unknown_part = true
is_unknown_part _ = false

abbrev pub part_path : String → ℕ → String
part_path content_path ordinal = child_path (child_path content_path "parts") (decimal ordinal)

-- The parts from `ordinal` on, and the raw records after them.
unfoldable pub parse_parts_from :
    String → ℕ → List Json → List RawRecord → List ParsedContentPart × List RawRecord
unfolding part_kind child_path
parse_parts_from content_path ordinal [] records = ([], records)
parse_parts_from content_path ordinal (payload ∷ values) records =
    let (parts, records') = parse_parts_from content_path (suc ordinal) values (
      if is_unknown_part (part_kind payload)
      then records ++ record { path = part_path content_path ordinal; payload = payload } ∷ []
      else records) in
    (record { ordinal = ordinal; kind = part_kind payload; payload = payload } ∷ parts, records')

unfoldable pub parse_parts :
    List Json → String → List RawRecord → List ParsedContentPart × List RawRecord
unfolding parse_parts_from
parse_parts values content_path records = parse_parts_from content_path 0 values records
