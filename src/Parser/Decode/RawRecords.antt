-- ===== src/Parser/Decode/RawRecords.antt =====
-- The raw records that crates/chatgpt-archive/src/synthetic_parser/decode.rs adds for a conversation.
use ratatoskr_chatgpt.Prelude.{
  Bool, true, false, if◌then◌else◌, not, any, ℕ, suc, String, Option, none, some, List, [], ◌∷◌,
  ◌++◌, str_eq,
}
use ratatoskr_chatgpt.Json.{Json, string, object, Members, empty, member, get_member}
use ratatoskr_chatgpt.Reconciliation.Model.{RawRecord}
use ratatoskr_chatgpt.Parser.Input.{MessageInput, MappingInput, ConversationInput}
use ratatoskr_chatgpt.Parser.Parts.{child_path, part_kind, is_unknown_part, part_path}
use ratatoskr_chatgpt.Parser.Decode.{at_index}

abbrev raw : String → Json → RawRecord
raw path payload = record { path = path; payload = payload }

-- The fields of an object that the document's shape does not name.
unread : String → Members → List RawRecord
unread path empty = []
unread path (member key payload rest) = raw (child_path path key) payload ∷ unread path rest

abbrev known_roles : List String
known_roles = "system" ∷ "user" ∷ "assistant" ∷ "tool" ∷ "internal" ∷ []

abbrev known_kinds : List String
known_kinds = "tool_call" ∷ "tool_result" ∷ "media_reference" ∷ []

is_known_role : String → Bool
is_known_role role = any (str_eq role) known_roles

is_known_kind : Option Json → Bool
is_known_kind (some (string kind)) = any (str_eq kind) known_kinds
is_known_kind _ = false

-- A text, or an object that says one of the kinds.
is_known_part : Json → Bool
unfolding is_known_kind
is_known_part (string s) = true
is_known_part (object members) = is_known_kind (get_member "kind" members)
is_known_part _ = false

abbrev unknown_role_at : String → String → List RawRecord
unknown_role_at path role =
    if not (is_known_role role)
    then raw (child_path (child_path path "author") "role") (string role) ∷ []
    else []

-- The parts of no known kind, of those from `ordinal` on.
unknown_parts : String → ℕ → List Json → List RawRecord
unknown_parts path ordinal [] = []
unknown_parts path ordinal (payload ∷ values) =
    let rest = unknown_parts path (suc ordinal) values in
    if is_unknown_part (part_kind payload)
    then raw (part_path path ordinal) payload ∷ rest
    else rest

abbrev of_message : MessageInput → String → List RawRecord
of_message input path =
    unread path input.extra
    ++ unread (child_path path "author") input.author.extra
    ++ unread (child_path path "metadata") input.metadata.extra
    ++ unread (child_path path "content") input.content.extra
    ++ unknown_role_at path input.author.role
    ++ unknown_parts (child_path path "content") 0 input.content.parts

abbrev of_node : Option MessageInput → String → List RawRecord
of_node none path = []
of_node (some input) path = of_message input (child_path path "message")

abbrev differing_id : String → String → Option String → List RawRecord
differing_id path key none = []
differing_id path key (some id) =
    if str_eq id key then [] else raw (child_path path "id") (string id) ∷ []

of_mapping : String → List (String × MappingInput) → List RawRecord
of_mapping path [] = []
of_mapping path ((key, item) ∷ rest) =
    unread (child_path path key) item.extra
    ++ differing_id (child_path path key) key item.id
    ++ of_node item.message (child_path path key)
    ++ of_mapping path rest

-- The raw records of a conversation's document.
pub of_conversation : ConversationInput → ℕ → List RawRecord
unfolding of_mapping unread
of_conversation input index =
    unread (at_index "/" index) input.extra
    ++ of_mapping (child_path (at_index "/" index) "mapping") input.mapping
