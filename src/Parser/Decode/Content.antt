-- ===== src/Parser/Decode/Content.antt =====
-- What crates/chatgpt-archive/src/synthetic_parser/decode.rs keeps of a conversation's document.
use ratatoskr_chatgpt.Prelude.{ℕ, suc, ◌≡◌, refl, String, Option, none, some, List, [], ◌∷◌, map}
use ratatoskr_chatgpt.Json.{Json}
use ratatoskr_chatgpt.Reconciliation.Model.{ParsedMessage, RawRecord}
use ratatoskr_chatgpt.Parser.Input.{MessageInput, MappingInput, ConversationInput}
use ratatoskr_chatgpt.Parser.Parts.{parse_parts_from, parse_parts}
use ratatoskr_chatgpt.Parser.Decode.{
  parse_message, parse_node, parse_mapping, parse_mappings, parse_conversation, push_some,
}

-- What a message says and where it hangs: its identity, its parent, its instants, its model and the
-- payloads of its parts.
pub record MessageContent : Type 0 where
  external_id : String
  parent : Option String
  created : Option String
  updated : Option String
  model_slug : Option String
  payloads : List Json

abbrev pub content_of : ParsedMessage → MessageContent
content_of m = record {
  external_id = m.external_id;
  parent = m.parent_external_id;
  created = m.created_at_epoch_seconds;
  updated = m.updated_at_epoch_seconds;
  model_slug = m.model_slug;
  payloads = map (λ p. p.payload) m.parts;
}

abbrev input_content : Option MessageInput → Option String → Option MessageContent
input_content none parent = none
input_content (some input) parent = some (record {
  external_id = input.id;
  parent = parent;
  created = input.create_time;
  updated = input.update_time;
  model_slug = input.metadata.model_slug;
  payloads = input.content.parts;
})

-- The messages of a mapping, in the order of its keys; a node without a message has none.
abbrev pub contents : List (String × MappingInput) → List MessageContent
contents [] = []
contents ((key, item) ∷ rest) = push_some (input_content item.message item.parent) (contents rest)

abbrev content_if : Option ParsedMessage → Option MessageContent
content_if none = none
content_if (some m) = some (content_of m)

parse_parts_from-payload :
    (path : String) (n : ℕ) (values : List Json) (records : List RawRecord)
    → map (λ p. p.payload) (parse_parts_from path n values records).0 ≡ values
unfolding parse_parts_from
parse_parts_from-payload path n [] records = refl
parse_parts_from-payload path n (v ∷ values) records =
    rw (parse_parts_from-payload path (suc n) values _) refl

parse_message-content :
    (input : MessageInput) (parent : Option String) (path : String) (records : List RawRecord)
    → some (content_of (parse_message input parent path records).0)
      ≡ input_content (some input) parent
unfolding parse_message parse_parts
parse_message-content input parent path records =
    rw (parse_parts_from-payload _ 0 input.content.parts _) refl

parse_node-content :
    (input : Option MessageInput) (parent : Option String) (path : String)
    (records : List RawRecord)
    → content_if (parse_node input parent path records).0 ≡ input_content input parent
unfolding parse_node
parse_node-content none parent path records = refl
parse_node-content (some input) parent path records =
    parse_message-content input parent path records

map-push_some :
    (m : Option ParsedMessage) (ms : List ParsedMessage)
    → map content_of (push_some m ms) ≡ push_some (content_if m) (map content_of ms)
map-push_some none ms = refl
map-push_some (some m) ms = refl

parse_mappings-contents :
    (path : String) (mapping : List (String × MappingInput)) (records : List RawRecord)
    → map content_of (parse_mappings path mapping records).0 ≡ contents mapping
unfolding parse_mappings parse_mapping
parse_mappings-contents path [] records = refl
parse_mappings-contents path ((key, item) ∷ rest) records =
    rw (map-push_some, parse_node-content, parse_mappings-contents path rest) refl

-- A parsed conversation says what its document does: the same identity and title, and of each node
-- with a message, in the order of the keys, the identity, the parent, the instants, the model and
-- every part, known or not, in its place.
pub parse_conversation-contents :
    (input : ConversationInput) (index : ℕ) (records : List RawRecord)
    → ((parse_conversation input index records).0.external_id ≡ input.id)
      × ((parse_conversation input index records).0.title ≡ input.title)
      × (map content_of (parse_conversation input index records).0.messages
          ≡ contents input.mapping)
unfolding parse_conversation
parse_conversation-contents input index records =
    (refl, refl, parse_mappings-contents _ input.mapping _)
