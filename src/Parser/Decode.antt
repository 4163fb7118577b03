-- ===== src/Parser/Decode.antt =====
-- crates/chatgpt-archive/src/synthetic_parser/decode.rs: the projection of each document, which keeps
-- every field that it does not read as a raw record.
pub mod Content
pub mod RawRecords
use Prim.Native.String
use ratatoskr_chatgpt.Prelude.{
  ℕ, suc, String, Bool, true, false, Option, none, some, List, [], ◌∷◌, ◌++◌, if◌then◌else◌, str_eq,
}
use ratatoskr_chatgpt.Json.{string, object}
use ratatoskr_chatgpt.Effect.{Result, ok, err}
use ratatoskr_chatgpt.Outbox.Erasure.{decimal}
use ratatoskr_chatgpt.Reconciliation.Model.{
  MessageRole, unknown_role, InstructionKind, instruction, system_prompt, unknown_instruction,
  ParsedMessage, ParsedConversation, ParsedInstruction, ParsedProject, ParsedCanvasDocument,
  ParsedConversations, RawRecord,
}
use ratatoskr_chatgpt.Parser.Input.{
  MessageInput, MappingInput, ConversationInput, InstructionInput, ProjectInput, CanvasInput,
  Readers,
}
use ratatoskr_chatgpt.Parser.Parts.{child_path, record_extra, normalize_role, parse_parts}

pub data SyntheticParserError : Type 0 where
  unexpected_selection invalid_document storage_unavailable : SyntheticParserError

pub record ParserId : Type 0 where
  pub name : String
  pub version : String

abbrev synthetic_schema_id : String
synthetic_schema_id = "chatgpt.synthetic.conversations-json"

-- `format!("{base}{index}")`
abbrev pub at_index : String → ℕ → String
at_index base index = String.◌++◌ base (decimal index)

abbrev is_unknown_role : MessageRole → Bool
is_unknown_role unknown_role = true
is_unknown_role _ = false

record_role : String → String → List RawRecord → List RawRecord
unfolding child_path normalize_role
record_role path role records =
    if is_unknown_role (normalize_role role)
    then records
      ++ record { path = child_path (child_path path "author") "role"; payload = string role } ∷ []
    else records

unfoldable pub parse_message :
    MessageInput → Option String → String → List RawRecord → ParsedMessage × List RawRecord
unfolding child_path record_extra record_role parse_parts
parse_message input parent_external_id mapping_path records =
    let path = child_path mapping_path "message" in
    let extras = record_extra path input.extra records in
    let authors = record_extra (child_path path "author") input.author.extra extras in
    let metadata = record_extra (child_path path "metadata") input.metadata.extra authors in
    let contents = record_extra (child_path path "content") input.content.extra metadata in
    let roles = record_role path input.author.role contents in
    let (parts, records') = parse_parts input.content.parts (child_path path "content") roles in
    (
      record {
        external_id = input.id;
        parent_external_id = parent_external_id;
        role = normalize_role input.author.role;
        created_at_epoch_seconds = input.create_time;
        updated_at_epoch_seconds = input.update_time;
        model_slug = input.metadata.model_slug;
        provider_metadata = object input.extra;
        parts = parts;
      },
      records',
    )

-- The node's own `id` is kept where it differs from its key.
unfoldable pub record_id : String → String → Option String → List RawRecord → List RawRecord
unfolding child_path
record_id path key none records = records
record_id path key (some id) records =
    if str_eq id key
    then records
    else records ++ record { path = child_path path "id"; payload = string id } ∷ []

unfoldable pub parse_node :
    Option MessageInput
    → Option String
    → String
    → List RawRecord
    → Option ParsedMessage × List RawRecord
unfolding parse_message
parse_node none parent path records = (none, records)
parse_node (some input) parent path records =
    let (message, records') = parse_message input parent path records in (some message, records')

unfoldable pub parse_mapping :
    MappingInput → String → String → List RawRecord → Option ParsedMessage × List RawRecord
unfolding child_path record_extra record_id parse_node
parse_mapping input mapping_path key records =
    let path = child_path mapping_path key in
    parse_node input.message input.parent path
      (record_id path key input.id (record_extra path input.extra records))

abbrev pub push_some : {A : Type 0} → Option A → List A → List A
push_some none xs = xs
push_some (some x) xs = x ∷ xs

unfoldable pub parse_mappings :
    String → List (String × MappingInput) → List RawRecord → List ParsedMessage × List RawRecord
unfolding parse_mapping
parse_mappings mapping_path [] records = ([], records)
parse_mappings mapping_path ((key, item) ∷ rest) records =
    let (message, records1) = parse_mapping item mapping_path key records in
    let (messages, records2) = parse_mappings mapping_path rest records1 in
    (push_some message messages, records2)

unfoldable pub parse_conversation :
    ConversationInput → ℕ → List RawRecord → ParsedConversation × List RawRecord
unfolding record_extra parse_mappings child_path
parse_conversation input index records =
    let path = at_index "/" index in
    let (messages, records') =
      parse_mappings (child_path path "mapping") input.mapping
        (record_extra path input.extra records) in
    (
      record {
        external_id = input.id;
        title = input.title;
        created_at_epoch_seconds = input.create_time;
        updated_at_epoch_seconds = input.update_time;
        provider_metadata = object input.extra;
        messages = messages;
      },
      records',
    )

-- `into_iter().enumerate().map(…).collect()` where each call may add raw records.
parse_each :
    {A B : Type 0}
    → (A → ℕ → List RawRecord → B × List RawRecord)
    → ℕ
    → List A
    → List RawRecord
    → List B × List RawRecord
parse_each f index [] records = ([], records)
parse_each f index (x ∷ xs) records =
    let (y, records1) = f x index records in
    let (ys, records2) = parse_each f (suc index) xs records1 in (y ∷ ys, records2)

instruction_kind : String → InstructionKind
instruction_kind kind =
    if str_eq kind "instruction"
    then instruction
    else if str_eq kind "system_prompt"
    then system_prompt
    else unknown_instruction

abbrev is_unknown_instruction : InstructionKind → Bool
is_unknown_instruction unknown_instruction = true
is_unknown_instruction _ = false

parse_instruction :
    String → InstructionInput → ℕ → List RawRecord → ParsedInstruction × List RawRecord
unfolding child_path record_extra instruction_kind
parse_instruction project_path input ordinal records =
    let path = child_path (child_path project_path "instructions") (decimal ordinal) in
    let extras = record_extra path input.extra records in
    (
      record {
        external_id = input.id;
        ordinal = ordinal;
        kind = instruction_kind input.kind;
        content = input.content;
        provider_metadata = object input.extra;
      },
      if is_unknown_instruction (instruction_kind input.kind)
          then extras ++ record { path = child_path path "kind"; payload = string input.kind } ∷ []
          else extras,
    )

parse_project : ProjectInput → ℕ → List RawRecord → ParsedProject × List RawRecord
unfolding record_extra parse_each parse_instruction
parse_project input index records =
    let path = at_index "/projects/" index in
    let (instructions, records') =
      parse_each (parse_instruction path) 0 input.instructions
        (record_extra path input.extra records) in
    (
      record {
        external_id = input.id;
        title = input.title;
        description = input.description;
        instructions = instructions;
        conversation_external_ids = input.conversation_ids;
        asset_external_ids = input.asset_ids;
        provider_metadata = object input.extra;
      },
      records',
    )

parse_canvas_document : CanvasInput → ℕ → List RawRecord → ParsedCanvasDocument × List RawRecord
unfolding record_extra
parse_canvas_document input index records = (
  record {
    external_id = input.id;
    project_external_id = input.project_id;
    conversation_external_id = input.conversation_id;
    content = input.content;
    provider_metadata = object input.extra;
  },
  record_extra (at_index "/canvas/" index) input.extra records,
)

-- An optional document, read and projected entry by entry.
parse_read :
    {A B : Type 0}
    → (A → ℕ → List RawRecord → B × List RawRecord)
    → Option (List A)
    → List RawRecord
    → Result SyntheticParserError (List B × List RawRecord)
unfolding parse_each
parse_read f none records = err invalid_document
parse_read f (some inputs) records = ok (parse_each f 0 inputs records)

parse_optional :
    {A B : Type 0}
    → (List ℕ → Option (List A))
    → (A → ℕ → List RawRecord → B × List RawRecord)
    → Option (List ℕ)
    → List RawRecord
    → Result SyntheticParserError (List B × List RawRecord)
unfolding parse_read
parse_optional read f none records = ok ([], records)
parse_optional read f (some source) records = parse_read f (read source) records

abbrev and_then :
    {A B : Type 0}
    → Result SyntheticParserError A
    → (A → Result SyntheticParserError B)
    → Result SyntheticParserError B
and_then (ok a) f = f a
and_then (err e) f = err e

unfoldable pub parse_documents :
    Readers
    → List ℕ
    → Option (List ℕ)
    → Option (List ℕ)
    → ParserId
    → Result SyntheticParserError ParsedConversations
unfolding parse_read parse_optional parse_conversation parse_project parse_canvas_document
parse_documents readers conversations_source projects_source canvas_source parser =
    and_then (parse_read parse_conversation (readers.conversations conversations_source) [])
      (λ (conversations, records1).
        and_then (parse_optional readers.projects parse_project projects_source records1)
          (λ (projects, records2).
            and_then (parse_optional readers.canvas parse_canvas_document canvas_source records2)
              (λ (canvas_documents, records3). ok (record {
                schema_id = synthetic_schema_id;
                parser_name = parser.name;
                parser_version = parser.version;
                conversations = conversations;
                projects = projects;
                canvas_documents = canvas_documents;
                assets = [];
                raw_records = records3;
              }))))
