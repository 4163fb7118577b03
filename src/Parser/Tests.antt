-- ===== src/Parser/Tests.antt =====
-- Declarations and registrations at which the theorems about the parser are applied.
use ratatoskr_chatgpt.Prelude.{Option, map, ◌≡◌, refl, true, false, none, some, List, [], ◌∷◌}
use ratatoskr_chatgpt.Json.{empty, string, null}
use Prim.Native.Nat.{Ordering}
use ratatoskr_chatgpt.Parser.Archive.{ExecutionInput, ExecutionError, EntryKind, execute_registered}
use ratatoskr_chatgpt.Reconciliation.Model.{ParsedConversations}
use ratatoskr_chatgpt.Effect.{Result, ok, err, ◌>>=◌}
use ratatoskr_chatgpt.Outbox.Store.{select}
use ratatoskr_chatgpt.Outbox.Erasure.{decimal}
use ratatoskr_chatgpt.Receipt.BlobStore
use ratatoskr_chatgpt.Receipt.Mode
use ratatoskr_chatgpt.Parser.Parts.{child_path}
use ratatoskr_chatgpt.Parser.Parts.Paths.{codes, parent_and_key, parent_and_key-child_path}
use ratatoskr_chatgpt.Parser.Decode.{parse_conversation}
use ratatoskr_chatgpt.Parser.Decode.Content.{content_of, contents, parse_conversation-contents}
use ratatoskr_chatgpt.Receipt.World.{BlobRef, Env, World, Db, quiet, io}
use ratatoskr_chatgpt.Receipt.Mode.{consumer_export}
use ratatoskr_chatgpt.Parser.Input.{Readers, AssetInput, MessageInput, ConversationInput}
use ratatoskr_chatgpt.Parser.Assets.{ExtractedArtifact, verify_asset}
use ratatoskr_chatgpt.Parser.Assets.Verdicts.{Settles, fitting, named, verify_asset-Settles}
use ratatoskr_chatgpt.Parser.Registry.{
  compare_versions, synthetic_registration, register_declaration, runtime_registry, select_parser,
  selected, RegistryError, RegisteredParser, duplicate_identity,
}

abbrev plain_env : Env
plain_env = record {
  sha256_hex = λ bytes. "5feceb66";
  is_media_type = λ t. true;
  mint = λ n. n;
  max_archive_bytes = 4;
}

abbrev no_rows : Db
no_rows = record { accounts = []; exports = []; runs = []; operations = [] }

abbrev text_blob : BlobRef
text_blob = record {
  owner_service = "ratatoskr-chatgpt";
  digest_hex = "5feceb66";
  media_type = "text/plain";
  length_bytes = 1;
}

abbrev one_object : World
one_object = quiet (record { db = no_rows; objects = ("5feceb66", 1 ∷ []) ∷ [] }) [] 8

abbrev note : AssetInput
note = record {
  id = "file-1";
  kind = "uploaded";
  project_id = none;
  conversation_id = none;
  display_name = none;
  archive_path = some "files/note.txt";
  media_type = some "text/plain";
  length_bytes = some 1;
  sha256 = some "5feceb66";
  extra = empty;
}

abbrev notes : List ExtractedArtifact
notes = record { entry_path = "files/note.txt"; blob = text_blob; is_quarantined = false } ∷ []

verify_asset-Settles_example :
    Settles
      (fitting plain_env one_object note (named (some "files/note.txt") notes))
      (verify_asset plain_env note notes one_object).0
verify_asset-Settles_example = verify_asset-Settles plain_env one_object note notes

-- The declaration is accepted.
note-accepted :
    fitting plain_env one_object note (named (some "files/note.txt") notes) ≡ some text_blob
unfolding select BlobStore.verify ◌>>=◌ io
note-accepted = refl

-- Versions compare by their numbers.
ten_after_nine : compare_versions "1.10.0" "1.9.2" ≡ Ordering.gt
unfolding compare_versions
ten_after_nine = refl

-- A separator and a tilde of a key are escaped in its path.
escaped : child_path "/0" "a/b~c" ≡ "/0/a~1b~0c"
unfolding child_path
escaped = refl

parent_and_key-child_path_example :
    parent_and_key (codes (child_path "/0/mapping" "a/b~c"))
    ≡ some (codes "/0/mapping", codes "a/b~c")
parent_and_key-child_path_example = parent_and_key-child_path "/0/mapping" "a/b~c"

abbrev greeting : MessageInput
greeting = record {
  id = "m1";
  author = record { role = "user"; extra = empty };
  create_time = some "1.5";
  update_time = none;
  metadata = record { model_slug = none; extra = empty };
  content = record { parts = string "hello" ∷ null ∷ []; extra = empty };
  extra = empty;
}

abbrev conversation : ConversationInput
conversation = record {
  id = "c1";
  title = some "first";
  create_time = none;
  update_time = none;
  mapping =
      (
        "m1",
        record { id = some "m1"; parent = some "root"; message = some greeting; extra = empty },
      )
      ∷ ("root", record { id = none; parent = none; message = none; extra = empty })
      ∷ [];
  extra = empty;
}

parse_conversation-contents_example :
    ((parse_conversation conversation 0 []).0.external_id ≡ "c1")
    × ((parse_conversation conversation 0 []).0.title ≡ some "first")
    × (map content_of (parse_conversation conversation 0 []).0.messages
        ≡ contents conversation.mapping)
parse_conversation-contents_example = parse_conversation-contents conversation 0 []

-- The part of no known kind is kept.
unknown_part_kept :
    (parse_conversation conversation 0 []).1
    ≡ record { path = "/0/mapping/m1/message/content/parts/1"; payload = null } ∷ []
unfolding parse_conversation decimal
unknown_part_kept = refl

abbrev registered : Result RegistryError (List RegisteredParser) → List RegisteredParser
registered (ok registry) = registry
registered (err e) = []

-- The parser of the runtime is selected where its document is, and refused a second registration.
runtime_selected :
    select_parser ("conversations.json" ∷ []) consumer_export (registered runtime_registry)
    ≡ selected synthetic_registration.id
unfolding select_parser runtime_registry Mode.as_str
runtime_selected = refl

registered_once :
    register_declaration synthetic_registration (registered runtime_registry)
    ≡ err duplicate_identity
unfolding register_declaration runtime_registry
registered_once = refl

abbrev readers : Readers
readers = record {
  conversations = λ bytes. some (conversation ∷ []);
  projects = λ bytes. none;
  canvas = λ bytes. none;
  assets = λ bytes. some (note ∷ []);
}

abbrev export : ExecutionInput
export = record {
  entries = ("files/note.txt", EntryKind.text) ∷ [];
  artifacts =
      record { path = "conversations.json"; bytes = 7 ∷ []; is_quarantined = false }
      ∷ record { path = "assets.json"; bytes = 8 ∷ []; is_quarantined = false }
      ∷ record { path = "files/note.txt"; bytes = 1 ∷ []; is_quarantined = false }
      ∷ [];
}

abbrev found_assets : Result ExecutionError ParsedConversations → List (Option BlobRef)
found_assets (ok parsed) = map (λ a. a.blob) parsed.assets
found_assets (err e) = []

-- A declared text is found among the entries.
note_found :
    found_assets (execute_registered plain_env readers export one_object).0 ≡ some text_blob ∷ []
unfolding execute_registered ◌>>=◌ BlobStore.store io BlobStore.verify
note_found = refl
