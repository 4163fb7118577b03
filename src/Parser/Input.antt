-- ===== src/Parser/Input.antt =====
-- crates/chatgpt-archive/src/synthetic_parser/input.rs: the shape of the documents that serde reads;
-- and the asset declarations of assets.rs. A floating-point number stands for its text, and the
-- entries of a mapping stand in key order.
use ratatoskr_chatgpt.Prelude.{ℕ, String, Option, List}
use ratatoskr_chatgpt.Json.{Json, Members}

pub record AuthorInput : Type 0 where
  pub role : String
  pub extra : Members

pub record MetadataInput : Type 0 where
  pub model_slug : Option String
  pub extra : Members

pub record ContentInput : Type 0 where
  pub parts : List Json
  pub extra : Members

pub record MessageInput : Type 0 where
  pub id : String
  pub author : AuthorInput
  pub create_time : Option String
  pub update_time : Option String
  pub metadata : MetadataInput
  pub content : ContentInput
  pub extra : Members

pub record MappingInput : Type 0 where
  pub id : Option String
  pub parent : Option String
  pub message : Option MessageInput
  pub extra : Members

pub record ConversationInput : Type 0 where
  pub id : String
  pub title : Option String
  pub create_time : Option String
  pub update_time : Option String
  pub mapping : List (String × MappingInput)
  pub extra : Members

pub record InstructionInput : Type 0 where
  pub id : Option String
  pub kind : String
  pub content : Json
  pub extra : Members

pub record ProjectInput : Type 0 where
  pub id : String
  pub title : Option String
  pub description : Option String
  pub instructions : List InstructionInput
  pub conversation_ids : List String
  pub asset_ids : List String
  pub extra : Members

pub record CanvasInput : Type 0 where
  pub id : String
  pub project_id : Option String
  pub conversation_id : Option String
  pub content : List Json
  pub extra : Members

pub record AssetInput : Type 0 where
  pub id : String
  pub kind : String
  pub project_id : Option String
  pub conversation_id : Option String
  pub display_name : Option String
  pub archive_path : Option String
  pub media_type : Option String
  pub length_bytes : Option ℕ
  pub sha256 : Option String
  pub extra : Members

-- `serde_json::from_slice` of each document; `none` where it refuses.
pub record Readers : Type 0 where
  pub conversations : List ℕ → Option (List ConversationInput)
  pub projects : List ℕ → Option (List ProjectInput)
  pub canvas : List ℕ → Option (List CanvasInput)
  pub assets : List ℕ → Option (List AssetInput)
