-- ===== src/Json.antt =====
-- A JSON document as serde_json holds it; a number is kept by its spelling, and the members of an
-- object stand in the order in which the document is walked.
use ratatoskr_chatgpt.Prelude.{String, Bool, true, false, Option, none, some, if◌then◌else◌, str_eq}

mutual
  pub data Json : Type 0 where
    null : Json
    boolean : Bool → Json
    number : String → Json
    string : String → Json
    array : Items → Json
    object : Members → Json

  pub data Items : Type 0 where
    nil : Items
    cons : Json → Items → Items

  pub data Members : Type 0 where
    empty : Members
    member : String → Json → Members → Members

abbrev pub get_member : String → Members → Option Json
get_member key empty = none
get_member key (member k v rest) = if str_eq k key then some v else get_member key rest

-- `value.get(key)`
abbrev pub get : String → Json → Option Json
get key (object members) = get_member key members
get key _ = none

-- `value.as_str()`
abbrev pub as_text : Json → Option String
as_text (string s) = some s
as_text _ = none

-- `value.get(key).and_then(Value::as_str)`.
abbrev pub get_text : String → Json → Option String
get_text key j = elim (get key j) [ none ↦ none | some v ↦ as_text v ]

-- `payload ->> 'key'`, which turns a scalar into a text; an array or an object, which it would print
-- as a document, reads as none here.
abbrev pub scalar_text : Json → Option String
scalar_text (string s) = some s
scalar_text (number n) = some n
scalar_text (boolean true) = some "true"
scalar_text (boolean false) = some "false"
scalar_text _ = none

abbrev pub column_text : String → Json → Option String
column_text key j = elim (get key j) [ none ↦ none | some v ↦ scalar_text v ]
