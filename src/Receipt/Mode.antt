-- ===== src/Receipt/Mode.antt =====
-- `AcquisitionMode` of crates/chatgpt-archive/src/receipt/mod.rs and its database spellings.
use ratatoskr_chatgpt.Prelude.{String, ◌≡◌, refl, Option, none, some, if◌then◌else◌, str_eq}

pub data AcquisitionMode : Type 0 where
  consumer_export edu_export compliance_log manual_capture legacy_import : AcquisitionMode

unfoldable pub as_str : AcquisitionMode → String
as_str consumer_export = "consumer_export"
as_str edu_export = "edu_export"
as_str compliance_log = "compliance_log"
as_str manual_capture = "manual_capture"
as_str legacy_import = "legacy_import"

unfoldable pub parse : String → Option AcquisitionMode
parse spelling =
    if str_eq spelling "consumer_export"
    then some consumer_export
    else if str_eq spelling "edu_export"
    then some edu_export
    else if str_eq spelling "compliance_log"
    then some compliance_log
    else if str_eq spelling "manual_capture"
    then some manual_capture
    else if str_eq spelling "legacy_import"
    then some legacy_import
    else none

pub parse-as_str : (m : AcquisitionMode) → parse (as_str m) ≡ some m
unfolding parse as_str
parse-as_str consumer_export = refl
parse-as_str _ = refl
