-- ===== src/Import.antt =====
-- The durable import state machine of crates/chatgpt-archive/src/receipt/state.rs: the stages of
-- one import run, their database spellings, and the guarded move between two stages.
pub mod Machine
pub mod Spelling
mod Tests
use ratatoskr_chatgpt.Prelude.{String, Bool, true, false, Option, none, some, if◌then◌else◌, str_eq}

pub data ImportState : Type 0 where
  received hashed stored inspected parsed reconciled : ImportState
  completed partial failed duplicate quarantined : ImportState

pub ImportState-discrete : Discrete ImportState
ImportState-discrete = hlevel

pub data TransitionError : Type 0 where
  already_terminal : ImportState → TransitionError
  illegal_jump : ImportState → ImportState → TransitionError

pub data Advanced : Type 0 where
  ok : ImportState → Advanced
  err : TransitionError → Advanced

unfoldable pub is_terminal : ImportState → Bool
is_terminal completed = true
is_terminal partial = true
is_terminal failed = true
is_terminal duplicate = true
is_terminal quarantined = true
is_terminal _ = false

unfoldable pub as_str : ImportState → String
as_str received = "received"
as_str hashed = "hashed"
as_str stored = "stored"
as_str inspected = "inspected"
as_str parsed = "parsed"
as_str reconciled = "reconciled"
as_str completed = "completed"
as_str partial = "partial"
as_str failed = "failed"
as_str duplicate = "duplicate"
as_str quarantined = "quarantined"

unfoldable pub parse : String → Option ImportState
parse spelling =
    if str_eq spelling "received"
    then some received
    else if str_eq spelling "hashed"
    then some hashed
    else if str_eq spelling "stored"
    then some stored
    else if str_eq spelling "inspected"
    then some inspected
    else if str_eq spelling "parsed"
    then some parsed
    else if str_eq spelling "reconciled"
    then some reconciled
    else if str_eq spelling "completed"
    then some completed
    else if str_eq spelling "partial"
    then some partial
    else if str_eq spelling "failed"
    then some failed
    else if str_eq spelling "duplicate"
    then some duplicate
    else if str_eq spelling "quarantined"
    then some quarantined
    else none

-- The `matches!` over the pair of the current stage and the target.
legal : ImportState → ImportState → Bool
legal received hashed = true
legal hashed stored = true
legal hashed duplicate = true
legal stored inspected = true
legal inspected parsed = true
legal parsed reconciled = true
legal reconciled completed = true
legal reconciled partial = true
legal _ failed = true
legal _ _ = false

unfoldable pub advance : ImportState → ImportState → Advanced
unfolding is_terminal legal
advance current target =
    if is_terminal current
    then err (already_terminal current)
    else if legal current target
    then ok target
    else err (illegal_jump current target)
