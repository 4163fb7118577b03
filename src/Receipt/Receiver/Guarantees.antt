-- ===== src/Receipt/Receiver/Guarantees.antt =====
-- The rows before and after `receive_inner` of crates/chatgpt-archive/src/receipt/mod.rs, whatever
-- fails and whoever else writes.
use ratatoskr_chatgpt.Prelude.{refl, List, [], ◌∷◌}
use ratatoskr_chatgpt.Receipt.World.{World, Env, Tick}
use ratatoskr_chatgpt.Receipt.Staging.{Item}
use ratatoskr_chatgpt.Receipt.Receiver.{Upload, receive_inner}
use ratatoskr_chatgpt.Receipt.Receiver.Rules.{Guards-receive_inner}
use ratatoskr_chatgpt.Receipt.Orderly.{AreOrderly, kept}
use ratatoskr_chatgpt.Receipt.Moves.{IsScheduled, first, later, Follows, done, others, following}
use ratatoskr_chatgpt.Receipt.Soundness.{IsSound, staying_sound}
use ratatoskr_chatgpt.Receipt.Soundness.Statements.{staying_sound-Accepts}
use ratatoskr_chatgpt.Receipt.Moves.Statements.{following-Accepts}

-- What the others of a schedule do is what they are scheduled to do.
scheduled :
    (all ticks : List Tick)
    → ((t : Tick) → IsScheduled t ticks → IsScheduled t all)
    → AreOrderly (following all) ticks
unfolding following
scheduled all [] within = tt
scheduled all (t ∷ ticks) within =
    (λ s. others t s (within t first) refl done, scheduled all ticks (λ u i. within u (later i)))

-- Whichever calls fail and whatever others do to the rows before each call, the rows after a receipt
-- come about from those before it by what these others do, and by writes of which each does, to the
-- run of every identity, one of three things: nothing; create it at `received`, where there is none;
-- or make one listed move of the import state machine, from the stage at which the run is then, with
-- its declaration kept, and kept too its digest and length from `hashed` on and its export from
-- `stored` on.
pub receive_inner-Follows :
    (env : Env) (upload : Upload) (items : List Item) (w : World)
    → Follows w.ticks w.db (receive_inner env upload items w).1.db
unfolding following
receive_inner-Follows env upload items w =
    kept (following w.ticks) _
      (Guards-receive_inner (following w.ticks) (following-Accepts w.ticks) env upload items) w
      (scheduled w.ticks w.ticks (λ t i. i))

-- Whichever calls fail, and whatever others do in between as long as they keep sound rows sound, a
-- receipt keeps sound rows sound: run identities, operation identities and the digests of one
-- account stay apart, a run is finished exactly at a terminal stage, a run from `hashed` on holds
-- its digest and length and a run from `stored` on its export (failed and, for the export,
-- duplicate runs apart), and every length fits its column.
pub receive_inner-IsSound :
    (env : Env) (upload : Upload) (items : List Item) (w : World)
    → AreOrderly staying_sound w.ticks
    → IsSound w.db
    → IsSound (receive_inner env upload items w).1.db
unfolding staying_sound
receive_inner-IsSound env upload items w orderly sound =
    kept staying_sound _ (Guards-receive_inner staying_sound staying_sound-Accepts env upload items)
      w orderly sound
