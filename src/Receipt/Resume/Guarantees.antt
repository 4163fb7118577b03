-- ===== src/Receipt/Resume/Guarantees.antt =====
-- The rows before and after `resume` and `sweep_interrupted` of
-- crates/chatgpt-archive/src/receipt/mod.rs, whatever fails and whoever else writes.
use ratatoskr_chatgpt.Prelude.{ℕ}
use ratatoskr_chatgpt.Receipt.World.{World, Env}
use ratatoskr_chatgpt.Receipt.Resume.{resume, sweep_interrupted}
use ratatoskr_chatgpt.Receipt.Resume.Rules.{Guards-resume, Guards-sweep_interrupted}
use ratatoskr_chatgpt.Receipt.Orderly.{AreOrderly, kept}
use ratatoskr_chatgpt.Receipt.Soundness.{IsSound, staying_sound}
use ratatoskr_chatgpt.Receipt.Soundness.Statements.{staying_sound-Accepts, staying_sound-overrules}

-- Whichever calls fail, and whatever others do in between as long as they keep sound rows sound,
-- the resumption of a run keeps sound rows sound.
pub resume-IsSound :
    (env : Env) (id : ℕ) (w : World)
    → AreOrderly staying_sound w.ticks
    → IsSound w.db
    → IsSound (resume env id w).1.db
unfolding staying_sound
resume-IsSound env id w orderly sound =
    kept staying_sound _
      (Guards-resume staying_sound staying_sound-Accepts staying_sound-overrules env id) w orderly
      sound

-- Whichever calls fail, and whatever others do in between as long as they keep sound rows sound,
-- the sweep over all interrupted runs at the start of the service keeps sound rows sound.
pub sweep_interrupted-IsSound :
    (env : Env) (w : World)
    → AreOrderly staying_sound w.ticks
    → IsSound w.db
    → IsSound (sweep_interrupted env w).1.db
unfolding staying_sound
sweep_interrupted-IsSound env w orderly sound =
    kept staying_sound _
      (Guards-sweep_interrupted staying_sound staying_sound-Accepts staying_sound-overrules env) w
      orderly sound
