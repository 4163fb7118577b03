-- ===== src/Receipt/Tests/Guarantees.antt =====
-- The rows of a small world before and after a receipt and a resumption.
use ratatoskr_chatgpt.Prelude.{refl, arith}
use ratatoskr_chatgpt.Import.{is_terminal}
use ratatoskr_chatgpt.Receipt.Mode.{consumer_export}
use ratatoskr_chatgpt.Receipt.Repository.{fresh_run}
use ratatoskr_chatgpt.Receipt.Staging.Contents.{chunks}
use ratatoskr_chatgpt.Receipt.Receiver.{receive_inner}
use ratatoskr_chatgpt.Receipt.Receiver.Guarantees.{receive_inner-Follows, receive_inner-IsSound}
use ratatoskr_chatgpt.Receipt.Resume.{resume, sweep_interrupted}
use ratatoskr_chatgpt.Receipt.Resume.Guarantees.{resume-IsSound, sweep_interrupted-IsSound}
use ratatoskr_chatgpt.Receipt.Orderly.{AreOrderly}
use ratatoskr_chatgpt.Receipt.Moves.{Follows}
use ratatoskr_chatgpt.Receipt.Soundness.{IsSoundRun, IsSound, staying_sound}
use ratatoskr_chatgpt.Receipt.Tests.{small_env, one_run, shaky, upload, body}

staying_shaky : AreOrderly staying_sound shaky.ticks
staying_shaky = (λ s. staying_sound.same s.db, (λ s. staying_sound.same s.db, tt))

fresh_run-IsSoundRun : IsSoundRun (fresh_run 7 "tenant" consumer_export "application/zip")
unfolding fresh_run is_terminal
fresh_run-IsSoundRun = ground arith

one_run-IsSound : IsSound one_run
one_run-IsSound = record {
  runs_apart = (refl, tt);
  runs_sound = (fresh_run-IsSoundRun, tt);
  exports_apart = tt;
  exports_bounded = tt;
  operations_apart = tt;
}

receive_inner-Follows_example :
    Follows shaky.ticks shaky.db (receive_inner small_env upload (chunks body) shaky).1.db
receive_inner-Follows_example = receive_inner-Follows small_env upload (chunks body) shaky

receive_inner-IsSound_example : IsSound (receive_inner small_env upload (chunks body) shaky).1.db
receive_inner-IsSound_example =
    receive_inner-IsSound small_env upload (chunks body) shaky staying_shaky one_run-IsSound

resume-IsSound_example : IsSound (resume small_env 7 shaky).1.db
resume-IsSound_example = resume-IsSound small_env 7 shaky staying_shaky one_run-IsSound

sweep_interrupted-IsSound_example : IsSound (sweep_interrupted small_env shaky).1.db
sweep_interrupted-IsSound_example =
    sweep_interrupted-IsSound small_env shaky staying_shaky one_run-IsSound
