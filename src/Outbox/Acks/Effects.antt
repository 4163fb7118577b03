-- ===== src/Outbox/Acks/Effects.antt =====
-- The rows after `acknowledge` of crates/chatgpt-archive/src/deletion_ack.rs.
use ratatoskr_chatgpt.Prelude.{ℕ, ◌≡◌, Bool, false, List, [], not, ◌&&◌, any}
use ratatoskr_chatgpt.Effect.{Result, ok, err}
use ratatoskr_chatgpt.Outbox.Model.{OutboxRow, State}
use ratatoskr_chatgpt.Outbox.Store.{update_where, select}
use ratatoskr_chatgpt.Outbox.Pump.{is_pending}
use ratatoskr_chatgpt.Outbox.Acks.{
  Acknowledgement, AckApplication, unmatched, DatabaseError, is_addressed, awaits_ack,
  set_acknowledged, acknowledge,
}

module _ (ack : Acknowledgement) (is_refused : Bool) (at : ℕ) where
  abbrev after : List OutboxRow → List OutboxRow
  after = update_where (awaits_ack ack) (set_acknowledged is_refused at)

-- No row that the acknowledgement names is ever selected by the pump again, rows that it does not name
-- are as they were, and to record it once more changes nothing.
pub record IsEnded (ack : Acknowledgement) (before : List OutboxRow) (w : State) : Type 0 where
  pub never_pending :
      (now : ℕ) → any (λ r. is_addressed ack r && is_pending now r) w.store.events ≡ false
  pub others :
      select (λ r. not (is_addressed ack r)) w.store.events
      ≡ select (λ r. not (is_addressed ack r)) before
  pub repeated : acknowledge ack (record w { turns = [] }) ≡ (ok unmatched, record w { turns = [] })

abbrev pub Leaves :
    Acknowledgement → List OutboxRow → Result DatabaseError AckApplication × State → Type 0
Leaves ack before (ok application, w) = IsEnded ack before w
Leaves ack before (err e, w) = w.store.events ≡ before
