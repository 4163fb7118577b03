-- ===== src/Outbox/Copies/Steps.antt =====
-- The statements of crates/chatgpt-archive/src/receipt/outbox that stand by themselves: the marks of
-- marks.rs, and a publish that is repeated.
use ratatoskr_chatgpt.Prelude.{
  ℕ, ◌≡◌, refl, Bool, true, false, List, [], ◌∷◌, if◌then◌else◌, All, All-mono, arith,
}
use ratatoskr_chatgpt.Effect.{err, pure, ◌>>◌}
use ratatoskr_chatgpt.Effect.Guards.{Guards, Guards-bind, Guards-pure}
use ratatoskr_chatgpt.Outbox.Model.{
  OutboxRow, Turn, Store, State, Env, next_turn, later_turns, database,
}
use ratatoskr_chatgpt.Outbox.Store.{Statement, sql, wait, spend, answer}
use ratatoskr_chatgpt.Outbox.Marks.{
  update_events, mark_resent, set_resent, record_resend_failure, set_resend_failed,
  mark_undeliverable, set_undeliverable, record_failure, set_failed,
}
use ratatoskr_chatgpt.Outbox.Copies.{
  is_settled, is_accounted, IsSafe, Settles, IsOrderly, keeping_copies,
}
use ratatoskr_chatgpt.Outbox.Copies.Sequences.{Grows, is_settled-update_where}

-- What a mark that records no sequence leaves of a row.
abbrev pub Unchanged : OutboxRow → OutboxRow → Type 0
Unchanged r r' =
    (r'.id ≡ r.id)
    × (r'.event_type ≡ r.event_type)
    × (r'.payload ≡ r.payload)
    × (r'.published_stream_seqs ≡ r.published_stream_seqs)

Unchanged-Grows : (f : OutboxRow → OutboxRow) → ((r : OutboxRow) → Unchanged r (f r)) → Grows f
Unchanged-Grows f same = record {
  id = λ r. (same r).0;
  event_type = λ r. (same r).1;
  payload = λ r. (same r).2;
  sequences = λ r x h. rw ((same r).3) h;
}

module _ (env : Env) (owes : ℕ → Bool) where
  pub Settles-next_turn :
      (ts : List Turn)
      → All (λ t. Settles env owes t.others) ts
      → Settles env owes (next_turn ts).others
  Settles-next_turn [] o s id x owed h = h
  Settles-next_turn (t ∷ ts) o s id x owed h = o.0 s id x owed h

  pub later_turns-AreOrderly :
      (ts : List Turn)
      → All (λ t. Settles env owes t.others) ts
      → All (λ t. Settles env owes t.others) (later_turns ts)
  later_turns-AreOrderly [] o = o
  later_turns-AreOrderly (t ∷ ts) o = o.1

  -- Rows that settle what the rows before settled may take their place.
  pub replace_rows-IsSafe :
      (w : State) (s : Store)
      → ((id x : ℕ)
          → owes id ≡ true
          → is_settled env id x w.store ≡ true
          → is_settled env id x s ≡ true)
      → IsSafe env owes w
      → IsSafe env owes (record w { store = s })
  unfolding is_accounted
  replace_rows-IsSafe w s f safe = record {
    kept =
        All-mono (λ copy h o. ground (arith, h o, f copy.candidate.id copy.sequence o)) w.copies
          safe.kept;
    owed = safe.owed;
  }

  pub spend-IsOrderly : (w : State) → IsOrderly env owes w → IsOrderly env owes (spend w).0
  unfolding spend
  spend-IsOrderly w o = record {
    others = later_turns-AreOrderly w.turns o.others;
    replies = o.replies;
  }

  pub spend-IsSafe : (w : State) → IsSafe env owes w → IsSafe env owes (spend w).0
  unfolding spend
  spend-IsSafe w safe = record { kept = safe.kept; owed = safe.owed }

  pub wait-IsOrderly : (w : State) → IsOrderly env owes w → IsOrderly env owes (wait w).0
  unfolding wait
  wait-IsOrderly w o = record {
    others = later_turns-AreOrderly w.turns o.others;
    replies = o.replies;
  }

  pub wait-IsSafe :
      (w : State) → IsOrderly env owes w → IsSafe env owes w → IsSafe env owes (wait w).0
  unfolding wait
  wait-IsSafe w o safe =
      let safe' =
        replace_rows-IsSafe w ((next_turn w.turns).others w.store)
          (Settles-next_turn w.turns o.others w.store) safe in
      record { kept = safe'.kept; owed = safe'.owed }

  module _ {A : Type 0} (st : Statement A)
      (settles : (s : Store) (id x : ℕ)
        → owes id ≡ true
        → is_settled env id x s ≡ true
        → is_settled env id x (st s).1 ≡ true) where
    answered-rel :
        {E : Type 0} (e : E) (fault : Bool) (w : State)
        → (keeping_copies env owes).rel w (if fault then (err e, w) else answer st w).1
    unfolding keeping_copies answer
    answered-rel e true w o safe = (o, safe)
    answered-rel e false w o safe = (
      record { others = o.others; replies = o.replies },
      replace_rows-IsSafe w (st w.store).1 (settles w.store) safe,
    )

    pub Guards-sql : {E : Type 0} (e : E) → Guards (keeping_copies env owes) (sql e st)
    unfolding sql keeping_copies
    Guards-sql e = record {
      at = λ w o safe.
          answered-rel e (wait w).1.fault (wait w).0 (wait-IsOrderly w o) (wait-IsSafe w o safe);
    }

  pub Guards-update :
      (p : Store → OutboxRow → Bool) (f : Store → OutboxRow → OutboxRow)
      → ((s : Store) (r : OutboxRow) → Unchanged r (f s r))
      → Guards
          (keeping_copies env owes)
          (sql database (λ s. update_events (p s) (f s) s) >> pure tt)
  unfolding update_events
  Guards-update p f unchanged =
      Guards-bind _ _
        (Guards-sql _
          (λ s id x owed h.
            is_settled-update_where env (p s) (f s) (Unchanged-Grows (f s) (unchanged s)) id x s h)
          database)
        (λ _. Guards-pure tt)

  pub Guards-mark_resent : (id : ℕ) → Guards (keeping_copies env owes) (mark_resent env id)
  unfolding mark_resent set_resent
  Guards-mark_resent id =
      Guards-update _ (λ s. set_resent env s.clock) (λ s r. (refl, refl, refl, refl))

  pub Guards-record_resend_failure :
      (id : ℕ) → Guards (keeping_copies env owes) (record_resend_failure id)
  unfolding record_resend_failure set_resend_failed
  Guards-record_resend_failure id =
      Guards-update _ (λ s. set_resend_failed s.clock) (λ s r. (refl, refl, refl, refl))

  pub Guards-mark_undeliverable :
      (id : ℕ) → Guards (keeping_copies env owes) (mark_undeliverable id)
  unfolding mark_undeliverable set_undeliverable
  Guards-mark_undeliverable id =
      Guards-update _ (λ s. set_undeliverable s.clock) (λ s r. (refl, refl, refl, refl))

  pub Guards-record_failure : (id : ℕ) → Guards (keeping_copies env owes) (record_failure id)
  unfolding record_failure set_failed
  Guards-record_failure id =
      Guards-update _ (λ s. set_failed s.clock) (λ s r. (refl, refl, refl, refl))
