-- ===== src/Outbox/Events/Announcing.antt =====
-- Which rows an event adds: `enqueue_normalized_event` of crates/chatgpt-archive/src/outbox.rs.
use ratatoskr_chatgpt.Prelude.{
  ℕ, suc, ◌≡◌, refl, sym, ◌∙◌, inl, inr, String, Bool, true, false, Option, none, some, List, [],
  ◌∷◌, ◌++◌, ◌||◌, any, any-append, Bool-cases, arith, str_eq_iff,
}
use ratatoskr_chatgpt.Json.{Json}
use ratatoskr_chatgpt.Effect.{Result, ok, err, pure, raise, ◌>>=◌, ◌>>◌}
use ratatoskr_chatgpt.Outbox.Model.{OutboxRow, Store, State, next_turn, later_turns}
use ratatoskr_chatgpt.Outbox.Store.{sql_in, spend, answer}
use ratatoskr_chatgpt.Outbox.Erasure.{NewEvent, has_key, key_taken, new_row, insert_event}
use ratatoskr_chatgpt.Outbox.Erasure.Commands.{OnOk}
use ratatoskr_chatgpt.Outbox.Announced.{AnnouncedSubject, record_subject, is_announced}
use ratatoskr_chatgpt.Outbox.Events.{
  EventEnv, NormalizedArchiveEvent, OutboxPlacement, OutboxError, event_row, announce,
  enqueue_document, enqueue_normalized_event,
}

recorded-events :
    (subject : AnnouncedSubject) (account_id : ℕ) (s : Store)
    → (record_subject subject account_id s).1.events ≡ s.events
unfolding record_subject
recorded-events subject account_id s =
    elim (Bool-cases (is_announced subject.kind subject.subject_id subject.owner s.announced)) [
      | inl k ↦ rw (k) refl
      | inr k ↦ rw (k) refl
    ]

-- The state once the row is added.
abbrev after_insert : NewEvent → State → State
after_insert e w = record w {
  turns = later_turns w.turns;
  store = record w.store {
    events = w.store.events ++ new_row w.store.next_id w.store.clock e ∷ [];
    next_id = suc w.store.next_id;
  };
}

or_true : (b : Bool) → (b || true) ≡ true
or_true true = refl
or_true false = refl

module _ (key : String) where
  abbrev IsTaken : Store → Type 0
  IsTaken s = any (has_key key) s.events ≡ true

  -- The key stays taken whatever is announced.
  announce-OnOk :
      (subject : Option AnnouncedSubject) (account : Option ℕ) (added : Bool) (w : State)
      → IsTaken w.store
      → OnOk IsTaken ((announce subject account >> pure added) w)
  unfolding announce pure raise ◌>>=◌ sql_in spend answer
  announce-OnOk none account added w h = h
  announce-OnOk (some subject) none added w h = tt
  announce-OnOk (some subject) (some account_id) added w h =
      elim (Bool-cases (next_turn w.turns).fault) [
        | inl f ↦ rw (f) tt
        | inr f ↦ rw (f) (rw (recorded-events subject account_id w.store) h)
      ]

  new_row-has_key :
      (id now : ℕ) (e : NewEvent)
      → e.deduplication_key ≡ some key
      → has_key key (new_row id now e) ≡ true
  new_row-has_key id now e same = rw (same) (ground (arith, str_eq_iff key key))

  added-IsTaken :
      (rows : List OutboxRow) (id now : ℕ) (e : NewEvent)
      → e.deduplication_key ≡ some key
      → any (has_key key) (rows ++ new_row id now e ∷ []) ≡ true
  added-IsTaken rows id now e same =
      rw (any-append (has_key key) rows (new_row id now e ∷ []), new_row-has_key id now e same)
        (or_true (any (has_key key) rows))

  key_taken-some :
      (o : Option String) (rows : List OutboxRow)
      → o ≡ some key
      → key_taken o rows ≡ any (has_key key) rows
  key_taken-some o rows same = rw (same) refl

  document-OnOk :
      (event : NormalizedArchiveEvent) (placement : OutboxPlacement) (document : Option Json)
      (w : State)
      → placement.deduplication_key ≡ some key
      → OnOk IsTaken (enqueue_document event placement document w)
  unfolding enqueue_document insert_event pure raise ◌>>=◌ sql_in spend answer
  document-OnOk event placement none w e = tt
  document-OnOk event placement (some document) w e = elim (Bool-cases (next_turn w.turns).fault) [
    | inl f ↦ rw (f) tt
    | inr f ↦ elim (Bool-cases (key_taken placement.deduplication_key w.store.events)) [
      | inl k ↦ rw (f, k) (sym (key_taken-some placement.deduplication_key w.store.events e) ∙ k)
      | inr k ↦
          rw (f, k)
            (announce-OnOk event.announced placement.account_id true
              (after_insert (event_row event placement document) w)
              (added-IsTaken w.store.events w.store.next_id w.store.clock
                (event_row event placement document) e))
    ]
  ]

  taken-repeats :
      (event : NormalizedArchiveEvent) (placement : OutboxPlacement) (document : Json) (w : State)
      → placement.deduplication_key ≡ some key
      → IsTaken w.store
      → enqueue_document event placement (some document) (record w { turns = [] })
        ≡ (ok false, record w { turns = [] })
  unfolding enqueue_document insert_event pure ◌>>=◌ sql_in spend answer
  taken-repeats event placement document w e h =
      rw (key_taken-some placement.deduplication_key w.store.events e ∙ h) refl

  -- What holds after an enqueue that succeeds: whichever event comes under the key next is not added.
  abbrev pub IsOnce : Result OutboxError Bool × State → Type 0
  IsOnce (ok added, w) =
      (env : EventEnv) (event : NormalizedArchiveEvent) (placement : OutboxPlacement)
      (document : Json)
      → placement.deduplication_key ≡ some key
      → env.to_value event.envelope ≡ some document
      → enqueue_normalized_event env event placement (record w { turns = [] })
        ≡ (ok false, record w { turns = [] })
  IsOnce (err e, w) = Unit

  once : (r : Result OutboxError Bool) (w : State) → OnOk IsTaken (r, w) → IsOnce (r, w)
  unfolding enqueue_normalized_event
  once (err e) w h = tt
  once (ok added) w h = λ env event placement document e encoded.
      rw (encoded) (taken-repeats event placement document w e h)

-- An enqueue that succeeds takes its deduplication key for good: whichever event comes under that key
-- next, it is answered as not added, and neither the outbox nor the ledger changes.
pub enqueue_normalized_event-IsOnce :
    (env : EventEnv) (event : NormalizedArchiveEvent) (placement : OutboxPlacement) (w : State)
    (key : String)
    → placement.deduplication_key ≡ some key
    → IsOnce key (enqueue_normalized_event env event placement w)
unfolding enqueue_normalized_event
enqueue_normalized_event-IsOnce env event placement w key e =
    let (r, w') = enqueue_document event placement (env.to_value event.envelope) w in
    once key r w' (document-OnOk key event placement (env.to_value event.envelope) w e)
