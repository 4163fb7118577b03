-- ===== src/Outbox/Pump/Selection.antt =====
-- The batch that `pending_rows` of crates/chatgpt-archive/src/receipt/outbox/mod.rs selects.
use ratatoskr_chatgpt.Prelude.{
  ℕ, zero, suc, ◌≤◌, ◌≡◌, refl, ap, inl, inr, String, Bool, true, false, List, [], ◌∷◌, map, All,
  All-mono, Bool-cases, arith, length, str_eq, str_eq_iff,
}
use ratatoskr_chatgpt.Outbox.Model.{OutboxRow, Store}
use ratatoskr_chatgpt.Outbox.Store.{select}
use ratatoskr_chatgpt.Outbox.Subject.{tombstone_event_type, is_content_bearing}
use ratatoskr_chatgpt.Outbox.Marks.{not_null}
use ratatoskr_chatgpt.Outbox.Carry.{carried_owner}
use ratatoskr_chatgpt.Outbox.Pump.{is_pending, take, read_candidate, pending_in, batch_size}
use ratatoskr_chatgpt.Outbox.Copies.{is_owed}
use ratatoskr_chatgpt.Outbox.Copies.First.{IsChosen}

length-take : {A : Type 0} (n : ℕ) (xs : List A) → length (take n xs) ≤ n
length-take zero xs = omega arith
length-take (suc n) [] = omega arith
length-take (suc n) (x ∷ xs) = omega (arith, length-take n xs)

length-map : {A B : Type 0} (f : A → B) (xs : List A) → length (map f xs) ≡ length xs
length-map f [] = refl
length-map f (x ∷ xs) = ap suc (length-map f xs)

All-take : {A : Type 0} (P : A → Type 0) (n : ℕ) (xs : List A) → All P xs → All P (take n xs)
All-take P zero xs h = tt
All-take P (suc n) [] h = tt
All-take P (suc n) (x ∷ xs) h = (h.0, All-take P n xs h.1)

All-map :
    {A B : Type 0} (P : B → Type 0) (f : A → B) (xs : List A)
    → All (λ x. P (f x)) xs
    → All P (map f xs)
All-map P f [] h = tt
All-map P f (x ∷ xs) h = (h.0, All-map P f xs h.1)

All-selected :
    (P : OutboxRow → Type 0) (q : OutboxRow → Bool) (rows : List OutboxRow)
    → All P rows
    → All (λ r. P r × (q r ≡ true)) (select q rows)
unfolding select
All-selected P q [] h = tt
All-selected P q (r ∷ rows) h =
    let rest = All-selected P q rows h.1 in
    elim (Bool-cases (q r)) [ inl k ↦ rw (k) ((h.0, k), rest) | inr k ↦ rw (k) rest ]

tombstone-bears_nothing : (t : String) → t ≡ tombstone_event_type → is_content_bearing t ≡ false
unfolding is_content_bearing
tombstone-bears_nothing t e = rw (e) refl

-- Of the published rows only tombstones are selected.
resent-is_tombstone :
    (now : ℕ) (r : OutboxRow)
    → is_pending now r ≡ true
    → not_null r.published_at ≡ true
    → str_eq r.event_type tombstone_event_type ≡ true
unfolding is_pending
resent-is_tombstone now r h k = ground arith

resent-is_owed :
    (now : ℕ) (r : OutboxRow)
    → is_pending now r ≡ true
    → not_null r.published_at ≡ true
    → is_owed (read_candidate r) ≡ false
unfolding is_owed carried_owner read_candidate
resent-is_owed now r h k =
    rw
      (tombstone-bears_nothing r.event_type
        ((str_eq_iff r.event_type tombstone_event_type).0 (resent-is_tombstone now r h k)))
      refl

-- The type and the document of every row say of its identity whether its copies are owed.
abbrev pub AreOwned : (ℕ → Bool) → List OutboxRow → Type 0
AreOwned owes = All (λ r. is_owed (read_candidate r) ≡ owes r.id)

read_candidate-IsChosen :
    (owes : ℕ → Bool) (now : ℕ) (r : OutboxRow)
    → is_owed (read_candidate r) ≡ owes r.id
    → is_pending now r ≡ true
    → IsChosen owes (read_candidate r)
unfolding read_candidate
read_candidate-IsChosen owes now r o h = record { owed = o; resent = λ k. resent-is_owed now r h k }

-- A pass selects 32 rows at most, and each is as the safety of the pump asks: whether its copies are
-- owed is a matter of its row, and what it publishes again carries no content.
pub pending_in-IsChosen :
    (owes : ℕ → Bool) (s : Store)
    → AreOwned owes s.events
    → (length (pending_in s) ≤ 32) × All (IsChosen owes) (pending_in s)
unfolding pending_in
pending_in-IsChosen owes s owned =
    let rows = select (is_pending s.clock) s.events in
    (
      omega (arith, length-map read_candidate (take batch_size rows), length-take batch_size rows),
      All-map (IsChosen owes) read_candidate (take batch_size rows) (
          All-mono (λ r (o, h). read_candidate-IsChosen owes s.clock r o h) (take batch_size rows)
            (All-take _ batch_size rows (All-selected _ (is_pending s.clock) s.events owned))),
    )
