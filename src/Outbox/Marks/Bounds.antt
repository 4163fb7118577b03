-- ===== src/Outbox/Marks/Bounds.antt =====
-- The waits and the arrays that crates/chatgpt-archive/src/receipt/outbox/marks.rs writes.
use ratatoskr_chatgpt.Prelude.{
  ℕ, zero, suc, ◌≤◌, ◌<◌, ◌≡◌, refl, min, List, [], ◌∷◌, true, false, All, All-mono, arith, ltb,
  ◌++◌, ◌||◌, ◌==◌, Bool-cases, inl, inr,
}
use ratatoskr_chatgpt.Outbox.Model.{Env, OutboxRow}
use ratatoskr_chatgpt.Outbox.Marks.{backoff_seconds, insert_sequence, ascending, set_published}
use ratatoskr_chatgpt.Outbox.Copies.{contains}
use ratatoskr_chatgpt.Outbox.Copies.Sequences.{contains-append, contains-ascending}

at_most : (attempts : ℕ) → 8 ≤ attempts → backoff_seconds attempts ≡ 256
unfolding backoff_seconds
at_most attempts h = rw (eight attempts h) refl
  where
    eight : (n : ℕ) → 8 ≤ n → min n 8 ≡ 8
    eight n h = omega arith

-- A failure backs off for one second at least and 256 at most, so the cap of 300 is never reached,
-- and never for less than the failure before it.
pub backoff_seconds-bounds :
    (attempts : ℕ)
    → (1 ≤ backoff_seconds attempts)
      × (backoff_seconds attempts ≤ 256)
      × (backoff_seconds attempts ≤ backoff_seconds (suc attempts))
unfolding backoff_seconds
backoff_seconds-bounds zero = (omega arith, omega arith, omega arith)
backoff_seconds-bounds (suc zero) = (omega arith, omega arith, omega arith)
backoff_seconds-bounds (suc (suc zero)) = (omega arith, omega arith, omega arith)
backoff_seconds-bounds (suc (suc (suc zero))) = (omega arith, omega arith, omega arith)
backoff_seconds-bounds (suc (suc (suc (suc zero)))) = (omega arith, omega arith, omega arith)
backoff_seconds-bounds (suc (suc (suc (suc (suc zero))))) = (omega arith, omega arith, omega arith)
backoff_seconds-bounds (suc (suc (suc (suc (suc (suc zero)))))) =
    (omega arith, omega arith, omega arith)
backoff_seconds-bounds (suc (suc (suc (suc (suc (suc (suc zero))))))) =
    (omega arith, omega arith, omega arith)
backoff_seconds-bounds (suc (suc (suc (suc (suc (suc (suc (suc n)))))))) =
    let first = at_most (suc (suc (suc (suc (suc (suc (suc (suc n)))))))) (omega arith) in
    let second = at_most (suc (suc (suc (suc (suc (suc (suc (suc (suc n))))))))) (omega arith) in
    (omega (arith, first), omega (arith, first), omega (arith, first, second))

abbrev pub IsAscending : List ℕ → Type 0
IsAscending [] = Unit
IsAscending (n ∷ ns) = All (λ m. n < m) ns × IsAscending ns

above-insert :
    (b n : ℕ) (ns : List ℕ) → b < n → All (λ m. b < m) ns → All (λ m. b < m) (insert_sequence n ns)
unfolding insert_sequence
above-insert b n [] h k = (h, tt)
above-insert b n (m ∷ ms) h k = elim (Bool-cases (ltb n m)) [
  | inl e ↦ rw (e) (h, k)
  | inr e ↦ elim (Bool-cases (n == m)) [
    | inl f ↦ rw (e, f) k
    | inr f ↦ rw (e, f) (k.0, above-insert b n ms h k.1)
  ]
]

insert_sequence-IsAscending :
    (n : ℕ) (ns : List ℕ) → IsAscending ns → IsAscending (insert_sequence n ns)
unfolding insert_sequence
insert_sequence-IsAscending n [] h = (tt, tt)
insert_sequence-IsAscending n (m ∷ ms) h = elim (Bool-cases (ltb n m)) [
  | inl e ↦ rw (e) ((below n m e, All-mono (λ k l. omega (arith, below n m e, l)) ms h.0), h)
  | inr e ↦ elim (Bool-cases (n == m)) [
    | inl f ↦ rw (e, f) h
    | inr f ↦
        rw (e, f) (above-insert m n ms (beyond n m e f) h.0, insert_sequence-IsAscending n ms h.1)
  ]
]
  where
    below : (n m : ℕ) → ltb n m ≡ true → n < m
    below n m e = ground arith

    beyond : (n m : ℕ) → ltb n m ≡ false → (n == m) ≡ false → m < n
    beyond n m e f = ground arith

ascending-IsAscending : (ns : List ℕ) → IsAscending (ascending ns)
unfolding ascending
ascending-IsAscending [] = tt
ascending-IsAscending (n ∷ ns) =
    insert_sequence-IsAscending n (ascending ns) (ascending-IsAscending ns)

-- The mark of a publication leaves the sequences of the row strictly ascending, and they are those
-- that the row held and those that the mark was given, no more and no fewer.
pub set_published-merges :
    (env : Env) (sequences : List ℕ) (now : ℕ) (r : OutboxRow)
    → IsAscending (set_published env sequences now r).published_stream_seqs
      × ((x : ℕ)
          → contains x (set_published env sequences now r).published_stream_seqs
            ≡ (contains x r.published_stream_seqs || contains x sequences))
unfolding set_published
set_published-merges env sequences now r = (
  ascending-IsAscending (r.published_stream_seqs ++ sequences),
  λ x.
      rw (contains-ascending x (r.published_stream_seqs ++ sequences))
        (contains-append x r.published_stream_seqs sequences),
)
