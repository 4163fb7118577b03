-- ===== src/Outbox/Erasure/Chunks.antt =====
-- How `enqueue_owner_erasure` of crates/chatgpt-archive/src/stream_erasure.rs splits the sequences of
-- an owner.
use ratatoskr_chatgpt.Prelude.{
  ℕ, zero, suc, ◌-◌, ◌≤◌, ◌<◌, ◌≡◌, refl, ap, List, [], ◌∷◌, ◌++◌, length, arith,
}
use ratatoskr_chatgpt.Outbox.Erasure.{fill_chunk, chunks, max_sequences_per_command}

abbrev pub concat : {A : Type 0} → List (List A) → List A
concat [] = []
concat (xs ∷ xss) = xs ++ concat xss

concat-fill_chunk :
    (size room : ℕ) (xs : List ℕ)
    → (fill_chunk size room xs).0 ++ concat (fill_chunk size room xs).1 ≡ xs
unfolding fill_chunk
concat-fill_chunk size room [] = refl
concat-fill_chunk size zero (x ∷ xs) = ap (λ ys. x ∷ ys) (concat-fill_chunk size (size - 1) xs)
concat-fill_chunk size (suc room) (x ∷ xs) = ap (λ ys. x ∷ ys) (concat-fill_chunk size room xs)

pub concat-chunks : (size : ℕ) (xs : List ℕ) → concat (chunks size xs) ≡ xs
unfolding chunks fill_chunk
concat-chunks size [] = refl
concat-chunks size (x ∷ xs) = concat-fill_chunk size 0 (x ∷ xs)

-- A chunk before others is full, and the last one not above the size.
abbrev pub IsFilled : ℕ → List ℕ → List (List ℕ) → Type 0
IsFilled size c [] = length c ≤ size
IsFilled size c (d ∷ cs) = length c ≡ size

-- No chunk is empty, and only the last one may be short of the size.
abbrev pub AreFilled : ℕ → List (List ℕ) → Type 0
AreFilled size [] = Unit
AreFilled size (c ∷ cs) = (0 < length c) × IsFilled size c cs × AreFilled size cs

IsFilled-suc :
    (room more x : ℕ) (c : List ℕ) (cs : List (List ℕ))
    → more ≡ suc room
    → IsFilled room c cs
    → IsFilled more (x ∷ c) cs
IsFilled-suc room more x c [] e h = omega arith
IsFilled-suc room more x c (d ∷ cs) e h = omega arith

fill_chunk-AreFilled :
    (below room : ℕ) (xs : List ℕ)
    → IsFilled room (fill_chunk (suc below) room xs).0 (fill_chunk (suc below) room xs).1
      × AreFilled (suc below) (fill_chunk (suc below) room xs).1
unfolding fill_chunk
fill_chunk-AreFilled below room [] = (omega arith, tt)
fill_chunk-AreFilled below zero (x ∷ xs) =
    let (fits, rest) = fill_chunk-AreFilled below (suc below - 1) xs in
    let (c, cs) = fill_chunk (suc below) (suc below - 1) xs in
    (refl, (omega arith, IsFilled-suc (suc below - 1) (suc below) x c cs (omega arith) fits, rest))
fill_chunk-AreFilled below (suc room) (x ∷ xs) =
    let (fits, rest) = fill_chunk-AreFilled below room xs in
    let (c, cs) = fill_chunk (suc below) room xs in
    (IsFilled-suc room (suc room) x c cs refl fits, rest)

pub chunks-AreFilled :
    (sequences : List ℕ) → AreFilled 500 (chunks max_sequences_per_command sequences)
unfolding chunks
chunks-AreFilled sequences = (fill_chunk-AreFilled 499 0 sequences).1
