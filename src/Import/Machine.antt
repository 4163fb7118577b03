-- ===== src/Import/Machine.antt =====
-- The moves of crates/chatgpt-archive/src/receipt/state.rs as a relation, and sequences of moves.
use ratatoskr_chatgpt.Prelude.{
  ℕ, ◌+◌, ◌≤◌, ◌<◌, ◌≡◌, refl, false, List, [], ◌∷◌, arith, length, subst, sym, ◌⊎◌, inl, inr,
}
use ratatoskr_chatgpt.Import.{
  ImportState, received, hashed, stored, inspected, parsed, reconciled, completed, partial, failed,
  duplicate, quarantined, TransitionError, Advanced, ok, err, is_terminal, advance,
}

-- The moves that the documentation of the machine lists.
infix 40 ◌⟶◌ ◌⟶*◌
pub data ◌⟶◌ : ImportState → ImportState → Type 0 where
  hash : received ⟶ hashed
  store : hashed ⟶ stored
  repeat : hashed ⟶ duplicate
  inspect : stored ⟶ inspected
  parse : inspected ⟶ parsed
  reconcile : parsed ⟶ reconciled
  complete : reconciled ⟶ completed
  warn : reconciled ⟶ partial
  fail : {s : ImportState} → is_terminal s ≡ false → s ⟶ failed

pub data ◌⟶*◌ : ImportState → ImportState → Type 0 where
  here : {s : ImportState} → s ⟶* s
  next : {s t u : ImportState} → s ⟶ t → t ⟶* u → s ⟶* u

pub ruleset moves = (hash, store, repeat, inspect, parse, reconcile, complete, warn, fail)

-- How far a stage is from the start; every terminal stage is last.
abbrev pub rank : ImportState → ℕ
rank received = 0
rank hashed = 1
rank stored = 2
rank inspected = 3
rank parsed = 4
rank reconciled = 5
rank completed = 6
rank partial = 6
rank failed = 6
rank duplicate = 6
rank quarantined = 6

-- `advance` reaches the target it was asked for, along a listed move.
pub ⟶_of_advance : (s t u : ImportState) → advance s t ≡ ok u → (u ≡ t) × (s ⟶ t)
unfolding advance
⟶_of_advance s t u h = grind (arith, moves)

rank-le : (s : ImportState) → rank s ≤ 6
rank-le received = omega arith
rank-le _ = omega arith

rank_of_open : (s : ImportState) → is_terminal s ≡ false → rank s < 6
unfolding is_terminal
rank_of_open s h = ground arith

rank-⟶ : {s t : ImportState} → s ⟶ t → rank s < rank t
rank-⟶ hash = omega arith
rank-⟶ store = omega arith
rank-⟶ repeat = omega arith
rank-⟶ inspect = omega arith
rank-⟶ parse = omega arith
rank-⟶ reconcile = omega arith
rank-⟶ complete = omega arith
rank-⟶ warn = omega arith
rank-⟶ {s} (fail h) = ground (arith, rank_of_open s h)

ok-injective : {s t : ImportState} → ok s ≡ ok t → s ≡ t
ok-injective h = cc

err≢ok : {x : TransitionError} {t : ImportState} → ¬ (err x ≡ ok t)
err≢ok h = cc

Advanced-cases :
    (a : Advanced) → ((u : ImportState) × (a ≡ ok u)) ⊎ ((e : TransitionError) × (a ≡ err e))
Advanced-cases (ok u) = inl (u, refl)
Advanced-cases (err e) = inr (e, refl)

-- Asking for a list of targets in turn; the first refusal ends it.
unfoldable pub advance_all : ImportState → List ImportState → Advanced
unfolding advance
advance_all s [] = ok s
advance_all s (t ∷ ts) = elim (advance s t) [ ok u ↦ advance_all u ts | err e ↦ err e ]

-- A sequence of targets that `advance` accepts one after the other from a stage is a path of listed
-- moves, and with the stages already behind it has at most six moves.
pub advance_all-length :
    (s u : ImportState) (ts : List ImportState)
    → advance_all s ts ≡ ok u
    → (rank s + length ts ≤ 6) × (s ⟶* u)
unfolding advance_all
advance_all-length s u [] h = (omega (arith, rank-le s), subst (λ t. s ⟶* t) (ok-injective h) here)
advance_all-length s u (t ∷ ts) h = elim (Advanced-cases (advance s t)) [
  | inl (v, e) ↦
      let (same, move) = ⟶_of_advance s t v e in
      let (long, path) = advance_all-length v u ts (rw (e, advance_all) at h) in
      let first : s ⟶ v = subst (λ w. s ⟶ w) (sym same) move in
      (omega (arith, rank-⟶ first), next first path)
  | inr (x, e) ↦ absurd (err≢ok (rw (e, advance_all) at h))
]

pub ⟶*-trans : {s t u : ImportState} → s ⟶* t → t ⟶* u → s ⟶* u
⟶*-trans here q = q
⟶*-trans (next m p) q = next m (⟶*-trans p q)

pub rank-⟶* : {s t : ImportState} → s ⟶* t → rank s ≤ rank t
rank-⟶* here = omega arith
rank-⟶* (next m p) = omega (arith, rank-⟶ m, rank-⟶* p)
