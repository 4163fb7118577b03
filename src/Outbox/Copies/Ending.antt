-- ===== src/Outbox/Copies/Ending.antt =====
-- How a first publication ends: the mark of crates/chatgpt-archive/src/receipt/outbox/marks.rs inside
-- the open transaction of publish.rs.
use ratatoskr_chatgpt.Prelude.{
  ℕ, ◌<◌, ◌≡◌, sym, subst, inl, inr, Bool, true, List, ◌&&◌, All-mono, arith, ◌==◌, Bool-cases,
}
use ratatoskr_chatgpt.Effect.{Result, ok, err, pure, raise, ◌>>=◌, ◌>>◌}
use ratatoskr_chatgpt.Outbox.Model.{
  Candidate, Store, State, Env, PublishError, next_turn, later_turns,
}
use ratatoskr_chatgpt.Outbox.Store.{answer, sql_in, count_where}
use ratatoskr_chatgpt.Outbox.Marks.{
  mark_published, publish_mark, update_events, set_published, is_unpublished,
}
use ratatoskr_chatgpt.Outbox.Carry.{sequences_of, drop_entry}
use ratatoskr_chatgpt.Outbox.Pump.{Outcome, published, skipped}
use ratatoskr_chatgpt.Outbox.Copies.{contains, is_accounted, IsSafe, IsOrderly}
use ratatoskr_chatgpt.Outbox.Copies.Sequences.{
  sequences_of-drop_entry, drop_entry-owed, set_published-Grows, is_settled-update_where,
  is_settled-marked,
}
use ratatoskr_chatgpt.Outbox.Copies.Steps.{replace_rows-IsSafe, spend-IsOrderly}

module _ (env : Env) (owes : ℕ → Bool) (c : Candidate) where
  abbrev pub Safe : State → Type 0
  Safe = IsSafe env owes

  -- What a first publication leaves when its transaction is still open: nothing is lost if the rows
  -- go back to `before`, and once published nothing is lost if they stay and the entry goes.
  unfoldable pub Ends : Store → Result PublishError Outcome → State → Type 0
  Ends before (ok published) w =
      Safe (record w { store = before })
      × Safe w
      × Safe (record w { carry = drop_entry c.id w.carry })
  Ends before (ok skipped) w = Safe (record w { store = before })
  Ends before (err e) w = Safe (record w { store = before })

  abbrev pub Finishes : Store → Result PublishError Outcome × State → Type 0
  Finishes before (r, w) = IsOrderly env owes w × Ends before r w

  -- Every carried sequence of the row is among those that the mark records.
  abbrev pub Covers : List ℕ → State → Type 0
  Covers sequences w =
      (x : ℕ) → contains x (sequences_of c.id w.carry) ≡ true → contains x sequences ≡ true

  same_id : (id : ℕ) (b : Bool) → (c.id == id && b) ≡ true → c.id ≡ id
  same_id id b h = ground arith

  dropped-is_accounted :
      (w : State) (sequences : List ℕ) (id x : ℕ)
      → Covers sequences w
      → 0 < count_where (is_unpublished c.id) w.store.events
      → is_accounted env w.store w.carry id x ≡ true
      → is_accounted env (publish_mark env c.id sequences w.store).1 (drop_entry c.id w.carry) id x
        ≡ true
  unfolding publish_mark update_events is_accounted
  dropped-is_accounted w sequences id x covers landed h =
      elim (Bool-cases (c.id == id && contains x (sequences_of id w.carry))) [
        | inl k ↦
            let e = same_id id (contains x (sequences_of id w.carry)) k in
            ground (
              arith,
              is_settled-marked env c.id id x sequences w.store.clock w.store e
                  (covers x (
                    subst (λ i. contains x (sequences_of i w.carry) ≡ true) (sym e) (ground arith)))
                  landed,
            )
        | inr k ↦ ground (
          arith,
          sequences_of-drop_entry id c.id w.carry,
          is_settled-update_where env (is_unpublished c.id)
              (set_published env sequences w.store.clock)
              (set_published-Grows env sequences w.store.clock) id x w.store,
        )
      ]

  dropped-IsSafe :
      (w : State) (sequences : List ℕ)
      → Covers sequences w
      → 0 < count_where (is_unpublished c.id) w.store.events
      → Safe w
      → Safe (record w {
        store = (publish_mark env c.id sequences w.store).1;
        carry = drop_entry c.id w.carry;
      })
  dropped-IsSafe w sequences covers landed safe = record {
    kept =
        All-mono
          (λ copy h o.
            dropped-is_accounted w sequences copy.candidate.id copy.sequence covers landed (h o))
          w.copies safe.kept;
    owed = drop_entry-owed owes c.id w.carry safe.owed;
  }

  marked-IsSafe :
      (w : State) (sequences : List ℕ)
      → Safe w
      → Safe (record w { store = (publish_mark env c.id sequences w.store).1 })
  unfolding publish_mark update_events
  marked-IsSafe w sequences safe =
      replace_rows-IsSafe env owes w _
        (λ id x owed h.
          is_settled-update_where env (is_unpublished c.id)
            (set_published env sequences w.store.clock)
            (set_published-Grows env sequences w.store.clock) id x w.store h)
        safe

  pub same_rows : (w : State) → Safe w → Safe (record w { turns = later_turns w.turns })
  same_rows w safe = record { kept = safe.kept; owed = safe.owed }

  landed :
      (w : State) (sequences : List ℕ)
      → ((publish_mark env c.id sequences w.store).0 == 1) ≡ true
      → 0 < count_where (is_unpublished c.id) w.store.events
  unfolding publish_mark update_events
  landed w sequences h = ground arith

  -- The mark and what follows it, from a state in which the copy is noted.
  pub marked-Finishes :
      (w : State) (sequences : List ℕ)
      → IsOrderly env owes w
      → Safe w
      → Covers sequences w
      → Finishes w.store ((mark_published env c.id sequences >> pure published) w)
  unfolding mark_published sql_in answer pure raise ◌>>=◌ Ends
  marked-Finishes w sequences o safe covers = elim (Bool-cases (next_turn w.turns).fault) [
    | inl f ↦ rw (f) (spend-IsOrderly env owes w o, same_rows w safe)
    | inr f ↦ elim (Bool-cases ((publish_mark env c.id sequences w.store).0 == 1)) [
      | inl k ↦
          rw (f, k)
            (
              record { others = (spend-IsOrderly env owes w o).others; replies = o.replies },
              (
                same_rows w safe,
                same_rows _ (marked-IsSafe w sequences safe),
                same_rows _ (dropped-IsSafe w sequences covers (landed w sequences k) safe),
              ),
            )
      | inr k ↦
          rw (f, k)
            (
              record { others = (spend-IsOrderly env owes w o).others; replies = o.replies },
              same_rows w safe,
            )
    ]
  ]
