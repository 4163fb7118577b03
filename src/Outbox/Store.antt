-- ===== src/Outbox/Store.antt =====
-- Statements and transactions over the outbox tables, as the modules of
-- crates/chatgpt-archive/src/receipt/outbox run them. While a transaction is open nobody else
-- changes the rows: what others do to further rows meanwhile stands before or after it.
use ratatoskr_chatgpt.Prelude.{ℕ, suc, Bool, List, [], ◌∷◌, if◌then◌else◌}
use ratatoskr_chatgpt.Effect.{Result, ok, err, Exec}
use ratatoskr_chatgpt.Outbox.Model.{Store, State, Turn, next_turn, later_turns}

abbrev pub Statement : Type 0 → Type 0
Statement A = Store → A × Store

-- The next call's turn, and the state it meets: others may have come first.
unfoldable pub wait : State → State × Turn
wait w =
    let t = next_turn w.turns in
    (record w { store = t.others w.store; turns = later_turns w.turns }, t)

-- The next call's turn within a transaction.
unfoldable pub spend : State → State × Turn
spend w = (record w { turns = later_turns w.turns }, next_turn w.turns)

unfoldable pub answer : {E A : Type 0} → Statement A → State → Result E A × State
answer st w = let (a, s) = st w.store in (ok a, record w { store = s })

-- A statement of its own, committed at once.
unfoldable pub sql : {E A : Type 0} → E → Statement A → Exec E State A
unfolding wait answer
sql e st w = let (w', t) = wait w in if t.fault then (err e, w') else answer st w'

-- A statement within a transaction.
unfoldable pub sql_in : {E A : Type 0} → E → Statement A → Exec E State A
unfolding spend answer
sql_in e st w = let (w', t) = spend w in if t.fault then (err e, w') else answer st w'

-- `transaction.commit()` where the rows were `before` when it began. A commit that fails may have
-- taken effect.
unfoldable pub commit : {E : Type 0} → E → Store → Exec E State Unit
unfolding spend
commit e before w =
    let (w', t) = spend w in
    if t.fault then (err e, if t.landed then w' else record w' { store = before }) else (ok tt, w')

-- `transaction.rollback()`
unfoldable pub roll_back : {E A : Type 0} → Store → Result E A → State → Result E A × State
roll_back before r w = (r, record w { store = before })

unfoldable pub finish : {E A : Type 0} → E → Store → Result E A × State → Result E A × State
unfolding commit roll_back
finish e before (ok a, w) =
    let (r, w') = commit e before w in elim r [ ok _ ↦ (ok a, w') | err x ↦ (err x, w') ]
finish e before (err e', w) = roll_back before (err e') w

-- `pool.begin()`, the body and `commit()`; an error of the body rolls back.
unfoldable pub transaction : {E A : Type 0} → E → Exec E State A → Exec E State A
unfolding wait finish
transaction e body w =
    let (w', t) = wait w in if t.fault then (err e, w') else finish e w'.store (body w')

module _ {A : Type 0} where
  -- The rows that a `WHERE` matches.
  unfoldable pub count_where : (A → Bool) → List A → ℕ
  count_where p [] = 0
  count_where p (r ∷ rs) = let rest = count_where p rs in if p r then suc rest else rest

  -- `UPDATE … SET … WHERE …`
  unfoldable pub update_where : (A → Bool) → (A → A) → List A → List A
  update_where p f [] = []
  update_where p f (r ∷ rs) = (if p r then f r else r) ∷ update_where p f rs

  -- `SELECT … WHERE …`, and what a `DELETE` leaves with the test turned over.
  unfoldable pub select : (A → Bool) → List A → List A
  select p [] = []
  select p (r ∷ rs) = let rest = select p rs in if p r then r ∷ rest else rest
