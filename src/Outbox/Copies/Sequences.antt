-- ===== src/Outbox/Copies/Sequences.antt =====
-- What the rows and the carry of the pump hold after each of its updates, sequence by sequence.
use ratatoskr_chatgpt.Prelude.{
  ℕ, ◌<◌, ◌≡◌, refl, subst, String, Bool, true, false, List, [], ◌∷◌, ◌++◌, ◌&&◌, ◌||◌,
  if◌then◌else◌, ◌==◌, any, All, arith,
}
use ratatoskr_chatgpt.Outbox.Model.{OutboxRow, Carried, Candidate, Env, Store}
use ratatoskr_chatgpt.Outbox.Store.{count_where, update_where}
use ratatoskr_chatgpt.Outbox.Marks.{insert_sequence, ascending, is_unpublished, set_published}
use ratatoskr_chatgpt.Outbox.Carry.{sequences_of, note_copy, drop_entry}
use ratatoskr_chatgpt.Outbox.Copies.{contains, records, erases, is_settled}

pub contains-append :
    (x : ℕ) (xs ys : List ℕ) → contains x (xs ++ ys) ≡ (contains x xs || contains x ys)
contains-append x [] ys = refl
contains-append x (y ∷ xs) ys = ground (arith, contains-append x xs ys)

pub contains-insert_sequence :
    (x n : ℕ) (ns : List ℕ) → contains x (insert_sequence n ns) ≡ (n == x || contains x ns)
unfolding insert_sequence
contains-insert_sequence x n [] = refl
contains-insert_sequence x n (m ∷ ms) = ground (arith, contains-insert_sequence x n ms)

pub contains-ascending : (x : ℕ) (ns : List ℕ) → contains x (ascending ns) ≡ contains x ns
unfolding ascending
contains-ascending x [] = refl
contains-ascending x (n ∷ ns) =
    ground (arith, contains-insert_sequence x n (ascending ns), contains-ascending x ns)

-- The sequences carried for a row after a copy is noted, and after an entry is dropped.
pub sequences_of-note_copy :
    (x id : ℕ) (c : Candidate) (owner : String) (event_id sequence : ℕ) (carry : List (ℕ × Carried))
    → contains x (sequences_of id (note_copy c owner event_id sequence carry))
      ≡ (c.id == id && sequence == x || contains x (sequences_of id carry))
unfolding note_copy sequences_of
sequences_of-note_copy x id c owner event_id sequence [] = ground arith
sequences_of-note_copy x id c owner event_id sequence ((i, e) ∷ carry) = ground (
  arith,
  contains-insert_sequence x sequence e.sequences,
  sequences_of-note_copy x id c owner event_id sequence carry,
)

pub sequences_of-drop_entry :
    (id j : ℕ) (carry : List (ℕ × Carried))
    → sequences_of id (drop_entry j carry) ≡ (if j == id then [] else sequences_of id carry)
unfolding drop_entry sequences_of
sequences_of-drop_entry id j [] = ground arith
sequences_of-drop_entry id j ((i, e) ∷ carry) = ground (arith, sequences_of-drop_entry id j carry)

module _ (owes : ℕ → Bool) where
  owed-if :
      (b : Bool) (xs ys : List (ℕ × Carried))
      → All (λ (i, e). owes i ≡ true) xs
      → All (λ (i, e). owes i ≡ true) ys
      → All (λ (i, e). owes i ≡ true) (if b then xs else ys)
  owed-if true xs ys h k = h
  owed-if false xs ys h k = k

  pub sequences_of-unowed :
      (id : ℕ) (carry : List (ℕ × Carried))
      → owes id ≡ false
      → All (λ (i, e). owes i ≡ true) carry
      → sequences_of id carry ≡ []
  unfolding sequences_of
  sequences_of-unowed id [] h k = refl
  sequences_of-unowed id ((i, e) ∷ carry) h k =
      ground (arith, k.0, sequences_of-unowed id carry h k.1)

  pub drop_entry-owed :
      (id : ℕ) (carry : List (ℕ × Carried))
      → All (λ (i, e). owes i ≡ true) carry
      → All (λ (i, e). owes i ≡ true) (drop_entry id carry)
  unfolding drop_entry
  drop_entry-owed id [] k = tt
  drop_entry-owed id ((i, e) ∷ carry) k =
      let rest = drop_entry-owed id carry k.1 in owed-if (i == id) _ _ rest (k.0, rest)

  pub note_copy-owed :
      (c : Candidate) (owner : String) (event_id sequence : ℕ) (carry : List (ℕ × Carried))
      → owes c.id ≡ true
      → All (λ (i, e). owes i ≡ true) carry
      → All (λ (i, e). owes i ≡ true) (note_copy c owner event_id sequence carry)
  unfolding note_copy
  note_copy-owed c owner event_id sequence [] h k = (h, tt)
  note_copy-owed c owner event_id sequence ((i, e) ∷ carry) h k =
      owed-if (i == c.id) _ _ (k.0, k.1) (k.0, note_copy-owed c owner event_id sequence carry h k.1)

-- An update that keeps what a row is and loses no sequence of it.
pub record Grows (f : OutboxRow → OutboxRow) : Type 0 where
  pub id : (r : OutboxRow) → (f r).id ≡ r.id
  pub event_type : (r : OutboxRow) → (f r).event_type ≡ r.event_type
  pub payload : (r : OutboxRow) → (f r).payload ≡ r.payload
  pub sequences :
      (r : OutboxRow) (x : ℕ)
      → contains x r.published_stream_seqs ≡ true
      → contains x (f r).published_stream_seqs ≡ true

module _ (env : Env) (p : OutboxRow → Bool) (f : OutboxRow → OutboxRow) (grows : Grows f) where
  records-grown : (id x : ℕ) (r : OutboxRow) → records id x r ≡ true → records id x (f r) ≡ true
  records-grown id x r h = ground (arith, grows.id r, grows.sequences r x)

  erases-grown : (x : ℕ) (r : OutboxRow) → erases env x r ≡ true → erases env x (f r) ≡ true
  erases-grown x r h = rw (grows.event_type r, grows.payload r) h

  records-update_where :
      (id x : ℕ) (rows : List OutboxRow)
      → any (records id x) rows ≡ true
      → any (records id x) (update_where p f rows) ≡ true
  unfolding update_where
  records-update_where id x [] h = h
  records-update_where id x (r ∷ rows) h =
      ground (arith, records-grown id x r, records-update_where id x rows)

  erases-update_where :
      (x : ℕ) (rows : List OutboxRow)
      → any (erases env x) rows ≡ true
      → any (erases env x) (update_where p f rows) ≡ true
  unfolding update_where
  erases-update_where x [] h = h
  erases-update_where x (r ∷ rows) h = ground (arith, erases-grown x r, erases-update_where x rows)

  pub is_settled-update_where :
      (id x : ℕ) (s : Store)
      → is_settled env id x s ≡ true
      → is_settled env id x (record s { events = update_where p f s.events }) ≡ true
  unfolding is_settled
  is_settled-update_where id x s h =
      ground (arith, records-update_where id x s.events, erases-update_where x s.events)

pub set_published-Grows :
    (env : Env) (sequences : List ℕ) (now : ℕ) → Grows (set_published env sequences now)
unfolding set_published
set_published-Grows env sequences now = record {
  id = λ r. refl;
  event_type = λ r. refl;
  payload = λ r. refl;
  sequences = λ r x h. ground (
    arith,
    contains-ascending x (r.published_stream_seqs ++ sequences),
    contains-append x r.published_stream_seqs sequences,
  );
}

-- A mark that lands records every sequence that it is given.
pub records-marked :
    (env : Env) (id x : ℕ) (sequences : List ℕ) (now : ℕ) (rows : List OutboxRow)
    → contains x sequences ≡ true
    → 0 < count_where (is_unpublished id) rows
    → any (records id x) (update_where (is_unpublished id) (set_published env sequences now) rows)
      ≡ true
unfolding count_where update_where set_published
records-marked env id x sequences now [] h k = absurd (omega arith)
records-marked env id x sequences now (r ∷ rows) h k = ground (
  arith,
  contains-ascending x (r.published_stream_seqs ++ sequences),
  contains-append x r.published_stream_seqs sequences,
  records-marked env id x sequences now rows,
)

pub is_settled-marked :
    (env : Env) (id j x : ℕ) (sequences : List ℕ) (now : ℕ) (s : Store)
    → id ≡ j
    → contains x sequences ≡ true
    → 0 < count_where (is_unpublished id) s.events
    → is_settled env j x (record s {
      events = update_where (is_unpublished id) (set_published env sequences now) s.events;
    })
      ≡ true
unfolding is_settled
is_settled-marked env id j x sequences now s e h k =
    subst
      (λ i.
        is_settled env i x (record s {
          events = update_where (is_unpublished id) (set_published env sequences now) s.events;
        })
        ≡ true)
      e (ground (arith, records-marked env id x sequences now s.events h k))
