-- ===== src/Outbox/Removal/Settlement.antt =====
-- The rows after the removal of crates/chatgpt-archive/src/privacy_deletion/erasure.rs.
use ratatoskr_chatgpt.Prelude.{
  ℕ, ◌≡◌, refl, ap, sym, ◌∙◌, inl, inr, String, Bool, true, false, Option, none, some, List, [],
  ◌∷◌, ◌++◌, not, ◌&&◌, ◌||◌, if◌then◌else◌, any, All, Bool-cases, arith, str_eq, str_eq_iff,
}
use mathlib.Core.Bool.{false≢true}
use ratatoskr_chatgpt.Effect.{Result, ok, err, pure, map_err, convert, ◌>>=◌}
use ratatoskr_chatgpt.Reconciliation.OrderedMap.{OrderedMap, lookup, insert, lookup-insert}
use ratatoskr_chatgpt.Outbox.Model.{
  OutboxRow, Store, State, Env, EnqueueError, next_turn, later_turns,
}
use ratatoskr_chatgpt.Outbox.Store.{sql_in, spend, answer, select}
use ratatoskr_chatgpt.Outbox.Marks.{insert_sequence, not_null, is_null}
use ratatoskr_chatgpt.Outbox.Erasure.{enqueue_owner_erasure}
use ratatoskr_chatgpt.Outbox.Erasure.Commands.{
  NamesCommands, AreFree, Enqueued, OnOk, Enqueued-none, AreFree-left, continue-OnOk, erasure_keys,
  erasure-OnOk,
}
use ratatoskr_chatgpt.Outbox.Copies.{contains, records, erases, is_settled}
use ratatoskr_chatgpt.Outbox.Copies.Sequences.{contains-append, contains-insert_sequence}
use ratatoskr_chatgpt.Outbox.Removal.{
  RemovalError, Removal, is_dropped, is_command, delivered_by, fact_owner, sequences_at,
  add_sequences, add_facts, facts_of, drop_rows, owner_erasure, enqueue_erasure_commands,
  remove_published_facts, removal_error,
}

sequences_at-insert :
    (owner o : String) (ns : List ℕ) (m : OrderedMap (List ℕ))
    → sequences_at o (insert owner ns m) ≡ (if str_eq owner o then ns else sequences_at o m)
unfolding sequences_at
sequences_at-insert owner o ns m = ground (arith, lookup-insert owner o ns m)

contains-add_sequences :
    (x : ℕ) (owner o : String) (ns : List ℕ) (m : OrderedMap (List ℕ))
    → contains x (sequences_at o (add_sequences owner ns m))
      ≡ (str_eq owner o && contains x ns || contains x (sequences_at o m))
unfolding add_sequences
contains-add_sequences x owner o [] m = ground arith
contains-add_sequences x owner o (n ∷ ns) m = ground (
  arith,
  str_eq_iff owner o,
  contains-add_sequences x owner o ns (insert owner (insert_sequence n (sequences_at owner m)) m),
  sequences_at-insert owner o (insert_sequence n (sequences_at owner m)) m,
  contains-insert_sequence x n (sequences_at owner m),
)

add_facts-still :
    (x : ℕ) (o : String) (owner : Option String) (ns : List ℕ) (m : OrderedMap (List ℕ))
    → contains x (sequences_at o m) ≡ true
    → contains x (sequences_at o (add_facts owner ns m)) ≡ true
unfolding add_facts
add_facts-still x o none ns m h = h
add_facts-still x o (some owner) ns m h = ground (arith, contains-add_sequences x owner o ns m)

facts_of-still :
    (x : ℕ) (o : String) (rows : List OutboxRow) (m : OrderedMap (List ℕ))
    → contains x (sequences_at o m) ≡ true
    → contains x (sequences_at o (facts_of rows m)) ≡ true
unfolding facts_of
facts_of-still x o [] m h = h
facts_of-still x o (r ∷ rows) m h =
    facts_of-still x o rows (add_facts (fact_owner r) r.published_stream_seqs m)
      (add_facts-still x o (fact_owner r) r.published_stream_seqs m h)

module _ (owes : ℕ → Bool) where
  -- The identity of a row says whether it is a fact of an owner.
  abbrev pub AreFacts : List OutboxRow → Type 0
  AreFacts = All (λ r. owes r.id ≡ not_null (fact_owner r))

  owner_of_fact :
      (id x : ℕ) (r : OutboxRow) (o : Option String)
      → fact_owner r ≡ o
      → owes id ≡ true
      → owes r.id ≡ not_null (fact_owner r)
      → records id x r ≡ true
      → (owner : String) × (o ≡ some owner)
  owner_of_fact id x r (some owner) e owed fact h = (owner, refl)
  owner_of_fact id x r none e owed fact h =
      absurd (false≢true (sym (ap not_null e) ∙ sym fact ∙ ap owes same ∙ owed))
    where
      same : r.id ≡ id
      same = ground arith

  add_facts-found :
      (x : ℕ) (r : OutboxRow) (o : Option String) (owner : String) (m : OrderedMap (List ℕ))
      → o ≡ some owner
      → contains x r.published_stream_seqs ≡ true
      → contains x (sequences_at owner (add_facts o r.published_stream_seqs m)) ≡ true
  unfolding add_facts
  add_facts-found x r o owner m e h = rw (e) ground (
    arith,
    contains-add_sequences x owner owner r.published_stream_seqs m,
    str_eq_iff owner owner,
  )

  facts_of-found :
      (id x : ℕ) (rows : List OutboxRow) (m : OrderedMap (List ℕ))
      → owes id ≡ true
      → AreFacts rows
      → any (records id x) rows ≡ true
      → (owner : String) × (contains x (sequences_at owner (facts_of rows m)) ≡ true)
  unfolding facts_of
  facts_of-found id x [] m owed facts h = absurd (ground arith)
  facts_of-found id x (r ∷ rows) m owed facts h = elim (Bool-cases (records id x r)) [
    | inl k ↦
        let (owner, e) = owner_of_fact id x r (fact_owner r) refl owed facts.0 k in
        (
          owner,
          facts_of-still x owner rows (add_facts (fact_owner r) r.published_stream_seqs m)
              (add_facts-found x r (fact_owner r) owner m e (ground arith)),
        )
    | inr k ↦
        facts_of-found id x rows (add_facts (fact_owner r) r.published_stream_seqs m) owed facts.1
          (ground arith)
  ]

module _ (q : OutboxRow → Bool) where
  any-select :
      (p : OutboxRow → Bool) (rows : List OutboxRow)
      → any p rows ≡ true
      → (any p (select q rows) || any p (select (λ r. not (q r)) rows)) ≡ true
  unfolding select
  any-select p [] h = absurd (ground arith)
  any-select p (r ∷ rows) h = ground (arith, any-select p rows)

  All-select : (P : OutboxRow → Type 0) (rows : List OutboxRow) → All P rows → All P (select q rows)
  unfolding select
  All-select P [] h = tt
  All-select P (r ∷ rows) h =
      let rest = All-select P rows h.1 in
      elim (Bool-cases (q r)) [ inl k ↦ rw (k) (h.0, rest) | inr k ↦ rw (k) rest ]

module _ (env : Env) (removal : Removal) where
  -- The commands among the rows that go are published.
  abbrev pub DropsPublished : List OutboxRow → Type 0
  DropsPublished =
      All (λ r. (is_dropped removal r && is_command r && is_null r.published_at) ≡ false)

  delivered_by-contains :
      (x : ℕ) (rows : List OutboxRow)
      → DropsPublished rows
      → any (erases env x) (select (is_dropped removal) rows) ≡ true
      → contains x (delivered_by env (select (is_dropped removal) rows)) ≡ true
  unfolding select delivered_by
  delivered_by-contains x [] d h = absurd (ground arith)
  delivered_by-contains x (r ∷ rows) d h = ground (
    arith,
    d.0,
    delivered_by-contains x rows d.1,
    contains-append x (env.named_by r.payload)
        (delivered_by env (select (is_dropped removal) rows)),
  )

  abbrev pub all_sequences : OrderedMap (List ℕ) → List ℕ
  all_sequences [] = []
  all_sequences ((owner, ns) ∷ facts) = ns ++ all_sequences facts

  all_sequences-contains :
      (x : ℕ) (owner : String) (facts : OrderedMap (List ℕ))
      → contains x (sequences_at owner facts) ≡ true
      → contains x (all_sequences facts) ≡ true
  unfolding sequences_at lookup
  all_sequences-contains x owner [] h = absurd (ground arith)
  all_sequences-contains x owner ((o, ns) ∷ facts) h =
      ground
        (arith, contains-append x ns (all_sequences facts), all_sequences-contains x owner facts)

  abbrev pub removal_keys : OrderedMap (List ℕ) → List String
  removal_keys [] = []
  removal_keys ((owner, ns) ∷ facts) =
      erasure_keys (owner_erasure env removal owner ns) ++ removal_keys facts

  converted-OnOk :
      {A : Type 0} (P : Store → Type 0) (r : Result EnqueueError A) (w : State)
      → OnOk P (r, w)
      → OnOk P (convert removal_error r, w)
  converted-OnOk P (ok a) w h = h
  converted-OnOk P (err e) w h = tt

  module _ (names : NamesCommands env) where
    commands-OnOk :
        (facts : OrderedMap (List ℕ)) (w : State)
        → AreFree (removal_keys facts) w.store.events
        → OnOk
            (Enqueued env (removal_keys facts) (all_sequences facts) w.store)
            (enqueue_erasure_commands env removal facts w)
    unfolding enqueue_erasure_commands pure map_err ◌>>=◌
    commands-OnOk [] w free = Enqueued-none env names w.store
    commands-OnOk ((owner, ns) ∷ facts) w free =
        let erasure = owner_erasure env removal owner ns in
        let (r, w') = enqueue_owner_erasure env erasure w in
        let first = AreFree-left (erasure_keys erasure) (removal_keys facts) w.store.events free in
        continue-OnOk env names (erasure_keys erasure) (removal_keys facts) ns (all_sequences facts)
          w.store (convert removal_error r) w' (enqueue_erasure_commands env removal facts) free
          (converted-OnOk _ r w' (erasure-OnOk env names erasure w first)) (commands-OnOk facts w')

    -- What settled a sequence stays when the rows go, but for the facts among them.
    left-settled :
        (id x : ℕ) (s : Store)
        → DropsPublished s.events
        → any (records id x) (select (is_dropped removal) s.events) ≡ false
        → is_settled env id x s ≡ true
        → is_settled env id x (drop_rows env removal s).1 ≡ true
    unfolding drop_rows is_settled
    left-settled id x s published k h =
        let q = is_dropped removal in
        ground (
          arith,
          any-select q (records id x) s.events,
          any-select q (erases env x) s.events,
          delivered_by-contains x s.events published,
          contains-append x s.delivered (delivered_by env (select q s.events)),
        )

    erased-settled :
        (id x : ℕ) (s : Store) → any (erases env x) s.events ≡ true → is_settled env id x s ≡ true
    unfolding is_settled
    erased-settled id x s h = ground arith

    removed-settled :
        (owes : ℕ → Bool) (id x : ℕ) (s s' : Store)
        → owes id ≡ true
        → AreFacts owes s.events
        → DropsPublished s.events
        → Enqueued env
            (removal_keys (facts_of (drop_rows env removal s).0 []))
            (all_sequences (facts_of (drop_rows env removal s).0 []))
            (drop_rows env removal s).1
            s'
        → is_settled env id x s ≡ true
        → is_settled env id x s' ≡ true
    unfolding drop_rows
    removed-settled owes id x s s' owed facts published f h =
        let dropped = select (is_dropped removal) s.events in
        elim (Bool-cases (any (records id x) dropped)) [
          | inl k ↦
              let (owner, c) =
                facts_of-found owes id x dropped [] owed
                  (All-select (is_dropped removal) _ s.events facts) k in
              erased-settled id x s'
                (f.erased x (all_sequences-contains x owner (facts_of dropped []) c))
          | inr k ↦ f.settled id x (left-settled id x s published k h)
        ]

    settled-OnOk :
        {A : Type 0} (owes : ℕ → Bool) (s : Store) (r : Result RemovalError A) (w : State)
        → AreFacts owes s.events
        → DropsPublished s.events
        → OnOk
            (Enqueued env
              (removal_keys (facts_of (drop_rows env removal s).0 []))
              (all_sequences (facts_of (drop_rows env removal s).0 []))
              (drop_rows env removal s).1)
            (r, w)
        → OnOk
            (λ s'.
              (id x : ℕ)
              → owes id ≡ true
              → is_settled env id x s ≡ true
              → is_settled env id x s' ≡ true)
            (r, w)
    settled-OnOk owes s (err e) w facts published f = tt
    settled-OnOk owes s (ok a) w facts published f =
        λ id x owed h. removed-settled owes id x s w.store owed facts published f h

-- The state once the rows are dropped.
abbrev without_rows : Env → Removal → State → State
without_rows env removal w = record w {
  turns = later_turns w.turns;
  store = (drop_rows env removal w.store).1;
}

-- A removal that succeeds settles whatever was settled for a fact of an owner: the sequences of each
-- removed fact are named by the commands that it enqueues. It is given that every published fact
-- among the rows is owned by whom its identity says, that the commands among the removed rows are
-- published, and that the keys of the new commands are free.
pub remove_published_facts-settles :
    (env : Env) (removal : Removal) (owes : ℕ → Bool) (w : State)
    → NamesCommands env
    → AreFacts owes w.store.events
    → DropsPublished env removal w.store.events
    → AreFree
        (removal_keys env removal (facts_of (drop_rows env removal w.store).0 []))
        (drop_rows env removal w.store).1.events
    → OnOk
        (λ s'.
          (id x : ℕ)
          → owes id ≡ true
          → is_settled env id x w.store ≡ true
          → is_settled env id x s' ≡ true)
        (remove_published_facts env removal w)
unfolding remove_published_facts sql_in spend answer pure ◌>>=◌
remove_published_facts-settles env removal owes w names facts published free =
    elim (Bool-cases (next_turn w.turns).fault) [
      | inl f ↦ rw (f) tt
      | inr f ↦ rw (f) (
          let (r, w') =
            enqueue_erasure_commands env removal (facts_of (drop_rows env removal w.store).0 [])
              (without_rows env removal w) in
          settled-OnOk env removal names owes w.store r w' facts published (
            commands-OnOk env removal names (facts_of (drop_rows env removal w.store).0 [])
              (without_rows env removal w) free))
    ]
