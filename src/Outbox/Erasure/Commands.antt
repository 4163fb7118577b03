-- ===== src/Outbox/Erasure/Commands.antt =====
-- What the rows hold once `enqueue_owner_erasure` of crates/chatgpt-archive/src/stream_erasure.rs has
-- succeeded.
use ratatoskr_chatgpt.Prelude.{
  ℕ, suc, ◌≡◌, refl, sym, subst, inl, inr, String, true, false, List, [], ◌∷◌, ◌++◌, ◌&&◌, any,
  any-append, All, All-mono, All-zip, All-right, All-left, Apart, Apart-left, Apart-right,
  Apart-across, Bool-cases, arith, str_eq,
}
use ratatoskr_chatgpt.Json.{Json}
use ratatoskr_chatgpt.Effect.{Result, ok, err, Exec, pure, raise, ◌>>=◌, continue}
use ratatoskr_chatgpt.Outbox.Model.{
  OutboxRow, Store, State, Env, EnqueueError, ErasureCommand, next_turn,
}
use ratatoskr_chatgpt.Outbox.Store.{sql_in, spend, answer}
use ratatoskr_chatgpt.Outbox.Erasure.{
  has_key, new_row, insert_event, OwnerErasure, max_sequences_per_command, chunks, chunk_key,
  command_event, command_of, store_command, enqueue_chunk, enqueue_chunks, enqueue_owner_erasure,
  or_own, new_command_id,
}
use ratatoskr_chatgpt.Outbox.Erasure.Chunks.{concat, concat-chunks}
use ratatoskr_chatgpt.Outbox.Copies.{contains, records, erases, is_settled}
use ratatoskr_chatgpt.Outbox.Copies.Sequences.{contains-append}

-- The document of a command names the sequences of the command.
pub record NamesCommands (env : Env) : Type 0 where
  pub named :
      (c : ErasureCommand) (document : Json)
      → env.encode_command c ≡ ok document
      → env.named_by document ≡ c.stream_sequences

-- No two of the keys are one, and no row holds any of them.
pub record AreFree (keys : List String) (rows : List OutboxRow) : Type 0 where
  pub apart : Apart str_eq keys
  pub free : All (λ key. any (has_key key) rows ≡ false) keys

-- The rows gained commands under some of the keys that name the sequences, and lost nothing.
pub record Enqueued (env : Env) (keys : List String) (sequences : List ℕ) (s s' : Store)
    : Type 0 where
  pub erased : (x : ℕ) → contains x sequences ≡ true → any (erases env x) s'.events ≡ true
  pub erases_still :
      (x : ℕ) → any (erases env x) s.events ≡ true → any (erases env x) s'.events ≡ true
  pub settled : (id x : ℕ) → is_settled env id x s ≡ true → is_settled env id x s' ≡ true
  pub keyed :
      (key : String)
      → any (has_key key) s.events ≡ false
      → any (λ k. str_eq k key) keys ≡ false
      → any (has_key key) s'.events ≡ false

-- What holds of the state after an operation that succeeds.
abbrev pub OnOk : {E A : Type 0} → (Store → Type 0) → Result E A × State → Type 0
OnOk P (ok a, w) = P w.store
OnOk P (err e, w) = Unit

-- The keys of an owner's commands.
abbrev pub chunk_keys : String → ℕ → List (List ℕ) → List String
chunk_keys key_stem index [] = []
chunk_keys key_stem index (chunk ∷ rest) =
    chunk_key key_stem index ∷ chunk_keys key_stem (suc index) rest

abbrev pub erasure_keys : OwnerErasure → List String
erasure_keys erasure =
    chunk_keys erasure.key_stem 0 (chunks max_sequences_per_command erasure.sequences)

pub AreFree-left :
    (ks js : List String) (rows : List OutboxRow) → AreFree (ks ++ js) rows → AreFree ks rows
AreFree-left ks js rows free = record {
  apart = Apart-left str_eq ks js free.apart;
  free = All-left _ ks js free.free;
}

module _ (env : Env) (names : NamesCommands env) where
  inserted-Enqueued :
      (erasure : OwnerErasure) (chunk : List ℕ) (key : String) (correlation : ℕ) (document : Json)
      (s : Store)
      → any (has_key key) s.events ≡ false
      → env.named_by document ≡ chunk
      → Enqueued env
          (key ∷ [])
          chunk
          s
          (insert_event (command_event erasure key correlation document) s).1
  unfolding insert_event is_settled
  inserted-Enqueued erasure chunk key correlation document s free e =
      let row = new_row s.next_id s.clock (command_event erasure key correlation document) in
      rw (free) (record {
        erased = λ x h. ground (
          arith,
          any-append (erases env x) s.events (row ∷ []),
          subst (λ ns. contains x ns ≡ true) (sym e) h,
        );
        erases_still = λ x h. ground (arith, any-append (erases env x) s.events (row ∷ []));
        settled = λ id x h. ground (
          arith,
          any-append (erases env x) s.events (row ∷ []),
          any-append (records id x) s.events (row ∷ []),
        );
        keyed = λ k h other. ground (arith, any-append (has_key k) s.events (row ∷ []));
      })

  pub Enqueued-none : (s : Store) → Enqueued env [] [] s s
  Enqueued-none s = record {
    erased = λ x h. absurd (ground arith);
    erases_still = λ x h. h;
    settled = λ id x h. h;
    keyed = λ key h k. h;
  }

  Enqueued-append :
      (ks js : List String) (xs ys : List ℕ) (s t u : Store)
      → Enqueued env ks xs s t
      → Enqueued env js ys t u
      → Enqueued env (ks ++ js) (xs ++ ys) s u
  Enqueued-append ks js xs ys s t u f g = record {
    erased = λ x h. elim (Bool-cases (contains x xs)) [
      | inl k ↦ g.erases_still x (f.erased x k)
      | inr k ↦ g.erased x (ground (arith, contains-append x xs ys))
    ];
    erases_still = λ x h. g.erases_still x (f.erases_still x h);
    settled = λ id x h. g.settled id x (f.settled id x h);
    keyed = λ key h k.
        g.keyed key (f.keyed key h (ground (arith, any-append (λ j. str_eq j key) ks js)))
          (ground (arith, any-append (λ j. str_eq j key) ks js));
  }

  stored-OnOk :
      (erasure : OwnerErasure) (index : ℕ) (chunk : List ℕ) (id : ℕ) (r : Result EnqueueError Json)
      (w : State)
      → env.encode_command (command_of erasure chunk id) ≡ r
      → any (has_key (chunk_key erasure.key_stem index)) w.store.events ≡ false
      → OnOk
          (Enqueued env (chunk_key erasure.key_stem index ∷ []) chunk w.store)
          (store_command erasure index id r w)
  unfolding store_command sql_in spend answer pure raise ◌>>=◌
  stored-OnOk erasure index chunk id (err e) w encoded free = tt
  stored-OnOk erasure index chunk id (ok document) w encoded free =
      elim (Bool-cases (next_turn w.turns).fault) [
        | inl f ↦ rw (f) tt
        | inr f ↦ rw (f) (
            inserted-Enqueued erasure chunk (chunk_key erasure.key_stem index)
              (or_own id erasure.correlation_id) document w.store free
              (names.named (command_of erasure chunk id) document encoded))
      ]

  pub chunk-OnOk :
      (erasure : OwnerErasure) (index : ℕ) (chunk : List ℕ) (w : State)
      → any (has_key (chunk_key erasure.key_stem index)) w.store.events ≡ false
      → OnOk
          (Enqueued env (chunk_key erasure.key_stem index ∷ []) chunk w.store)
          (enqueue_chunk env erasure index chunk w)
  unfolding enqueue_chunk new_command_id ◌>>=◌
  chunk-OnOk erasure index chunk w free =
      stored-OnOk erasure index chunk (env.mint w.minted) _ (record w { minted = suc w.minted })
        refl free

  -- The keys that were free beside one that is taken now.
  pub AreFree-rest :
      (ks js : List String) (xs : List ℕ) (s t : Store)
      → AreFree (ks ++ js) s.events
      → Enqueued env ks xs s t
      → AreFree js t.events
  AreFree-rest ks js xs s t free f = record {
    apart = Apart-right str_eq ks js free.apart;
    free =
        All-mono (λ key (h, k). f.keyed key h k) js
          (All-zip _ _ js (All-right _ ks js free.free) (Apart-across str_eq ks js free.apart));
  }

  joined-OnOk :
      {E B : Type 0} (ks js : List String) (xs ys : List ℕ) (s t : Store)
      → Enqueued env ks xs s t
      → (r : Result E B) (w : State) → OnOk (Enqueued env js ys t) (r, w)
      → OnOk (Enqueued env (ks ++ js) (xs ++ ys) s) (r, w)
  joined-OnOk ks js xs ys s t f (err e) w h = tt
  joined-OnOk ks js xs ys s t f (ok b) w h = Enqueued-append ks js xs ys s t w.store f h

  pub continue-OnOk :
      {E B : Type 0} (ks js : List String) (xs ys : List ℕ) (s : Store) (r : Result E Unit)
      (w : State) (m : Exec E State B)
      → AreFree (ks ++ js) s.events
      → OnOk (Enqueued env ks xs s) (r, w)
      → (AreFree js w.store.events → OnOk (Enqueued env js ys w.store) (m w))
      → OnOk (Enqueued env (ks ++ js) (xs ++ ys) s) (continue r (λ _. m) w)
  continue-OnOk ks js xs ys s (err e) w m free f g = tt
  continue-OnOk ks js xs ys s (ok u) w m free f g =
      joined-OnOk ks js xs ys s w.store f (m w).0 (m w).1
        (g (AreFree-rest ks js xs s w.store free f))

  chunks-OnOk :
      (erasure : OwnerErasure) (index : ℕ) (cs : List (List ℕ)) (w : State)
      → AreFree (chunk_keys erasure.key_stem index cs) w.store.events
      → OnOk
          (Enqueued env (chunk_keys erasure.key_stem index cs) (concat cs) w.store)
          (enqueue_chunks env erasure index cs w)
  unfolding enqueue_chunks pure ◌>>=◌
  chunks-OnOk erasure index [] w free = Enqueued-none w.store
  chunks-OnOk erasure index (chunk ∷ rest) w free =
      let (r, w') = enqueue_chunk env erasure index chunk w in
      continue-OnOk (chunk_key erasure.key_stem index ∷ []) _ chunk (concat rest) w.store r w'
        (enqueue_chunks env erasure (suc index) rest) free
        (chunk-OnOk erasure index chunk w free.free.0) (chunks-OnOk erasure (suc index) rest w')

  pub erasure-OnOk :
      (erasure : OwnerErasure) (w : State)
      → AreFree (erasure_keys erasure) w.store.events
      → OnOk
          (Enqueued env (erasure_keys erasure) erasure.sequences w.store)
          (enqueue_owner_erasure env erasure w)
  unfolding enqueue_owner_erasure raise
  erasure-OnOk erasure w free =
      elim (Bool-cases (env.is_request erasure.request_id && env.is_tenant erasure.owner)) [
        | inl k ↦ rw (k) (
            subst
              (λ xs. OnOk (Enqueued env (erasure_keys erasure) xs w.store) (
                enqueue_chunks env erasure 0 (chunks max_sequences_per_command erasure.sequences)
                  w))
              (concat-chunks max_sequences_per_command erasure.sequences)
              (chunks-OnOk erasure 0 (chunks max_sequences_per_command erasure.sequences) w free))
        | inr k ↦ rw (k) tt
      ]
