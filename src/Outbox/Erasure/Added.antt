-- ===== src/Outbox/Erasure/Added.antt =====
-- The commands that `enqueue_owner_erasure` of crates/chatgpt-archive/src/stream_erasure.rs adds.
use ratatoskr_chatgpt.Prelude.{
  ℕ, suc, ◌≡◌, refl, ◌∙◌, ap, inl, inr, false, none, List, [], ◌∷◌, ◌++◌, ◌&&◌, any, append_assoc,
  append-nil, sym, Bool-cases,
}
use ratatoskr_chatgpt.Json.{Json}
use ratatoskr_chatgpt.Effect.{Result, ok, err, Exec, pure, raise, ◌>>=◌, continue}
use ratatoskr_chatgpt.Outbox.Model.{OutboxRow, Store, State, Env, EnqueueError, next_turn}
use ratatoskr_chatgpt.Outbox.Store.{sql_in, spend, answer}
use ratatoskr_chatgpt.Outbox.Subject.{stream_erasure_command}
use ratatoskr_chatgpt.Outbox.Erasure.{
  has_key, new_row, insert_event, OwnerErasure, max_sequences_per_command, chunks, chunk_key,
  command_event, command_of, store_command, enqueue_chunk, enqueue_chunks, enqueue_owner_erasure,
  or_own, new_command_id,
}
use ratatoskr_chatgpt.Outbox.Erasure.Chunks.{concat, concat-chunks, AreFilled, chunks-AreFilled}
use ratatoskr_chatgpt.Outbox.Erasure.Commands.{
  NamesCommands, AreFree, AreFree-rest, Enqueued, OnOk, chunk_keys, erasure_keys, chunk-OnOk,
}

-- A row that is a command of the erasure and names the sequences, not yet published.
pub record IsCommand (env : Env) (erasure : OwnerErasure) (r : OutboxRow) (sequences : List ℕ)
    : Type 0 where
  pub event_type : r.event_type ≡ stream_erasure_command
  pub aggregate_id : r.aggregate_id ≡ erasure.request_id
  pub names : env.named_by r.payload ≡ sequences
  pub pending : r.published_at ≡ none

-- One command for each list of sequences, in their order.
abbrev pub AreCommands : Env → OwnerErasure → List OutboxRow → List (List ℕ) → Type 0
AreCommands env erasure [] [] = Unit
AreCommands env erasure (r ∷ rows) (c ∷ cs) =
    IsCommand env erasure r c × AreCommands env erasure rows cs
AreCommands env erasure _ _ = ⊥

-- The rows gained those commands, and nothing else.
abbrev pub Added : Env → OwnerErasure → List (List ℕ) → Store → Store → Type 0
Added env erasure cs s s' =
    (rows : List OutboxRow) × (s'.events ≡ s.events ++ rows) × AreCommands env erasure rows cs

abbrev AddedOne : Env → OwnerErasure → List ℕ → Store → Store → Type 0
AddedOne env erasure c s s' =
    (row : OutboxRow) × (s'.events ≡ s.events ++ row ∷ []) × IsCommand env erasure row c

module _ (env : Env) (names : NamesCommands env) (erasure : OwnerErasure) where
  stored-AddedOne :
      (index : ℕ) (chunk : List ℕ) (id : ℕ) (r : Result EnqueueError Json) (w : State)
      → env.encode_command (command_of erasure chunk id) ≡ r
      → any (has_key (chunk_key erasure.key_stem index)) w.store.events ≡ false
      → OnOk (AddedOne env erasure chunk w.store) (store_command erasure index id r w)
  unfolding store_command sql_in spend answer pure raise ◌>>=◌ insert_event
  stored-AddedOne index chunk id (err e) w encoded free = tt
  stored-AddedOne index chunk id (ok document) w encoded free =
      elim (Bool-cases (next_turn w.turns).fault) [
        | inl f ↦ rw (f) tt
        | inr f ↦
            rw (f, free)
              (
                new_row w.store.next_id w.store.clock (
                    command_event erasure (chunk_key erasure.key_stem index)
                      (or_own id erasure.correlation_id) document),
                refl,
                record {
                  event_type = refl;
                  aggregate_id = refl;
                  names = names.named (command_of erasure chunk id) document encoded;
                  pending = refl;
                },
              )
      ]

  chunk-AddedOne :
      (index : ℕ) (chunk : List ℕ) (w : State)
      → any (has_key (chunk_key erasure.key_stem index)) w.store.events ≡ false
      → OnOk (AddedOne env erasure chunk w.store) (enqueue_chunk env erasure index chunk w)
  unfolding enqueue_chunk new_command_id ◌>>=◌
  chunk-AddedOne index chunk w free =
      stored-AddedOne index chunk (env.mint w.minted) _ (record w { minted = suc w.minted }) refl
        free

  after_one :
      (c : List ℕ) (cs : List (List ℕ)) (s t : Store)
      → AddedOne env erasure c s t
      → {E B : Type 0} (r : Result E B) (w : State) → OnOk (Added env erasure cs t) (r, w)
      → OnOk (Added env erasure (c ∷ cs) s) (r, w)
  after_one c cs s t one (err e) w h = tt
  after_one c cs s t (row, e, command) (ok b) w (rows, f, commands) = (
    row ∷ rows,
    f ∙ ap (λ l. l ++ rows) e ∙ append_assoc s.events (row ∷ []) rows,
    (command, commands),
  )

  continue-Added :
      {E B : Type 0} (key : _) (js : List _) (c : List ℕ) (cs : List (List ℕ)) (s : Store)
      (r : Result E Unit) (w : State) (m : Exec E State B)
      → AreFree (key ∷ js) s.events
      → OnOk (Enqueued env (key ∷ []) c s) (r, w)
      → OnOk (AddedOne env erasure c s) (r, w)
      → (AreFree js w.store.events → OnOk (Added env erasure cs w.store) (m w))
      → OnOk (Added env erasure (c ∷ cs) s) (continue r (λ _. m) w)
  continue-Added key js c cs s (err e) w m free f one g = tt
  continue-Added key js c cs s (ok u) w m free f one g =
      after_one c cs s w.store one (m w).0 (m w).1
        (g (AreFree-rest env names (key ∷ []) js c s w.store free f))

  chunks-Added :
      (index : ℕ) (cs : List (List ℕ)) (w : State)
      → AreFree (chunk_keys erasure.key_stem index cs) w.store.events
      → OnOk (Added env erasure cs w.store) (enqueue_chunks env erasure index cs w)
  unfolding enqueue_chunks pure ◌>>=◌
  chunks-Added index [] w free = ([], sym (append-nil w.store.events), tt)
  chunks-Added index (chunk ∷ rest) w free =
      let (r, w') = enqueue_chunk env erasure index chunk w in
      continue-Added (chunk_key erasure.key_stem index) _ chunk rest w.store r w'
        (enqueue_chunks env erasure (suc index) rest) free
        (chunk-OnOk env names erasure index chunk w free.free.0)
        (chunk-AddedOne index chunk w free.free.0) (chunks-Added (suc index) rest w')

  -- What a successful erasure leaves: commands that share out the owner's sequences in their order,
  -- each of them full, with 500, up to the last one, which is not empty and not above 500.
  abbrev pub SharedOut : Store → Store → Type 0
  SharedOut s s' =
      (cs : List (List ℕ)) × Added env erasure cs s s'
      × (concat cs ≡ erasure.sequences)
      × AreFilled 500 cs

  shared :
      (s : Store) {E : Type 0} (r : Result E Unit) (w : State)
      → OnOk (Added env erasure (chunks max_sequences_per_command erasure.sequences) s) (r, w)
      → OnOk (SharedOut s) (r, w)
  shared s (err e) w h = tt
  shared s (ok u) w h = (
    chunks max_sequences_per_command erasure.sequences,
    h,
    concat-chunks max_sequences_per_command erasure.sequences,
    chunks-AreFilled erasure.sequences,
  )

  -- Where the documents name the sequences of their commands and no row holds a key of the erasure,
  -- an erasure that succeeds adds to the rows its commands and nothing else: pending commands of its
  -- request, which share out the owner's sequences in their order, each of them naming 500, up to
  -- the last one, which names at least one and at most 500.
  pub enqueue_owner_erasure-adds :
      (w : State)
      → AreFree (erasure_keys erasure) w.store.events
      → OnOk (SharedOut w.store) (enqueue_owner_erasure env erasure w)
  unfolding enqueue_owner_erasure raise
  enqueue_owner_erasure-adds w free =
      elim (Bool-cases (env.is_request erasure.request_id && env.is_tenant erasure.owner)) [
        | inl k ↦ rw (k) (
            shared w.store _ _
              (chunks-Added 0 (chunks max_sequences_per_command erasure.sequences) w free))
        | inr k ↦ rw (k) tt
      ]
