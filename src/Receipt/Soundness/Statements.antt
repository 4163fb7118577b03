-- ===== src/Receipt/Soundness/Statements.antt =====
-- The statements of crates/chatgpt-archive/src/receipt/pg.rs and the well-formedness of the rows.
use ratatoskr_chatgpt.Prelude.{
  Apart-append, Apart, ℕ, ◌≤◌, ◌≡◌, refl, sym, ◌∙◌, subst, Bool, ◌⊎◌, inl, inr, true, false, some,
  String, List, [], ◌∷◌, ◌++◌, arith, if◌then◌else◌, str_eq_iff, any, All, All-append,
}
use ratatoskr_chatgpt.Import.{ImportState, received, hashed, failed, duplicate, is_terminal}
use ratatoskr_chatgpt.Receipt.Mode.{AcquisitionMode}
use ratatoskr_chatgpt.Receipt.World.{RunRow, Db, Export, OperationRow}
use ratatoskr_chatgpt.Receipt.Records.{to_i64, i64_max}
use ratatoskr_chatgpt.Receipt.Sql.{sits_at, update, update_runs}
use ratatoskr_chatgpt.Receipt.Repository.{insert_run, fresh_run, set_hashed, set_state}
use ratatoskr_chatgpt.Receipt.Publish.{
  insert_operation, upsert_account, insert_export, set_stored, new_export,
}
use ratatoskr_chatgpt.Receipt.Orderly.{Respects, Accepts}
use ratatoskr_chatgpt.Receipt.Moves.Statements.{sits_at-state, set_state_lem}
use ratatoskr_chatgpt.Receipt.Soundness.{
  IsSoundRun, IsSound, same_run, same_export, same_operation, staying_sound,
}

to_i64-le : (n : ℕ) → to_i64 n ≤ i64_max
unfolding to_i64
to_i64-le n = ground arith

keeps-if :
    (P : RunRow → Type 0) (b : Bool) (r s : RunRow)
    → P r
    → (b ≡ true → P s)
    → P (if b then s else r)
keeps-if P true r s h k = k refl
keeps-if P false r s h k = h

module _ (P : RunRow → Type 0) (p : RunRow → Bool) (f : RunRow → RunRow)
    (keeps : (r : RunRow) → p r ≡ true → P r → P (f r)) where
  All-update : (rs : List RunRow) → All P rs → All P (update p f rs)
  unfolding update
  All-update [] h = tt
  All-update (r ∷ rs) h = (keeps-if P (p r) r (f r) h.0 (λ b. keeps r b h.0), All-update rs h.1)

update_runs_lem :
    (p : RunRow → Bool) (f : RunRow → RunRow) (db : Db) (n : ℕ) (db' : Db)
    → update_runs p f db ≡ some (n, db')
    → db' ≡ record db { runs = update p f db.runs }
unfolding update_runs
update_runs_lem p f db n db' e = ground arith

module _ (p : RunRow → Bool) (f : RunRow → RunRow) (keeps : (r : RunRow) → (f r).id ≡ r.id) where
  id-if : (b : Bool) (r : RunRow) → (if b then f r else r).id ≡ r.id
  id-if true r = keeps r
  id-if false r = refl

  any-update :
      (x y : RunRow) (rs : List RunRow)
      → y.id ≡ x.id
      → any (same_run y) (update p f rs) ≡ any (same_run x) rs
  unfolding update
  any-update x y [] e = refl
  any-update x y (r ∷ rs) e = rw (e, id-if (p r) r, any-update x y rs e)

  Apart-update : (rs : List RunRow) → Apart same_run rs → Apart same_run (update p f rs)
  unfolding update
  Apart-update [] h = tt
  Apart-update (r ∷ rs) h =
      (any-update r (if p r then f r else r) rs (id-if (p r) r) ∙ h.0, Apart-update rs h.1)

  -- A guarded update that keeps the identities, and keeps the rows that it takes sound.
  Respects-update_runs :
      ((r : RunRow) → p r ≡ true → IsSoundRun r → IsSoundRun (f r))
      → Respects staying_sound (update_runs p f)
  unfolding staying_sound
  Respects-update_runs sound = record {
    at = λ db n db' e h. subst IsSound (sym (update_runs_lem p f db n db' e)) (record {
      runs_apart = Apart-update db.runs h.runs_apart;
      runs_sound = All-update IsSoundRun p f sound db.runs h.runs_sound;
      exports_apart = h.exports_apart;
      exports_bounded = h.exports_bounded;
      operations_apart = h.operations_apart;
    });
  }

module _ (r : RunRow) (sound : IsSoundRun r) where
  IsSoundRun-set_hashed :
      (sha256_hex : String) (n : ℕ)
      → r.state ≡ received
      → IsSoundRun (set_hashed sha256_hex (to_i64 n) r)
  unfolding set_hashed is_terminal
  IsSoundRun-set_hashed sha256_hex n e = ground (arith, to_i64-le n, sound)

  IsSoundRun-set_stored : (export_id : ℕ) → r.state ≡ hashed → IsSoundRun (set_stored export_id r)
  unfolding set_stored is_terminal
  IsSoundRun-set_stored export_id e = ground (arith, sound)

  IsSoundRun-failed : IsSoundRun (set_state failed r)
  IsSoundRun-failed =
      subst IsSoundRun (sym (set_state_lem failed r)) (unfold is_terminal in ground (arith, sound))

  IsSoundRun-duplicate : r.state ≡ hashed → IsSoundRun (set_state duplicate r)
  IsSoundRun-duplicate e =
      subst IsSoundRun (sym (set_state_lem duplicate r))
        (unfold is_terminal in ground (arith, sound))

insert_run_lem :
    (row : RunRow) (db : Db) (a : Unit) (db' : Db)
    → insert_run row db ≡ some (a, db')
    → (any (λ r. same_run r row) db.runs ≡ false) × (db' ≡ record db { runs = db.runs ++ row ∷ [] })
unfolding insert_run
insert_run_lem row db a db' e = ground arith

insert_export_lem :
    (row : Export) (db : Db) (a : Unit) (db' : Db)
    → insert_export row db ≡ some (a, db')
    → (any (λ e. same_export e row) db.exports ≡ false)
      × (db' ≡ record db { exports = db.exports ++ row ∷ [] })
unfolding insert_export
insert_export_lem row db a db' e = ground arith

insert_operation_lem :
    (row : OperationRow) (db : Db) (a : Unit) (db' : Db)
    → insert_operation row db ≡ some (a, db')
    → (db' ≡ db)
      ⊎ ((any (λ o. same_operation o row) db.operations ≡ false)
          × (db' ≡ record db { operations = db.operations ++ row ∷ [] }))
unfolding insert_operation
insert_operation_lem row db a db' e = ground arith

upsert_account-IsSound :
    (id : ℕ) (account : String) (db : Db) (a : ℕ) (db' : Db)
    → upsert_account id account db ≡ some (a, db')
    → IsSound db
    → IsSound db'
unfolding upsert_account
upsert_account-IsSound id account db a db' e h = ground (arith, h)

same_run_symm : (a b : RunRow) → same_run a b ≡ same_run b a
same_run_symm a b = ground arith

same_operation_symm : (a b : OperationRow) → same_operation a b ≡ same_operation b a
same_operation_symm a b = ground arith

same_export_symm : (a b : Export) → same_export a b ≡ same_export b a
same_export_symm a b =
    ground (arith, str_eq_iff a.sha256_hex b.sha256_hex, str_eq_iff b.sha256_hex a.sha256_hex)

Respects-insert_run : (row : RunRow) → IsSoundRun row → Respects staying_sound (insert_run row)
unfolding staying_sound
Respects-insert_run row sound = record {
  at = λ db a db' e h.
      let (apart, is) = insert_run_lem row db a db' e in
      subst IsSound (sym is) (record {
        runs_apart = Apart-append same_run same_run_symm db.runs row h.runs_apart apart;
        runs_sound = All-append IsSoundRun db.runs (row ∷ []) h.runs_sound (sound, tt);
        exports_apart = h.exports_apart;
        exports_bounded = h.exports_bounded;
        operations_apart = h.operations_apart;
      });
}

Respects-insert_export :
    (row : Export) → row.byte_length ≤ i64_max → Respects staying_sound (insert_export row)
unfolding staying_sound
Respects-insert_export row bounded = record {
  at = λ db a db' e h.
      let (apart, is) = insert_export_lem row db a db' e in
      subst IsSound (sym is) (record {
        exports_apart =
            Apart-append same_export same_export_symm db.exports row h.exports_apart apart;
        exports_bounded = All-append _ db.exports (row ∷ []) h.exports_bounded (bounded, tt);
        runs_apart = h.runs_apart;
        runs_sound = h.runs_sound;
        operations_apart = h.operations_apart;
      });
}

Respects-insert_operation : (row : OperationRow) → Respects staying_sound (insert_operation row)
unfolding staying_sound
Respects-insert_operation row = record {
  at = λ db a db' e h. elim (insert_operation_lem row db a db' e) [
    | inl same ↦ subst IsSound (sym same) h
    | inr (apart, is) ↦ subst IsSound (sym is) (record {
      operations_apart =
          Apart-append same_operation same_operation_symm db.operations row h.operations_apart
            apart;
      runs_apart = h.runs_apart;
      runs_sound = h.runs_sound;
      exports_apart = h.exports_apart;
      exports_bounded = h.exports_bounded;
    })
  ];
}

IsSoundRun-fresh :
    (id : ℕ) (account : String) (mode : AcquisitionMode) (media_type : String)
    → IsSoundRun (fresh_run id account mode media_type)
unfolding fresh_run is_terminal
IsSoundRun-fresh id account mode media_type = ground arith

pub set_state-id : (t : ImportState) (r : RunRow) → (set_state t r).id ≡ r.id
unfolding set_state
set_state-id t r = ground arith

pub staying_sound-Accepts : Accepts staying_sound
unfolding set_hashed set_stored new_export
staying_sound-Accepts = record {
  creates = λ id account mode media_type.
      Respects-insert_run _ (IsSoundRun-fresh id account mode media_type);
  hashes = λ id sha256_hex byte_length.
      Respects-update_runs _ _ (λ r. refl)
        (λ r b h. IsSoundRun-set_hashed r h sha256_hex byte_length (sits_at-state id received r b));
  fails = λ id s open_stage.
      Respects-update_runs _ _ (set_state-id failed) (λ r b h. IsSoundRun-failed r h);
  repeats = λ id.
      Respects-update_runs _ _ (set_state-id duplicate)
        (λ r b h. IsSoundRun-duplicate r h (sits_at-state id hashed r b));
  stores = λ id export_id.
      Respects-update_runs _ _ (λ r. refl)
        (λ r b h. IsSoundRun-set_stored r h export_id (sits_at-state id hashed r b));
  binds = Respects-insert_operation;
  owns = λ id account. unfold staying_sound in record { at = upsert_account-IsSound id account };
  exports = λ request e a c. Respects-insert_export _ (to_i64-le request.byte_length);
}

-- A run may be failed from any stage, a terminal one among them, and is sound after it.
pub staying_sound-overrules :
    (id : ℕ) (state : ImportState)
    → Respects staying_sound (update_runs (sits_at id state) (set_state failed))
staying_sound-overrules id state =
    Respects-update_runs _ _ (set_state-id failed) (λ r b h. IsSoundRun-failed r h)
