-- ===== src/Outbox/Announced/Ledger.antt =====
-- The rows of the ledger under the statements of crates/chatgpt-archive/src/announced_subjects.rs.
use ratatoskr_chatgpt.Prelude.{
  ℕ, ◌≡◌, refl, inl, inr, String, Bool, true, false, List, [], ◌∷◌, not, ◌&&◌, ◌||◌, ◌==◌, any,
  any-append, All, Bool-cases, arith, str_eq, str_eq_iff,
}
use ratatoskr_chatgpt.Outbox.Model.{AnnouncedRow, Store, Env}
use ratatoskr_chatgpt.Outbox.Store.{select}
use ratatoskr_chatgpt.Outbox.Announced.{
  SubjectKind, as_column, AnnouncedSubject, has_subject, is_announced, record_subject,
  announced_row, is_of, place, by_owner, read_owners, owners_of, forget_subject,
}

any-place :
    (p : AnnouncedRow → Bool) (r : AnnouncedRow) (rows : List AnnouncedRow)
    → any p (place r rows) ≡ (p r || any p rows)
unfolding place
any-place p r [] = refl
any-place p r (x ∷ rows) = ground (arith, any-place p r rows)

any-by_owner :
    (p : AnnouncedRow → Bool) (rows : List AnnouncedRow) → any p (by_owner rows) ≡ any p rows
unfolding by_owner
any-by_owner p [] = refl
any-by_owner p (r ∷ rows) = ground (arith, any-place p r (by_owner rows), any-by_owner p rows)

any-read_owners :
    (env : Env) (owner : String) (rows : List AnnouncedRow)
    → any (λ (o, a). str_eq o owner) (read_owners env rows)
      ≡ (env.is_tenant owner && any (λ r. str_eq r.owner_ref owner) rows)
unfolding read_owners
any-read_owners env owner [] = ground arith
any-read_owners env owner (r ∷ rows) =
    ground (arith, str_eq_iff r.owner_ref owner, any-read_owners env owner rows)

any-select :
    (p q : AnnouncedRow → Bool) (rows : List AnnouncedRow)
    → any p (select q rows) ≡ any (λ r. q r && p r) rows
unfolding select
any-select p q [] = refl
any-select p q (r ∷ rows) = ground (arith, any-select p q rows)

select-none :
    (q : AnnouncedRow → Bool) (rows : List AnnouncedRow)
    → select q (select (λ r. not (q r)) rows) ≡ []
unfolding select
select-none q [] = refl
select-none q (r ∷ rows) = ground (arith, select-none q rows)

-- The owners answered for a subject are exactly the tenants under whom a row of the account
-- announces it.
pub owners_of-any :
    (env : Env) (account_id : ℕ) (kind : SubjectKind) (subject_id : ℕ) (owner : String) (s : Store)
    → any (λ (o, a). str_eq o owner) (owners_of env account_id kind subject_id s) ≡ (
        env.is_tenant owner
        && any (λ r. is_of account_id kind subject_id r && str_eq r.owner_ref owner) s.announced)
unfolding owners_of
owners_of-any env account_id kind subject_id owner s =
    rw
      (
        any-read_owners env owner
            (by_owner (select (is_of account_id kind subject_id) s.announced)),
        any-by_owner (λ r. str_eq r.owner_ref owner)
            (select (is_of account_id kind subject_id) s.announced),
        any-select (λ r. str_eq r.owner_ref owner) (is_of account_id kind subject_id) s.announced,
      )
      refl

belongs :
    (account_id : ℕ) (kind : SubjectKind) (subject_id : ℕ) (owner : String)
    (rows : List AnnouncedRow)
    → All (λ r. (has_subject kind subject_id r && not (r.account_id == account_id)) ≡ false) rows
    → any (λ r. has_subject kind subject_id r && str_eq r.owner_ref owner) rows ≡ true
    → any (λ r. is_of account_id kind subject_id r && str_eq r.owner_ref owner) rows ≡ true
unfolding is_of
belongs account_id kind subject_id owner [] h k = k
belongs account_id kind subject_id owner (r ∷ rows) h k =
    ground (arith, h.0, belongs account_id kind subject_id owner rows h.1)

new_row-is_of :
    (subject : AnnouncedSubject) (account_id now : ℕ)
    → (is_of account_id subject.kind subject.subject_id (announced_row subject account_id now)
        && str_eq (announced_row subject account_id now).owner_ref subject.owner)
      ≡ true
unfolding is_of announced_row
new_row-is_of subject account_id now = ground (
  arith,
  str_eq_iff (as_column subject.kind) (as_column subject.kind),
  str_eq_iff subject.owner subject.owner,
)

recorded :
    (subject : AnnouncedSubject) (account_id : ℕ) (s : Store)
    → All
        (λ r.
          (has_subject subject.kind subject.subject_id r && not (r.account_id == account_id))
          ≡ false)
        s.announced
    → any
        (λ r.
          is_of account_id subject.kind subject.subject_id r && str_eq r.owner_ref subject.owner)
        (record_subject subject account_id s).1.announced
      ≡ true
unfolding record_subject is_announced
recorded subject account_id s h =
    elim (Bool-cases (
      any (λ r. has_subject subject.kind subject.subject_id r && str_eq r.owner_ref subject.owner)
        s.announced)) [
          | inl k ↦
              rw (k)
                (belongs account_id subject.kind subject.subject_id subject.owner s.announced h k)
          | inr k ↦ rw (k) (
              ground (
                arith,
                new_row-is_of subject account_id s.clock,
                any-append
                    (λ r.
                      is_of account_id subject.kind subject.subject_id r
                      && str_eq r.owner_ref subject.owner)
                    s.announced (announced_row subject account_id s.clock ∷ []),
              ))
        ]

-- Once an announcement is recorded the subject has its owner, provided that the owner reads as a
-- tenant and no other account announces the subject; once the subject is forgotten it has none.
pub owners_of-record :
    (env : Env) (subject : AnnouncedSubject) (account_id : ℕ) (s : Store)
    → env.is_tenant subject.owner ≡ true
    → All
        (λ r.
          (has_subject subject.kind subject.subject_id r && not (r.account_id == account_id))
          ≡ false)
        s.announced
    → let s' = (record_subject subject account_id s).1 in
      (any
          (λ (o, a). str_eq o subject.owner)
          (owners_of env account_id subject.kind subject.subject_id s')
        ≡ true)
      × (owners_of env account_id subject.kind subject.subject_id
            (forget_subject account_id subject.kind subject.subject_id s').1
          ≡ [])
unfolding owners_of forget_subject by_owner read_owners
owners_of-record env subject account_id s tenant own =
    let s' = (record_subject subject account_id s).1 in
    let q = is_of account_id subject.kind subject.subject_id in
    (
      rw (owners_of-any env account_id subject.kind subject.subject_id subject.owner s', tenant)
          (recorded subject account_id s own),
      rw (select-none q s'.announced) refl,
    )
