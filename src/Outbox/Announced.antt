-- ===== src/Outbox/Announced.antt =====
-- crates/chatgpt-archive/src/announced_subjects.rs: the ledger of the owners that each subject was
-- announced under.
pub mod Ledger
use Prim.Native.Nat.{Ordering}
use Prim.Native.String.{compare}
use ratatoskr_chatgpt.Prelude.{
  ℕ, String, Bool, true, false, Option, none, some, List, [], ◌∷◌, ◌++◌, not, ◌&&◌, if◌then◌else◌,
  ◌==◌, ltb, any, str_eq,
}
use ratatoskr_chatgpt.Outbox.Model.{AnnouncedRow, Store, Env}
use ratatoskr_chatgpt.Outbox.Store.{Statement, select}

pub data SubjectKind : Type 0 where
  archive conversation project : SubjectKind

abbrev pub as_column : SubjectKind → String
as_column archive = "archive"
as_column conversation = "conversation"
as_column project = "project"

-- `AnnouncedSubject`
pub record AnnouncedSubject : Type 0 where
  pub kind : SubjectKind
  pub subject_id : ℕ
  pub ai_archive_id : ℕ
  pub owner : String

-- The prefixes of `parse_inventory_subject`, once the subject is split at its first colon.
abbrev pub parse_kind : String → Option SubjectKind
parse_kind prefix =
    if str_eq prefix "archive"
    then some archive
    else if str_eq prefix "conversation"
    then some conversation
    else if str_eq prefix "project"
    then some project
    else none

-- The primary key.
unfoldable pub has_subject : SubjectKind → ℕ → AnnouncedRow → Bool
has_subject kind subject_id r = str_eq r.subject_kind (as_column kind) && r.subject_id == subject_id

unfoldable pub is_announced : SubjectKind → ℕ → String → List AnnouncedRow → Bool
unfolding has_subject
is_announced kind subject_id owner rows =
    any (λ r. has_subject kind subject_id r && str_eq r.owner_ref owner) rows

unfoldable pub announced_row : AnnouncedSubject → ℕ → ℕ → AnnouncedRow
announced_row subject account_id now = record {
  subject_kind = as_column subject.kind;
  subject_id = subject.subject_id;
  ai_archive_id = subject.ai_archive_id;
  owner_ref = subject.owner;
  account_id = account_id;
  announced_at = now;
}

-- `record`
unfoldable pub record_subject : AnnouncedSubject → ℕ → Statement Unit
unfolding is_announced announced_row
record_subject subject account_id s =
    if is_announced subject.kind subject.subject_id subject.owner s.announced
    then (tt, s)
    else (tt, record s { announced = s.announced ++ announced_row subject account_id s.clock ∷ [] })

-- `account_id = $1 AND subject_kind = $2 AND subject_id = $3`
unfoldable pub is_of : ℕ → SubjectKind → ℕ → AnnouncedRow → Bool
unfolding has_subject
is_of account_id kind subject_id r = r.account_id == account_id && has_subject kind subject_id r

abbrev before : String → String → Bool
before a b = elim (compare a b) [ Ordering.lt ↦ true | _ ↦ false ]

unfoldable pub place : AnnouncedRow → List AnnouncedRow → List AnnouncedRow
place r [] = r ∷ []
place r (x ∷ xs) =
    let rest = place r xs in if before r.owner_ref x.owner_ref then r ∷ x ∷ xs else x ∷ rest

-- `ORDER BY owner_ref`
unfoldable pub by_owner : List AnnouncedRow → List AnnouncedRow
unfolding place
by_owner [] = []
by_owner (r ∷ rs) = place r (by_owner rs)

-- The rows whose owner reads as a tenant, each with its archive.
unfoldable pub read_owners : Env → List AnnouncedRow → List (String × ℕ)
read_owners env [] = []
read_owners env (r ∷ rs) =
    let rest = read_owners env rs in
    if env.is_tenant r.owner_ref then (r.owner_ref, r.ai_archive_id) ∷ rest else rest

unfoldable pub owners_of : Env → ℕ → SubjectKind → ℕ → Store → List (String × ℕ)
unfolding is_of by_owner read_owners select
owners_of env account_id kind subject_id s =
    read_owners env (by_owner (select (is_of account_id kind subject_id) s.announced))

-- `forget`
unfoldable pub forget_subject : ℕ → SubjectKind → ℕ → Statement Unit
unfolding is_of select
forget_subject account_id kind subject_id s = (
  tt,
  record s { announced = select (λ r. not (is_of account_id kind subject_id r)) s.announced },
)

-- `ORDER BY announced_at DESC, owner_ref DESC LIMIT 1`
abbrev is_later : AnnouncedRow → AnnouncedRow → Bool
is_later a b =
    if ltb b.announced_at a.announced_at
    then true
    else a.announced_at == b.announced_at && before b.owner_ref a.owner_ref

unfoldable pub latest : List AnnouncedRow → Option AnnouncedRow
latest [] = none
latest (r ∷ rs) = elim (latest rs) [
  | none ↦ some r
  | some b ↦ if is_later r b then some r else some b
]

unfoldable pub owner_of_archive : Env → ℕ → Store → Option String
unfolding latest has_subject select
owner_of_archive env ai_archive_id s =
    elim (latest (select (has_subject archive ai_archive_id) s.announced)) [
      | none ↦ none
      | some r ↦ if env.is_tenant r.owner_ref then some r.owner_ref else none
    ]
