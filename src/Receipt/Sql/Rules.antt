-- ===== src/Receipt/Sql/Rules.antt =====
-- Orders on the rows under statements and transactions.
use ratatoskr_chatgpt.Prelude.{
  ℕ, ◌≡◌, refl, subst, ap, Bool, true, false, Option, none, some, List, [], ◌∷◌, if◌then◌else◌,
}
use ratatoskr_chatgpt.Effect.{Result, ok, err, Exec, ◌>>=◌, ◌>>◌, map_err, pure}
use ratatoskr_chatgpt.Effect.Guards.{
  Preorder, Guards, Guards-bind, Guards-map_err, Guards-pure, guards_rules,
}
use ratatoskr_chatgpt.Receipt.World.{
  Db, Shared, Tick, World, Env, spend, wait, io, mint_id, drop_tick, meddle,
}
use ratatoskr_chatgpt.Receipt.Records.{RepositoryError, backend}
use ratatoskr_chatgpt.Receipt.Sql.{
  Statement, answer, sql, sql_in, settle_transaction, transaction, query, unless_conflict,
}
use ratatoskr_chatgpt.Receipt.Orderly.{AreOrderly, keeping, Respects}

module _ {A : Type 0} (a : A) (db : Db) where
  db_of : Option (A × Db) → Db
  db_of none = db
  db_of (some (b, db')) = db'

  answered-db :
      (b : A) (db' : Db) → ◌≡◌ {A = Option (A × Db)} (some (a, db)) (some (b, db')) → db ≡ db'
  unfolding db_of
  answered-db b db' e = ap db_of e

module _ (R : Preorder Db) where
  drop_tick-AreOrderly : (ts : List Tick) → AreOrderly R ts → AreOrderly R (drop_tick ts)
  drop_tick-AreOrderly [] o = o
  drop_tick-AreOrderly (t ∷ ts) o = o.1

  meddle-rel : (ts : List Tick) (s : Shared) → AreOrderly R ts → R.rel s.db (meddle ts s).db
  meddle-rel [] s o = R.same s.db
  meddle-rel (t ∷ ts) s o = o.0 s

  wait-rel : (w : World) → (keeping R).rel w (wait w).0
  unfolding wait keeping spend
  wait-rel w o = (drop_tick-AreOrderly w.ticks o, meddle-rel w.ticks w.shared o)

  pub Guards-io : Guards (keeping R) io
  unfolding io keeping spend
  Guards-io = record { at = λ w o. (drop_tick-AreOrderly w.ticks o, R.same w.db) }

  pub Guards-mint_id : {E : Type 0} (env : Env) → Guards (keeping R) (mint_id {E = E} env)
  unfolding mint_id keeping
  Guards-mint_id env = record { at = λ w o. (o, R.same w.db) }

  module _ {A : Type 0} (st : Statement A) (keeps : Respects R st) where
    answer-rel : (w : World) (r : Option (A × Db)) → st w.db ≡ r → (keeping R).rel w (answer r w).1
    unfolding answer keeping
    answer-rel w none e o = (o, R.same w.db)
    answer-rel w (some (a, db)) e o = (o, keeps.at w.db a db e)

    answered-rel :
        (fault : Bool) (w : World)
        → (keeping R).rel w (if fault then (err backend, w) else answer (st w.db) w).1
    answered-rel true w = (keeping R).same w
    answered-rel false w = answer-rel w (st w.db) refl

    pub Guards-sql : Guards (keeping R) (sql st)
    unfolding sql
    Guards-sql = record {
      at = λ w. let (w', fault) = wait w in (keeping R).chain (wait-rel w) (answered-rel fault w');
    }

    pub Guards-sql_in : Guards (keeping R) (sql_in st)
    unfolding sql_in
    Guards-sql_in =
        Guards-bind _ _ (Guards-map_err _ _ Guards-io)
          (λ _. record { at = λ w. answer-rel w (st w.db) refl })

  settled-rel :
      {A : Type 0} (before w : World) (r : Result RepositoryError A)
      → (keeping R).rel before w
      → (keeping R).rel before (settle_transaction before.db (r, w)).1
  unfolding settle_transaction keeping
  settled-rel before w (ok a) g = g
  settled-rel before w (err e) g = λ o. ((g o).0, R.same before.db)

  module _ {A : Type 0} (body : Exec RepositoryError World A)
      (keeps : Guards (keeping R) body) where
    committed : Guards (keeping R) (body >>= λ a. map_err (λ _. backend) io >> pure a)
    committed =
        Guards-bind _ _ keeps
          (λ a. Guards-bind _ _ (Guards-map_err _ _ Guards-io) (λ _. Guards-pure a))

    begun-rel :
        (fault : Bool) (w : World)
        → (keeping R).rel w
            (if fault
              then (err backend, w)
              else settle_transaction w.db
                  ((body >>= λ a. map_err (λ _. backend) io >> pure a) w)).1
    begun-rel true w = (keeping R).same w
    begun-rel false w =
        let (r, w') = (body >>= λ a. map_err (λ _. backend) io >> pure a) w in
        settled-rel w w' r (committed.at w)

    pub Guards-transaction : Guards (keeping R) (transaction body)
    unfolding transaction
    Guards-transaction = record {
      at = λ w. let (w', fault) = wait w in (keeping R).chain (wait-rel w) (begun-rel fault w');
    }

  pub Respects-query : {A : Type 0} (f : Db → A) → Respects R (query f)
  unfolding query
  Respects-query f = record {
    at = λ db a db' e. subst (R.rel db) (answered-db (f db) db a db' e) (R.same db);
  }

  pub Guards-unless_conflict : (rows : ℕ) → Guards (keeping R) (unless_conflict rows)
  unfolding unless_conflict
  Guards-unless_conflict rows = search guards_rules

pub ruleset sql_rules = (
  guards_rules, Guards-io, Guards-mint_id, Guards-sql, Guards-sql_in, Guards-transaction,
  Respects-query, Guards-unless_conflict,
)
