-- ===== src/World/Runs.antt =====
-- How actions run: the equations by which proofs follow a function through its calls.
use chremoas_ng.Base.{ℕ, ◌≡◌, refl, ◌∙◌, none, some}
use chremoas_ng.Base.Text.{Str}
use chremoas_ng.Database.{Db, Outcome, rows, violation, PgCode, Fault, pq}
use chremoas_ng.World.{
  World, Env, done, panic, M, ◌>>=◌, ◌>>◌, check, tick, outcome_run, query, select, bigint_param,
  Error, Result, ok, err, database,
}

-- No server fails.
pub record IsCalm (env : Env) : Type 0 where
  pub fault : (n : ℕ) → env.fault n ≡ none
  pub publish : (n : ℕ) → env.publish_fault n ≡ none

module _ {A : Type 0} where
  pub query-rows :
      (env : Env) (f : Db → Outcome A) (w : World) (a : A) (db : Db)
      → IsCalm env
      → f w.db ≡ rows a db
      → query env f w ≡ done (ok a) (record (tick w) { db = db })
  unfolding query outcome_run
  query-rows env f w a db calm e = rw (query, calm.fault w.clock, e, outcome_run)

  pub query-violation :
      (env : Env) (f : Db → Outcome A) (w : World) (c : PgCode) (db : Db)
      → IsCalm env
      → f w.db ≡ violation c db
      → query env f w ≡ done (err (database (pq c))) (record (tick w) { db = db })
  unfolding query outcome_run
  query-violation env f w c db calm e = rw (query, calm.fault w.clock, e, outcome_run)

  pub query-select :
      (env : Env) (f : Db → A) (w : World)
      → IsCalm env
      → query env (select f) w ≡ done (ok (f w.db)) (tick w)
  query-select env f w calm = query-rows env (select f) w (f w.db) w.db calm refl

  pub query-fault :
      (env : Env) (f : Db → Outcome A) (w : World) (e : Fault)
      → env.fault w.clock ≡ some e
      → query env f w ≡ done (err (database e)) (tick w)
  unfolding query
  query-fault env f w e fault = rw (query, fault) refl

  pub query-unharmed :
      (env : Env) (f : Db → A) (w : World)
      → env.fault w.clock ≡ none
      → query env (select f) w ≡ done (ok (f w.db)) (tick w)
  unfolding query outcome_run
  query-unharmed env f w fault = rw (query, fault, outcome_run) refl

  pub bigint_param-some :
      (env : Env) (s : Str) (f : ℕ → Db → Outcome A) (n : ℕ) (db : Db)
      → env.bigint s ≡ some n
      → bigint_param env s f db ≡ f n db
  unfolding bigint_param
  bigint_param-some env s f n db e = rw (bigint_param, e)

  pub query-bigint :
      (env : Env) (s : Str) (f : ℕ → Db → Outcome A) (n : ℕ) (w : World) (a : A) (db : Db)
      → IsCalm env
      → env.bigint s ≡ some n
      → f n w.db ≡ rows a db
      → query env (bigint_param env s f) w ≡ done (ok a) (record (tick w) { db = db })
  query-bigint env s f n w a db calm e result =
      query-rows env (bigint_param env s f) w a db calm
        (bigint_param-some env s f n w.db e ∙ result)

module _ {A B : Type 0} where
  pub check-ok :
      (m : M (Result A)) (failed : Error → M B) (next : A → M B) (w w' : World) (a : A)
      → m w ≡ done (ok a) w'
      → check m failed next w ≡ next a w'
  unfolding check
  check-ok m failed next w w' a e = rw (check, e)

  pub check-err :
      (m : M (Result A)) (failed : Error → M B) (next : A → M B) (w w' : World) (e : Error)
      → m w ≡ done (err e) w'
      → check m failed next w ≡ failed e w'
  unfolding check
  check-err m failed next w w' e p = rw (check, p)

  pub check-panic :
      (m : M (Result A)) (failed : Error → M B) (next : A → M B) (w w' : World)
      → m w ≡ panic w'
      → check m failed next w ≡ panic w'
  unfolding check
  check-panic m failed next w w' p = rw (check, p)

  pub bind-panic : (m : M A) (f : A → M B) (w w' : World) → m w ≡ panic w' → (m >>= f) w ≡ panic w'
  unfolding ◌>>=◌
  bind-panic m f w w' p = rw (◌>>=◌, p)

  pub bind-done :
      (m : M A) (f : A → M B) (w w' : World) (a : A) → m w ≡ done a w' → (m >>= f) w ≡ f a w'
  unfolding ◌>>=◌
  bind-done m f w w' a e = rw (◌>>=◌, e)

  pub then-done : (m : M A) (n : M B) (w w' : World) (a : A) → m w ≡ done a w' → (m >> n) w ≡ n w'
  unfolding ◌>>◌
  then-done m n w w' a e = bind-done m (λ _. n) w w' a e
