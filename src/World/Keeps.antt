-- ===== src/World/Keeps.antt =====
-- Invariants of the tables under actions, one rule for each way to build an action.
use chremoas_ng.Base.{ℕ, ◌≡◌, Bool, true, false, Option, none, some, if◌then◌else◌}
use chremoas_ng.Base.Text.{Str}
use chremoas_ng.Database.{Db, PgCode, Fault, pq, Outcome, rows, violation, outcome_db}
use chremoas_ng.World.{
  World, Env, Run, done, panic, M, pure, ◌>>=◌, ◌>>◌, check, tick, outcome_run, query, select,
  bigint_param, Error, Result, ok, err, database, on_unique,
}

-- The world in which a call ends, with or without a panic.
abbrev pub final : {A : Type 0} → Run A → World
final (done a w) = w
final (panic w) = w

-- However `m` ends, the tables still satisfy `I`.
pub record Keeps {A : Type 0} (I : Db → Type 0) (m : M A) : Type 0 where
  pub at : (w : World) → I w.db → I (final (m w)).db

-- The statement keeps `I`, whether it succeeds or not.
pub record Respects {A : Type 0} (I : Db → Type 0) (f : Db → Outcome A) : Type 0 where
  pub at : (db : Db) → I db → I (outcome_db (f db))

after_outcome :
    {A : Type 0} (I : Db → Type 0) (o : Outcome A) (w : World)
    → I (outcome_db o)
    → I (final (outcome_run o w)).db
unfolding outcome_run
after_outcome I (rows a db) w h = h
after_outcome I (violation c db) w h = h

module _ {A : Type 0} {I : Db → Type 0} where
  pub Keeps-pure : (a : A) → Keeps I (pure a)
  unfolding pure
  Keeps-pure a = record { at = λ w h. h }

  pub Keeps-panic : Keeps {A = A} I (λ w. panic w)
  Keeps-panic = record { at = λ w h. h }

  pub Keeps-if : (b : Bool) (m n : M A) → Keeps I m → Keeps I n → Keeps I (if b then m else n)
  Keeps-if true m n km kn = km
  Keeps-if false m n km kn = kn

  pub Keeps-else : (b : Bool) (m n : M A) → b ≡ false → Keeps I n → Keeps I (if b then m else n)
  Keeps-else b m n e kn = rw e kn

  pub Keeps-on_unique : (sentinel e : Error) → Keeps {A = Result A} I (on_unique sentinel e)
  unfolding on_unique pure
  Keeps-on_unique sentinel (database (pq PgCode.unique_violation)) = record { at = λ w h. h }
  Keeps-on_unique sentinel (database (pq c)) = record { at = λ w h. h }
  Keeps-on_unique sentinel _ = record { at = λ w h. h }

  after_query :
      (o : Option Fault) (f : Db → Outcome A) (w : World)
      → Respects I f
      → I w.db
      → I
          (final (elim o [
            | some e ↦ done (err (database e)) (tick w)
            | none ↦ outcome_run (f w.db) (tick w)
          ])).db
  after_query (some e) f w respects h = h
  after_query none f w respects h = after_outcome I (f w.db) (tick w) (respects.at w.db h)

  pub Keeps-query : (env : Env) (f : Db → Outcome A) → Respects I f → Keeps I (query env f)
  unfolding query
  Keeps-query env f respects = record { at = λ w h. after_query (env.fault w.clock) f w respects h }

  after_param :
      (o : Option ℕ) (f : ℕ → Db → Outcome A) (db : Db)
      → ((n : ℕ) → Respects I (f n))
      → I db
      → I (outcome_db (elim o [ none ↦ violation PgCode.invalid_text db | some n ↦ f n db ]))
  after_param none f db respects h = h
  after_param (some n) f db respects h = (respects n).at db h

  pub Respects-bigint_param :
      (env : Env) (s : Str) (f : ℕ → Db → Outcome A)
      → ((n : ℕ) → Respects I (f n))
      → Respects I (bigint_param env s f)
  unfolding bigint_param
  Respects-bigint_param env s f respects = record {
    at = λ db h. after_param (env.bigint s) f db respects h;
  }

  pub Respects-select : (f : Db → A) → Respects I (select f)
  Respects-select f = record { at = λ db h. h }

module _ {A B : Type 0} {I : Db → Type 0} where
  after_run :
      (r : Run A) (f : A → M B)
      → I (final r).db
      → ((a : A) → Keeps I (f a))
      → I (final (elim r [ done a w ↦ f a w | panic w ↦ panic w ])).db
  after_run (done a w) f h k = (k a).at w h
  after_run (panic w) f h k = h

  pub Keeps-bind :
      (m : M A) (f : A → M B) → Keeps I m → ((a : A) → Keeps I (f a)) → Keeps I (m >>= f)
  unfolding ◌>>=◌
  Keeps-bind m f km kf = record { at = λ w h. after_run (m w) f (km.at w h) kf }

  pub Keeps-then : (m : M A) (n : M B) → Keeps I m → Keeps I n → Keeps I (m >> n)
  unfolding ◌>>◌
  Keeps-then m n km kn = Keeps-bind m (λ _. n) km (λ _. kn)

  after_check :
      (r : Run (Result A)) (failed : Error → M B) (next : A → M B)
      → I (final r).db
      → ((e : Error) → Keeps I (failed e))
      → ((a : A) → Keeps I (next a))
      → I
          (final (elim r [
            | done r w ↦ elim r [ ok a ↦ next a w | err e ↦ failed e w ]
            | panic w ↦ panic w
          ])).db
  after_check (done (ok a) w) failed next h kf kn = (kn a).at w h
  after_check (done (err e) w) failed next h kf kn = (kf e).at w h
  after_check (panic w) failed next h kf kn = h

  pub Keeps-check :
      (m : M (Result A)) (failed : Error → M B) (next : A → M B)
      → Keeps I m
      → ((e : Error) → Keeps I (failed e))
      → ((a : A) → Keeps I (next a))
      → Keeps I (check m failed next)
  unfolding check
  Keeps-check m failed next km kf kn = record {
    at = λ w h. after_check (m w) failed next (km.at w h) kf kn;
  }

pub ruleset keeps_rules = (
  Keeps-pure, Keeps-if, Keeps-on_unique, Keeps-query, Keeps-bind, Keeps-then, Keeps-check,
  Respects-bigint_param, Respects-select,
)
