-- ===== src/World/Gives.antt =====
-- What an action returns, whatever world it starts in. It does not panic.
use chremoas_ng.Base.{Bool, true, false, Option, none, some, if◌then◌else◌}
use chremoas_ng.Database.{Db, Outcome, Fault, rows, violation}
use chremoas_ng.World.{
  World, Env, Run, done, panic, M, pure, ◌>>=◌, check, tick, outcome_run, query, Error, Result, ok,
  err, database,
}
use chremoas_ng.World.Keeps.{final, Keeps}

-- The run ends with a value that satisfies `P`.
abbrev pub Returns : {A : Type 0} → (A → Type 0) → Run A → Type 0
Returns P (done a w) = P a
Returns P (panic w) = ⊥

pub record Gives {A : Type 0} (P : A → Type 0) (m : M A) : Type 0 where
  pub at : (w : World) → Returns P (m w)

-- Nothing but that there is a value.
abbrev pub Anything : {A : Type 0} → A → Type 0
Anything a = Unit

-- A condition on what succeeds.
abbrev pub IfOk : {A : Type 0} → (A → Type 0) → Result A → Type 0
IfOk P (ok a) = P a
IfOk P (err e) = Unit

module _ {A : Type 0} where
  pub Gives-pure : (P : A → Type 0) (a : A) → P a → Gives P (pure a)
  unfolding pure
  Gives-pure P a h = record { at = λ w. h }

  pub Gives-if :
      (P : A → Type 0) (b : Bool) (m n : M A) → Gives P m → Gives P n → Gives P (if b then m else n)
  Gives-if P true m n gm gn = gm
  Gives-if P false m n gm gn = gn

  outcome-Returns : (o : Outcome A) (w : World) → Returns (IfOk Anything) (outcome_run o w)
  unfolding outcome_run
  outcome-Returns (rows a db) w = tt
  outcome-Returns (violation c db) w = tt

  fault-Returns :
      (o : Option Fault) (f : Db → Outcome A) (w : World)
      → Returns (IfOk Anything) (elim o [
        | some e ↦ done (err (database e)) (tick w)
        | none ↦ outcome_run (f w.db) (tick w)
      ])
  fault-Returns none f w = outcome-Returns (f w.db) (tick w)
  fault-Returns (some e) f w = tt

  pub Gives-query : (env : Env) (f : Db → Outcome A) → Gives (IfOk Anything) (query env f)
  unfolding query
  Gives-query env f = record { at = λ w. fault-Returns (env.fault w.clock) f w }

module _ {A B : Type 0} where
  run_bind :
      (Q : A → Type 0) (P : B → Type 0) (r : Run A) (f : A → M B)
      → Returns Q r
      → ((a : A) → Q a → Gives P (f a))
      → Returns P (elim r [ done a w ↦ f a w | panic w ↦ panic w ])
  run_bind Q P (done a w) f h g = (g a h).at w
  run_bind Q P (panic w) f h g = h

  pub Gives-bind :
      (Q : A → Type 0) (P : B → Type 0) (m : M A) (f : A → M B)
      → Gives Q m
      → ((a : A) → Q a → Gives P (f a))
      → Gives P (m >>= f)
  unfolding ◌>>=◌
  Gives-bind Q P m f gm gf = record { at = λ w. run_bind Q P (m w) f (gm.at w) gf }

  run_check :
      (Q : Result A → Type 0) (P : B → Type 0) (r : Run (Result A)) (failed : Error → M B)
      (next : A → M B)
      → Returns Q r
      → ((e : Error) → Q (err e) → Gives P (failed e))
      → ((a : A) → Q (ok a) → Gives P (next a))
      → Returns P (elim r [
        | done r w ↦ elim r [ ok a ↦ next a w | err e ↦ failed e w ]
        | panic w ↦ panic w
      ])
  run_check Q P (done (ok a) w) failed next h gf gn = (gn a h).at w
  run_check Q P (done (err e) w) failed next h gf gn = (gf e h).at w
  run_check Q P (panic w) failed next h gf gn = h

  pub Gives-check :
      (Q : Result A → Type 0) (P : B → Type 0) (m : M (Result A)) (failed : Error → M B)
      (next : A → M B)
      → Gives Q m
      → ((e : Error) → Q (err e) → Gives P (failed e))
      → ((a : A) → Q (ok a) → Gives P (next a))
      → Gives P (check m failed next)
  unfolding check
  Gives-check Q P m failed next gm gf gn = record {
    at = λ w. run_check Q P (m w) failed next (gm.at w) gf gn;
  }

  keeps_check :
      (I : Db → Type 0) (Q : A → Type 0) (r : Run (Result A)) (failed : Error → M B)
      (next : A → M B)
      → Returns (IfOk Q) r
      → I (final r).db
      → ((e : Error) → Keeps I (failed e))
      → ((a : A) → Q a → Keeps I (next a))
      → I
          (final (elim r [
            | done r w ↦ elim r [ ok a ↦ next a w | err e ↦ failed e w ]
            | panic w ↦ panic w
          ])).db
  keeps_check I Q (done (ok a) w) failed next g h kf kn = (kn a g).at w h
  keeps_check I Q (done (err e) w) failed next g h kf kn = (kf e).at w h
  keeps_check I Q (panic w) failed next g h kf kn = h

  -- An invariant that the rest keeps only for the values that the first action gives.
  pub Keeps-check_given :
      {I : Db → Type 0} (Q : A → Type 0) (m : M (Result A)) (failed : Error → M B) (next : A → M B)
      → Gives (IfOk Q) m
      → Keeps I m
      → ((e : Error) → Keeps I (failed e))
      → ((a : A) → Q a → Keeps I (next a))
      → Keeps I (check m failed next)
  unfolding check
  Keeps-check_given {I} Q m failed next gm km kf kn = record {
    at = λ w h. keeps_check I Q (m w) failed next (gm.at w) (km.at w h) kf kn;
  }
