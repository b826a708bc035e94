-- ===== src/World/Yields.antt =====
-- What holds of the value that an action succeeds with, if it succeeds; it may fail or panic.
use chremoas_ng.Database.{Db}
use chremoas_ng.World.{World, Run, done, panic, M, pure, ◌>>=◌, check, Error, Result, ok, err}
use chremoas_ng.World.Keeps.{Keeps, final}
use chremoas_ng.World.Gives.{IfOk}

abbrev pub IfDone : {A : Type 0} → (Result A → Type 0) → Run (Result A) → Type 0
IfDone P (done r w) = P r
IfDone P (panic w) = Unit

pub record Yields {A : Type 0} (P : A → Type 0) (m : M (Result A)) : Type 0 where
  pub at : (w : World) → IfDone (IfOk P) (m w)

module _ {A : Type 0} {P : A → Type 0} where
  pub Yields-pure : (r : Result A) → IfOk P r → Yields P (pure r)
  unfolding pure
  Yields-pure r h = record { at = λ w. h }

module _ {A B : Type 0} {P : B → Type 0} where
  after_bind :
      (r : Run A) (f : A → M (Result B))
      → ((a : A) → Yields P (f a))
      → IfDone (IfOk P) (elim r [ done a w ↦ f a w | panic w ↦ panic w ])
  after_bind (done a w) f k = (k a).at w
  after_bind (panic w) f k = tt

  pub Yields-bind :
      (m : M A) (f : A → M (Result B)) → ((a : A) → Yields P (f a)) → Yields P (m >>= f)
  unfolding ◌>>=◌
  Yields-bind m f k = record { at = λ w. after_bind (m w) f k }

  after_check :
      (r : Run (Result A)) (failed : Error → M (Result B)) (next : A → M (Result B))
      → ((e : Error) → Yields P (failed e))
      → ((a : A) → Yields P (next a))
      → IfDone (IfOk P) (elim r [
        | done r w ↦ elim r [ ok a ↦ next a w | err e ↦ failed e w ]
        | panic w ↦ panic w
      ])
  after_check (done (ok a) w) failed next kf kn = (kn a).at w
  after_check (done (err e) w) failed next kf kn = (kf e).at w
  after_check (panic w) failed next kf kn = tt

  pub Yields-check :
      (m : M (Result A)) (failed : Error → M (Result B)) (next : A → M (Result B))
      → ((e : Error) → Yields P (failed e))
      → ((a : A) → Yields P (next a))
      → Yields P (check m failed next)
  unfolding check
  Yields-check m failed next kf kn = record { at = λ w. after_check (m w) failed next kf kn }

module _ {A B : Type 0} {I : Db → Type 0} where
  keeps_after :
      (P : A → Type 0) (r : Run (Result A)) (failed : Error → M B) (next : A → M B)
      → IfDone (IfOk P) r
      → I (final r).db
      → ((e : Error) → Keeps I (failed e))
      → ((a : A) → P a → Keeps I (next a))
      → I
          (final (elim r [
            | done r w ↦ elim r [ ok a ↦ next a w | err e ↦ failed e w ]
            | panic w ↦ panic w
          ])).db
  keeps_after P (done (ok a) w) failed next y h kf kn = (kn a y).at w h
  keeps_after P (done (err e) w) failed next y h kf kn = (kf e).at w h
  keeps_after P (panic w) failed next y h kf kn = h

  -- An invariant that the rest keeps only for the values that the first action succeeds with.
  pub Keeps-check_yielded :
      (P : A → Type 0) (m : M (Result A)) (failed : Error → M B) (next : A → M B)
      → Yields P m
      → Keeps I m
      → ((e : Error) → Keeps I (failed e))
      → ((a : A) → P a → Keeps I (next a))
      → Keeps I (check m failed next)
  unfolding check
  Keeps-check_yielded P m failed next y km kf kn = record {
    at = λ w h. keeps_after P (m w) failed next (y.at w) (km.at w h) kf kn;
  }
