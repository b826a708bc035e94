-- ===== src/Perms/Refusal.antt =====
-- CanPerform (internal/perms/perms.go) refuses whoever asks for a permission that does not exist.
use chremoas_ng.Base.{◌≡◌, refl, ap, ◌∙◌, false, Option, none, some, [], ◌==◌, bytes_eq, keep}
use chremoas_ng.Base.Text.{Str}
use chremoas_ng.Database.{Db, Fault}
use chremoas_ng.World.{
  World, Env, Error, M, pure, done, tick, ok, err, check, select, database, no_permission,
  is_no_rows,
}
use chremoas_ng.World.Runs.{query-fault, query-unharmed, check-err, check-ok}
use chremoas_ng.World.Keeps.{Keeps, final}
use chremoas_ng.Storage.Permissions.{get_permission, found_permission}
use chremoas_ng.Perms.{auth_web, can_perform}

-- Wherever `I` holds of the tables, there is no such permission, and the author is not the web front
-- end.
pub record IsRefused (author permission : Str) (I : Db → Type 0) : Type 0 where
  pub other : (author == auth_web) ≡ false
  pub missing : (db : Db) → I db → keep (λ p. p.name == permission) db.permissions ≡ []

module _ (env : Env) (permission : Str) (w : World)
    (missing : keep (λ p. p.name == permission) w.db.permissions ≡ []) where
  lookup_fails :
      (o : Option Fault)
      → env.fault w.clock ≡ o
      → (e : Error) × (get_permission env permission w ≡ done (err e) (tick w))
  unfolding get_permission pure found_permission is_no_rows
  lookup_fails (some f) fault = (
    database f,
    check-err _ _ _ w (tick w) (database f) (
        query-fault env (select (λ db. keep (λ p. p.name == permission) db.permissions)) w f fault),
  )
  lookup_fails none fault = (
    no_permission,
    check-ok _ _ _ w (tick w) [] (
        query-unharmed env (λ db. keep (λ p. p.name == permission) db.permissions) w fault
        ∙ ap (λ ps. done (ok ps) (tick w)) missing),
  )

module _ {A : Type 0} {I : Db → Type 0} (env : Env) (author permission : Str) (failed : Error → M A)
    (next : Unit → M A) where
  pub Keeps-refused :
      IsRefused author permission I
      → ((e : Error) → Keeps I (failed e))
      → Keeps I (check (can_perform env author permission) failed next)
  unfolding can_perform pure
  Keeps-refused r kf = record { at = refuse }
    where
      refuse :
          (w : World)
          → I w.db
          → I (final (check (can_perform env author permission) failed next w)).db
      refuse w h =
          let found = lookup_fails env permission w (r.missing w.db h) (env.fault w.clock) refl in
          let refused : can_perform env author permission w ≡ done (err found.0) (tick w) =
            rw (can_perform, r.other) (check-err _ _ _ w (tick w) found.0 found.1) in
          rw (check-err _ failed next w (tick w) found.0 refused) ((kf found.0).at (tick w) h)

-- The tables are the ones given.
pub record Stays (d db : Db) : Type 0 where
  pub same : db ≡ d

pub Stays-IsRefused :
    (author permission : Str) (d : Db)
    → (author == auth_web) ≡ false
    → keep (λ p. p.name == permission) d.permissions ≡ []
    → IsRefused author permission (Stays d)
Stays-IsRefused author permission d other missing = record {
  other = other;
  missing = λ db h. ap (λ e. keep (λ p. p.name == permission) e.permissions) h.same ∙ missing;
}
