-- ===== src/Roles/AddsNothing.antt =====
-- AddFilter (internal/roles/roles.go): what becomes of the filter.
use chremoas_ng.Base.{◌≡◌, refl, Bool, Option, some, []}
use chremoas_ng.Base.Text.{Str, atoi}
use chremoas_ng.Payloads.{Role, Filter}
use chremoas_ng.Database.{Db, RoleRow}
use chremoas_ng.World.{World, Env, Error, Result, ok, err}
use chremoas_ng.World.Keeps.{Keeps, Keeps-pure, Keeps-check, final, keeps_rules}
use chremoas_ng.World.Gives.{
  Gives, Anything, IfOk, Gives-pure, Gives-query, Gives-check, Keeps-check_given,
}
use chremoas_ng.Storage.Filters.{get_filter}
use chremoas_ng.Storage.Roles.{get_role, found_role, synced_role}
use chremoas_ng.Roles.Filters.{insert_filter, add_filter}

-- The id is not among the columns that GetRole reads.
HasNoId : Role → Type 0
HasNoId r = r.id ≡ []

found_role-HasNoId : (missing : Error) (r : Result RoleRow) → IfOk HasNoId (found_role missing r)
unfolding found_role HasNoId synced_role
found_role-HasNoId missing (ok row) = refl
found_role-HasNoId missing (err e) = tt

module _ (env : Env) (old : Db) where
  abbrev Same : Db → Type 0
  Same db = db ≡ old

  get_role-HasNoId :
      (name ticker : Str) (sig : Option Bool) → Gives (IfOk HasNoId) (get_role env name ticker sig)
  unfolding get_role
  get_role-HasNoId name ticker sig =
      Gives-check (IfOk Anything) (IfOk HasNoId) _ _ _ (search Gives-query)
        (λ e h. Gives-pure _ _ tt) (λ found h. Gives-pure _ _ (found_role-HasNoId _ _))

  get_role-Same :
      (name ticker : Str) (sig : Option Bool) → Keeps Same (get_role env name ticker sig)
  unfolding get_role
  get_role-Same name ticker sig = search keeps_rules

  get_filter-Same : (name : Str) → Keeps Same (get_filter env name)
  unfolding get_filter
  get_filter-Same name = search keeps_rules

  unnumbered-Same :
      (filter : Filter) (ticker : Str) (role : Role)
      → HasNoId role
      → Keeps Same (insert_filter env filter ticker (atoi role.id))
  unfolding insert_filter HasNoId atoi
  unnumbered-Same filter ticker role e = rw e (Keeps-pure _)

  add_filter-Same : (sig : Bool) (name ticker : Str) → Keeps Same (add_filter env sig name ticker)
  unfolding add_filter
  add_filter-Same sig name ticker =
      Keeps-check _ _ _ (get_filter-Same name) (λ e. Keeps-pure _)
        (λ filter.
          Keeps-check_given HasNoId _ _ _ (get_role-HasNoId [] ticker (some sig))
            (get_role-Same [] ticker (some sig)) (λ e. Keeps-pure _)
            (unnumbered-Same filter ticker))

-- Whatever the filter and the role, and whether or not anything fails, AddFilter leaves every
-- table as it was, so that no filter is ever added to a role.
pub add_filter_adds_nothing :
    (env : Env) (sig : Bool) (name ticker : Str) (w : World)
    → (final (add_filter env sig name ticker w)).db ≡ w.db
add_filter_adds_nothing env sig name ticker w = (add_filter-Same env w.db sig name ticker).at w refl
