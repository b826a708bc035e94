-- ===== src/Auth/Requests.antt =====
-- Create (internal/auth/auth.go) for a character whose corporation is in no alliance.
use chremoas_ng.Base.{
  ℕ, ◌≡◌, refl, ap, ◌∙◌, true, false, ◌&&◌, none, [], ◌++◌, map, keep, count, ◌==◌, nat_eq,
  bytes_eq, bool_eq, if◌then◌else◌, Bool-cases, inl, inr,
}
use chremoas_ng.Base.Text.{Str, lit}
use chremoas_ng.Payloads.{Corporation, CreateRequest}
use chremoas_ng.Storage.Corporations.{get_corporation_count}
use chremoas_ng.Storage.Roles.{listed_role, do_get_roles, only_role, get_role_by_type}
use chremoas_ng.World.{World, Env, done, panic, pure, tick, ok, err, message}
use chremoas_ng.World.Runs.{
  IsCalm, query-select, check-ok, check-err, check-panic, bind-done, bind-panic,
}
use chremoas_ng.Auth.{register_alliance, insert_corporation, register_corporation, add_role, create}

module _ (env : Env) (calm : IsCalm env) where
  -- No role of that ticker.
  missing_role :
      (ticker name : Str) (w : World)
      → keep (λ r. r.sig == false && r.role_nick == ticker) w.db.roles ≡ []
      → add_role env ticker name w ≡ done (err (message (lit "no such role: " ++ ticker))) (tick w)
  unfolding add_role get_role_by_type do_get_roles only_role pure
  missing_role ticker name w missing = check-err _ _ _ w (tick w) _ (
      check-ok _ _ _ w (tick w) [] (
        query-select env
          (λ db. map listed_role (keep (λ r. r.sig == false && r.role_nick == ticker) db.roles)) w
          calm
        ∙ ap (λ rs. done (ok (map listed_role rs)) (tick w)) missing))

  counted :
      (id : ℕ) (w : World)
      → get_corporation_count env id w
        ≡ done (ok (count (λ c. c.id == id) w.db.auth.corporations)) (tick w)
  unfolding get_corporation_count
  counted id w = query-select env (λ db. count (λ c. c.id == id) db.auth.corporations) w calm

  unknown_corporation :
      (c : Corporation) (w : World)
      → (count (λ k. k.id == c.id) w.db.auth.corporations == 0) ≡ true
      → register_corporation env none c w ≡ panic (tick w)
  unfolding register_corporation insert_corporation
  unknown_corporation c w unknown =
      check-ok _ _ _ w (tick w) _ (counted c.id w)
      ∙ bind-panic _ _ (tick w) (tick w) (rw unknown refl)

  known_corporation :
      (c : Corporation) (w : World)
      → (count (λ k. k.id == c.id) w.db.auth.corporations == 0) ≡ false
      → keep (λ r. r.sig == false && r.role_nick == c.ticker) w.db.roles ≡ []
      → register_corporation env none c w
        ≡ done (err (message (lit "no such role: " ++ c.ticker))) (tick (tick w))
  unfolding register_corporation pure
  known_corporation c w known missing =
      check-ok _ _ _ w (tick w) _ (counted c.id w)
      ∙ bind-done _ _ (tick w) (tick w) tt (rw known refl)
      ∙ missing_role c.ticker c.name (tick w) missing

  -- Without faults, a request for a character whose corporation is in no alliance, and has no role
  -- yet, is never granted: it panics where the corporation is not in the tables, and otherwise it
  -- fails because the role that it is to add does not exist. No table changes.
  pub create_without_alliance_fails :
      (request : CreateRequest) (w : World)
      → request.alliance ≡ none
      → keep (λ r. r.sig == false && r.role_nick == request.corporation.ticker) w.db.roles ≡ []
      → create env request w ≡ (
          if count (λ c. c.id == request.corporation.id) w.db.auth.corporations == 0
          then panic (tick w)
          else done
              (err (message (lit "no such role: " ++ request.corporation.ticker)))
              (tick (tick w)))
  unfolding create register_alliance pure
  create_without_alliance_fails request w alone missing =
      elim (Bool-cases (count (λ c. c.id == request.corporation.id) w.db.auth.corporations == 0)) [
        | inl unknown ↦
            rw (create, alone, unknown)
              (check-ok _ _ _ w w tt refl
                ∙ check-panic _ _ _ w (tick w) (unknown_corporation request.corporation w unknown))
        | inr known ↦
            rw (create, alone, known)
              (check-ok _ _ _ w w tt refl
                ∙ check-err _ _ _ w (tick (tick w)) _
                    (known_corporation request.corporation w known missing))
      ]
