-- ===== src/EsiPoller/Alliances.antt =====
-- internal/esi-poller/alliance.go, and notFound of esi-poller.go.
use chremoas_ng.Base.{
  ℕ, suc, Bool, true, false, not, ◌||◌, Option, none, some, List, [], ◌∷◌, ◌++◌, ◌==◌, nat_eq,
  bytes_eq, if◌then◌else◌,
}
use chremoas_ng.Base.Text.{Str, lit, decimal}
use chremoas_ng.Payloads.{Alliance}
use chremoas_ng.Roles.Changes.{add, destroy}
use chremoas_ng.Roles.Update.{update}
use chremoas_ng.Storage.Alliances.{get_alliances, upsert_alliance}
use chremoas_ng.Storage.Roles.{get_role_count}
use chremoas_ng.World.{
  Env, EsiAlliance, SwaggerModel, Error, swagger, message, done, tick, M, pure, ◌>>=◌, check,
  Result, ok, err,
}

-- Whether `notFound` returns nil: the error says that what was asked for does not exist.
unfoldable pub not_found : Error → Bool
not_found (swagger SwaggerModel.alliance_not_found) = true
not_found (swagger SwaggerModel.corporation_not_found) = true
not_found (swagger SwaggerModel.character_not_found) = true
not_found _ = false

-- The values that a role is brought into line with.
unfoldable pub role_values : Str → Str → List (Str × Str)
role_values ticker name = (lit "role_nick", ticker) ∷ (lit "name", name) ∷ []

module _ (env : Env) where
  -- `esiClient.ESI.AllianceApi.GetAlliancesAllianceId`
  unfoldable pub ask_alliance : ℕ → M (EsiAlliance × Option Error)
  ask_alliance id w = done (env.esi_alliance w.clock id) (tick w)

  -- The last step of an update: the role is added, or changed under its old ticker.
  unfoldable pub bring_role : Str → Str → Str → M (Result Unit)
  unfolding role_values
  bring_role old_ticker ticker name =
      check (get_role_count env false ticker) (λ e. pure (err e))
        (λ count.
          if count == 0
          then (add env false false ticker name (lit "discord") >>= λ _. pure (ok tt))
          else (update env false old_ticker (role_values ticker name) >>= λ _. pure (ok tt)))

  unfoldable pub follow_alliance : Alliance → EsiAlliance × Option Error → M (Result Unit)
  unfolding bring_role not_found
  follow_alliance alliance (response, some e) =
      if not_found e
      then (destroy env false response.ticker >>= λ _.
          pure (err (message (lit "alliance not found: " ++ decimal alliance.id))))
      else pure (err e)
  follow_alliance alliance (response, none) =
      check
        (if not (alliance.name == response.name) || not (alliance.ticker == response.ticker)
          then upsert_alliance env alliance.id response.name response.ticker
          else pure (ok tt))
        (λ e. pure (err e)) (λ _. bring_role alliance.ticker response.ticker response.name)

  unfoldable pub update_alliance : Alliance → M (Result Unit)
  unfolding ask_alliance follow_alliance
  update_alliance alliance = ask_alliance alliance.id >>= follow_alliance alliance

  -- How many were updated, and how many could not be.
  unfoldable pub update_each_alliance : List Alliance → ℕ × ℕ → M (Result (ℕ × ℕ))
  unfolding update_alliance
  update_each_alliance [] counts = pure (ok counts)
  update_each_alliance (a ∷ alliances) counts =
      check (update_alliance a) (λ e. update_each_alliance alliances (counts.0, suc counts.1))
        (λ _. update_each_alliance alliances (suc counts.0, counts.1))

  unfoldable pub update_alliances : M (Result (ℕ × ℕ))
  unfolding update_each_alliance
  update_alliances =
      check (get_alliances env) (λ e. pure (err e))
        (λ alliances. update_each_alliance alliances (0, 0))
