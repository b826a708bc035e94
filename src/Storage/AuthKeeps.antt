-- ===== src/Storage/AuthKeeps.antt =====
-- The reads of Confirm keep whatever holds of the tables.
use chremoas_ng.Base.{ℕ}
use chremoas_ng.Database.{Db}
use chremoas_ng.Storage.Alliances.{get_alliance}
use chremoas_ng.Storage.Corporations.{get_corporation}
use chremoas_ng.World.{Env}
use chremoas_ng.World.Keeps.{Keeps, keeps_rules}

module _ {I : Db → Type 0} (env : Env) where
  pub get_alliance-Keeps : (id : ℕ) → Keeps I (get_alliance env id)
  unfolding get_alliance
  get_alliance-Keeps id = search keeps_rules

  pub get_corporation-Keeps : (id : ℕ) → Keeps I (get_corporation env id)
  unfolding get_corporation
  get_corporation-Keeps id = search keeps_rules
