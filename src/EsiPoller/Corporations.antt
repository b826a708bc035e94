-- ===== src/EsiPoller/Corporations.antt =====
-- internal/esi-poller/corporation.go
use chremoas_ng.Base.{
  ℕ, suc, Bool, true, false, not, ◌||◌, Option, none, some, List, [], ◌∷◌, ◌++◌, ◌==◌, nat_eq,
  bytes_eq, if◌then◌else◌,
}
use chremoas_ng.Base.Text.{Str, lit, decimal}
use chremoas_ng.Payloads.{Corporation}
use chremoas_ng.Common.StringSets.{StringSets}
use chremoas_ng.Filters.Members.{add_member, remove_member}
use chremoas_ng.Roles.Changes.{destroy}
use chremoas_ng.Roles.Helpers.{get_members}
use chremoas_ng.Storage.Alliances.{get_alliance}
use chremoas_ng.Storage.Corporations.{get_corporations, upsert_corporation}
use chremoas_ng.World.{
  Env, EsiCorporation, Error, message, wrapped, no_alliance, done, tick, M, pure, ◌>>=◌, ◌>>◌,
  check, Result, ok, err,
}
use chremoas_ng.EsiPoller.Alliances.{not_found, update_alliance, bring_role}

-- `.Int32` of a sql.NullInt32
unfoldable pub int32 : Option ℕ → ℕ
int32 none = 0
int32 (some id) = id

-- `err == storage.ErrNoAlliance`
unfoldable pub is_missing_alliance : Error → Bool
is_missing_alliance no_alliance = true
is_missing_alliance _ = false

module _ (env : Env) (lib : StringSets) where
  -- The loop over the members ranges over their positions, and adds these.
  unfoldable pub add_positions : Str → ℕ → List ℕ → M Unit
  add_positions ticker i [] = pure tt
  add_positions ticker i (m ∷ members) =
      add_member env lib (decimal i) ticker >> add_positions ticker (suc i) members

  unfoldable pub remove_positions : Str → ℕ → List ℕ → M Unit
  remove_positions ticker i [] = pure tt
  remove_positions ticker i (m ∷ members) =
      remove_member env lib (decimal i) ticker >> remove_positions ticker (suc i) members

  unfoldable pub add_corp_members : Str → ℕ → M Unit
  unfolding add_positions
  add_corp_members corp_ticker alliance_id =
      check (get_alliance env alliance_id) (λ e. pure tt)
        (λ alliance.
          check (get_members env false corp_ticker) (λ e. pure tt)
            (λ members. add_positions alliance.ticker 0 members))

  unfoldable pub remove_corp_members : Str → ℕ → M Unit
  unfolding remove_positions
  remove_corp_members corp_ticker alliance_id =
      check (get_alliance env alliance_id) (λ e. pure tt)
        (λ alliance.
          check (get_members env false corp_ticker) (λ e. pure tt)
            (λ members. remove_positions alliance.ticker 0 members))

  -- `esiClient.ESI.CorporationApi.GetCorporationsCorporationId`
  unfoldable pub ask_corporation : ℕ → M (EsiCorporation × Option Error)
  ask_corporation id w = done (env.esi_corporation w.clock id) (tick w)

  -- The alliance that the corporation is in, if any, is brought up to date.
  unfoldable pub update_its_alliance : ℕ → M (Result Unit)
  unfolding is_missing_alliance
  update_its_alliance id =
      if id == 0
      then pure (ok tt)
      else check
          (check (get_alliance env id)
            (λ e.
              if is_missing_alliance e
              then pure (ok (record { id = id; name = []; ticker = [] }))
              else pure (err (wrapped (lit "error getting alliance: ") e)))
            (λ alliance. pure (ok alliance)))
          (λ e. pure (err e))
          (λ alliance.
            check (update_alliance env alliance)
              (λ e. pure (err (wrapped (lit "error updating alliance: ") e))) (λ _. pure (ok tt)))

  -- The members of a corporation that has changed its alliance.
  unfoldable pub switch_alliance : Str → ℕ → ℕ → M Unit
  unfolding remove_corp_members add_corp_members
  switch_alliance ticker old new =
      if old == new
      then pure tt
      else ((if old == 0 then pure tt else remove_corp_members ticker old)
          >> (if new == 0 then pure tt else add_corp_members ticker new))

  -- What follows the answer, also when the request has failed otherwise than by not found.
  unfoldable pub follow_corporation : Corporation → EsiCorporation → M (Result Unit)
  unfolding update_its_alliance switch_alliance int32
  follow_corporation corporation response =
      let moved = not (int32 corporation.alliance_id == response.alliance_id) in
      check (update_its_alliance response.alliance_id) (λ e. pure (err e))
        (λ _.
          check
            (if not (corporation.name == response.name)
                || not (corporation.ticker == response.ticker)
                || moved
              then upsert_corporation env corporation.id response.alliance_id response.name
                  response.ticker
              else pure (ok tt))
            (λ e. pure (err e))
            (λ _.
              switch_alliance response.ticker (int32 corporation.alliance_id) response.alliance_id
              >> bring_role env corporation.ticker response.ticker response.name))

  unfoldable pub take_corporation : Corporation → EsiCorporation × Option Error → M (Result Unit)
  unfolding follow_corporation not_found
  take_corporation corporation (response, none) = follow_corporation corporation response
  take_corporation corporation (response, some e) =
      if not_found e
      then (destroy env false response.ticker >>= λ _.
          pure (err (message (lit "corporation not found: " ++ decimal corporation.id))))
      else follow_corporation corporation response

  unfoldable pub update_corporation : Corporation → M (Result Unit)
  unfolding ask_corporation take_corporation
  update_corporation corporation = ask_corporation corporation.id >>= take_corporation corporation

  unfoldable pub update_each_corporation : List Corporation → ℕ × ℕ → M (Result (ℕ × ℕ))
  unfolding update_corporation
  update_each_corporation [] counts = pure (ok counts)
  update_each_corporation (c ∷ corporations) counts =
      check (update_corporation c)
        (λ e. update_each_corporation corporations (counts.0, suc counts.1))
        (λ _. update_each_corporation corporations (suc counts.0, counts.1))

  unfoldable pub update_corporations : M (Result (ℕ × ℕ))
  unfolding update_each_corporation
  update_corporations =
      check (get_corporations env) (λ e. pure (err e))
        (λ corporations. update_each_corporation corporations (0, 0))
