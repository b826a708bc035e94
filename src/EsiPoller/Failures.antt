-- ===== src/EsiPoller/Failures.antt =====
-- What a failed request to the game leads to (internal/esi-poller/corporation.go and character.go).
use chremoas_ng.Base.{
  ◌≡◌, refl, ap, ◌∙◌, true, false, not, ◌&&◌, ◌||◌, none, some, [], ◌∷◌, ◌++◌, ◌==◌, nat_eq,
  bytes_eq, bool_eq, any, drop_all, count,
}
use chremoas_ng.Base.Text.{Str, lit, decimal, char_count}
use chremoas_ng.Payloads.{Alliance, Corporation}
use chremoas_ng.Common.StringSets.{StringSets}
use chremoas_ng.Database.{CorporationRow, Db, upsert_corporations}
use chremoas_ng.Roles.Changes.{add, destroy}
use chremoas_ng.Storage.Corporations.{nullable, upsert_corporation}
use chremoas_ng.Storage.Roles.{get_role_count}
use chremoas_ng.World.{World, Env, Error, message, done, tick, pure, ok, err}
use chremoas_ng.World.Runs.{IsCalm, query-rows, query-select, check-ok, bind-done, then-done}
use chremoas_ng.EsiPoller.Alliances.{
  ask_alliance, follow_alliance, update_alliance, not_found, bring_role,
}
use chremoas_ng.EsiPoller.Corporations.{
  int32, ask_corporation, update_its_alliance, switch_alliance, follow_corporation,
  take_corporation, update_corporation,
}

module _ (env : Env) (calm : IsCalm env) (lib : StringSets) (corporation : Corporation) where
  -- The corporation without its name, ticker and alliance.
  abbrev pub cleared : Db → Db
  cleared db =
      let row : CorporationRow = record {
        id = corporation.id;
        name = [];
        ticker = [];
        alliance_id = none;
      } in
      record db {
        auth = record db.auth {
          corporations = row ∷ drop_all (λ c. c.id == corporation.id) db.auth.corporations;
        };
      }

  upsert_cleared-run :
      (w : World)
      → any
          (λ c. not (c.id == corporation.id) && (([] == c.name) || ([] == c.ticker)))
          w.db.auth.corporations
        ≡ false
      → upsert_corporation env corporation.id 0 [] [] w
        ≡ done (ok tt) (record (tick w) { db = cleared w.db })
  unfolding upsert_corporation nullable upsert_corporations pure char_count
  upsert_cleared-run w free = check-ok _ _ _ w _ tt (
      query-rows env
        (upsert_corporations
          (record { id = corporation.id; name = []; ticker = []; alliance_id = none }))
        w tt (cleared w.db) calm (rw (upsert_corporations, free) refl))

  bring_nothing-run :
      (old : Str) (w : World)
      → count (λ r. r.role_nick == [] && r.sig == false) w.db.roles ≡ 0
      → bring_role env old [] [] w ≡ done (ok tt) (tick w)
  unfolding bring_role get_role_count add pure lit
  bring_nothing-run old w none_there =
      check-ok _ _ _ w (tick w) 0 (
        query-select env (λ db. count (λ r. r.role_nick == [] && r.sig == false) db.roles) w calm
        ∙ ap (λ n. done (ok n) (tick w)) none_there)
      ∙ bind-done _ _ (tick w) (tick w) _ refl

  follow_nothing-run :
      (w : World)
      → (corporation.name == []) ≡ false
      → int32 corporation.alliance_id ≡ 0
      → any
          (λ c. not (c.id == corporation.id) && (([] == c.name) || ([] == c.ticker)))
          w.db.auth.corporations
        ≡ false
      → count (λ r. r.role_nick == [] && r.sig == false) w.db.roles ≡ 0
      → follow_corporation env lib corporation
          (record { name = []; ticker = []; alliance_id = 0 })
          w
        ≡ done (ok tt) (record (tick (tick w)) { db = cleared w.db })
  unfolding follow_corporation update_its_alliance switch_alliance pure
  follow_nothing-run w named unallied free none_there =
      let w1 : World = record (tick w) { db = cleared w.db } in
      check-ok _ _ _ w w tt refl
      ∙ check-ok _ _ _ w w1 tt (rw named (upsert_cleared-run w free))
      ∙ then-done _ _ w1 w1 tt (rw unallied refl)
      ∙ bring_nothing-run corporation.ticker w1 none_there

-- Without faults of our own servers, when the game fails to answer for a corporation, other than by
-- saying that it does not exist, its name and ticker are overwritten with nothing, its row has no
-- alliance, and the update is reported as a success; for a corporation that has a name and no
-- alliance, where no other corporation lacks a name or ticker and no role lacks a ticker.
pub failed_answer_clears_corporation :
    (env : Env) (calm : IsCalm env) (lib : StringSets) (corporation : Corporation) (w : World)
    (e : Error)
    → env.esi_corporation w.clock corporation.id
      ≡ (record { name = []; ticker = []; alliance_id = 0 }, some e)
    → not_found e ≡ false
    → (corporation.name == []) ≡ false
    → int32 corporation.alliance_id ≡ 0
    → any
        (λ c. not (c.id == corporation.id) && (([] == c.name) || ([] == c.ticker)))
        w.db.auth.corporations
      ≡ false
    → count (λ r. r.role_nick == [] && r.sig == false) w.db.roles ≡ 0
    → update_corporation env lib corporation w
      ≡ done (ok tt) (record (tick (tick (tick w))) { db = cleared env calm lib corporation w.db })
unfolding update_corporation ask_corporation take_corporation
failed_answer_clears_corporation env calm lib corporation w e answer other named unallied free
      none_there =
    bind-done _ _ w (tick w) _ (ap (λ r. done r (tick w)) answer)
    ∙ rw other (follow_nothing-run env calm lib corporation (tick w) named unallied free none_there)

-- When the game says that an alliance and a corporation do not exist, with nothing else in its
-- responses, their updates report it and do nothing: their roles are not destroyed, no table
-- changes and nothing is queued.
pub unknown_keeps_role :
    (env : Env) (lib : StringSets) (alliance : Alliance) (corporation : Corporation) (w : World)
    (alliance_error corporation_error : Error)
    → env.esi_alliance w.clock alliance.id
      ≡ (record { name = []; ticker = [] }, some alliance_error)
    → env.esi_corporation w.clock corporation.id
      ≡ (record { name = []; ticker = []; alliance_id = 0 }, some corporation_error)
    → not_found alliance_error ≡ true
    → not_found corporation_error ≡ true
    → (update_alliance env alliance w
        ≡ done (err (message (lit "alliance not found: " ++ decimal alliance.id))) (tick w))
      × (update_corporation env lib corporation w
          ≡ done (err (message (lit "corporation not found: " ++ decimal corporation.id))) (tick w))
unfolding update_alliance ask_alliance follow_alliance update_corporation ask_corporation
    take_corporation destroy pure
unknown_keeps_role env lib alliance corporation w e f answer other gone lost = (
  bind-done _ _ w (tick w) _ (ap (λ r. done r (tick w)) answer)
      ∙ rw gone (bind-done _ _ (tick w) (tick w) _ refl),
  bind-done _ _ w (tick w) _ (ap (λ r. done r (tick w)) other)
      ∙ rw lost (bind-done _ _ (tick w) (tick w) _ refl),
)
