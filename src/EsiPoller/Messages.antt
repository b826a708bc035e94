-- ===== src/EsiPoller/Messages.antt =====
-- Which messages syncRoles queues, once both maps of roles are known.
use mathlib.Core.List.{append-nil, append_assoc}
use chremoas_ng.Base.{
  ℕ, suc, ◌+◌, arith, ◌≡◌, refl, sym, ap, ◌∙◌, Bool, true, not, ◌&&◌, any, bool_eq, List, [], ◌∷◌,
  ◌++◌, map, ◌==◌, nat_eq, bytes_eq, keep, length, All, Bool-cases, inl, inr,
}
use chremoas_ng.Base.Text.{Str}
use chremoas_ng.Payloads.{Action, Role, RolePayload}
use chremoas_ng.Common.Session.{publish_role}
use chremoas_ng.World.{World, Env, done, pure, tick, ok}
use chremoas_ng.World.Runs.{IsCalm, check-ok, bind-done}
use chremoas_ng.EsiPoller.Roles.{
  RoleMap, role_at, difference, roles_differ, common_names, queue_update, queue_all, changed_roles,
  inter_diff, queue_changes,
}

-- The name of an entry is in a map.
abbrev pub named_in : RoleMap → Str × Role → Bool
named_in m e = any (λ f. f.0 == e.0) m

-- The roles whose names only the first map has.
abbrev pub only_in : RoleMap → RoleMap → List Role
only_in map1 map2 = map (λ e. e.1) (keep (λ e. not (named_in map2 e)) map1)

-- The names that both maps have.
abbrev pub shared_names : RoleMap → RoleMap → List Str
shared_names map1 map2 = map (λ e. e.0) (keep (named_in map2) map1)

-- The two roles look alike in Discord.
abbrev pub alike : Role → Role → Bool
alike r d =
    r.mentionable == d.mentionable
    && r.hoist == d.hoist
    && r.color == d.color
    && r.permissions == d.permissions

-- The roles of these names that do not look like the second map's.
abbrev pub changed : RoleMap → RoleMap → List Str → List Role
changed chremoas discord names =
    map (λ n. role_at n chremoas)
      (keep (λ n. not (alike (role_at n chremoas) (role_at n discord))) names)

roles_differ-alike : (r d : Role) → roles_differ r d ≡ not (alike r d)
unfolding roles_differ
roles_differ-alike r d = ground arith

-- Each of these names has the same id in both maps.
abbrev pub IdsAgree : RoleMap → RoleMap → List Str → Type 0
IdsAgree chremoas discord names =
    All (λ n. ((role_at n chremoas).id == (role_at n discord).id) ≡ true) names

module _ (env : Env) where
  -- The messages for some roles.
  abbrev pub messages : Action → List Role → List RolePayload
  messages action rs =
      map (λ r. record { action = action; guild_id = env.guild_id; role = r; correlation_id = [] })
        rs

  changed_roles-run :
      (chremoas discord : RoleMap) (names : List Str) (output : List Role) (w : World)
      → IdsAgree chremoas discord names
      → changed_roles env chremoas discord names output w
        ≡ done (output ++ changed chremoas discord names) w
  unfolding changed_roles pure
  changed_roles-run chremoas discord [] output w agree = rw (append-nil output) refl
  changed_roles-run chremoas discord (n ∷ names) output w agree =
      let same_test = roles_differ-alike (role_at n chremoas) (role_at n discord) in
      elim (Bool-cases (alike (role_at n chremoas) (role_at n discord))) [
        | inr differ ↦
            check-ok _ _ _ w w tt (rw agree.0 refl)
            ∙ rw (same_test, differ)
                (changed_roles-run chremoas discord names (output ++ (role_at n chremoas ∷ [])) w
                    agree.1
                  ∙ ap (λ rs. done rs w)
                      (append_assoc output (role_at n chremoas ∷ [])
                        (changed chremoas discord names)))
        | inl same ↦
            check-ok _ _ _ w w tt (rw agree.0 refl)
            ∙ rw (same_test, same) (changed_roles-run chremoas discord names output w agree.1)
      ]

  module _ (calm : IsCalm env) where
    queue_all-run :
        (action : Action) (rs : List Role) (a b : ℕ) (w : World)
        → queue_all env action rs (a, b) w
          ≡ done
              (a + length rs, b)
              (record w {
                clock = w.clock + length rs;
                roles_queue = w.roles_queue ++ messages action rs;
              })
    unfolding queue_all queue_update publish_role pure
    queue_all-run action [] a b w =
        let count : a ≡ a + 0 = omega arith in
        let clock : w.clock ≡ w.clock + 0 = omega arith in
        let queue : w.roles_queue ≡ w.roles_queue ++ [] = sym (append-nil w.roles_queue) in
        λ i. done (count i, b) (record w { clock = clock i; roles_queue = queue i })
    queue_all-run action (r ∷ rs) a b w =
        let message : RolePayload = record {
          action = action;
          guild_id = env.guild_id;
          role = r;
          correlation_id = [];
        } in
        let w1 : World = record (tick w) { roles_queue = w.roles_queue ++ (message ∷ []) } in
        let count : suc a + length rs ≡ a + suc (length rs) = omega arith in
        let clock : suc w.clock + length rs ≡ w.clock + suc (length rs) = omega arith in
        let queue : (w.roles_queue ++ (message ∷ [])) ++ messages action rs
            ≡ w.roles_queue ++ (message ∷ messages action rs) =
          append_assoc w.roles_queue (message ∷ []) (messages action rs) in
        check-ok _ _ _ w w1 tt
          (check-ok _ _ _ w w1 tt (rw (publish_role, calm.publish w.clock) refl))
        ∙ queue_all-run action rs (suc a) b w1
        ∙ (λ i. done (count i, b) (record w { clock = clock i; roles_queue = queue i }))

    -- Without faults, where each role that both maps name has one id in both, the synchronisation
    -- deletes the roles whose names only Discord has, then makes those whose names only the tables
    -- have, then changes those that both have and that differ in whether they can be mentioned, are
    -- hoisted, their colour or their permissions: it queues exactly these messages, in this order,
    -- counts them, and changes nothing else.
    pub queue_changes_follows_maps :
        (chremoas discord : RoleMap) (w : World)
        → IdsAgree chremoas discord (shared_names chremoas discord)
        → queue_changes env chremoas discord w
          ≡ done
              (ok (
                length (only_in discord chremoas)
                    + length (only_in chremoas discord)
                    + length (changed chremoas discord (shared_names chremoas discord)),
                0,
              ))
              (record w {
                clock =
                    w.clock
                    + length (only_in discord chremoas)
                    + length (only_in chremoas discord)
                    + length (changed chremoas discord (shared_names chremoas discord));
                roles_queue =
                    ((w.roles_queue ++ messages Action.delete (only_in discord chremoas))
                      ++ messages Action.upsert (only_in chremoas discord))
                    ++ messages Action.upsert
                        (changed chremoas discord (shared_names chremoas discord));
              })
    unfolding queue_changes inter_diff pure difference common_names
    queue_changes_follows_maps chremoas discord w agree =
        let gone = only_in discord chremoas in
        let new = only_in chremoas discord in
        let other = changed chremoas discord (shared_names chremoas discord) in
        let w1 : World = record w {
          clock = w.clock + length gone;
          roles_queue = w.roles_queue ++ messages Action.delete gone;
        } in
        let w2 : World = record w1 {
          clock = w1.clock + length new;
          roles_queue = w1.roles_queue ++ messages Action.upsert new;
        } in
        let start : 0 + length gone ≡ length gone = omega arith in
        bind-done _ _ w w1 (length gone, 0)
          (queue_all-run Action.delete gone 0 0 w ∙ (λ i. done (start i, 0) w1))
        ∙ bind-done _ _ w1 w2 _ (queue_all-run Action.upsert new (length gone) 0 w1)
        ∙ bind-done _ _ w2 w2 other
            (changed_roles-run chremoas discord (shared_names chremoas discord) [] w2 agree)
        ∙ bind-done _ _ w2 _ _ (queue_all-run Action.upsert other (length gone + length new) 0 w2)
