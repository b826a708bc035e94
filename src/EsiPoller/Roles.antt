-- ===== src/EsiPoller/Roles.antt =====
-- internal/esi-poller/roles.go: the roles of Discord follow the synchronised roles of the tables. A map
-- is a list of its entries; Go goes through it in some order, here in the list's.
use chremoas_ng.Base.{
  ℕ, suc, Bool, true, not, ◌||◌, Option, none, some, List, [], ◌∷◌, ◌++◌, map, ◌==◌, nat_eq,
  bool_eq, bytes_eq, if◌then◌else◌, any, find, keep, drop_all,
}
use chremoas_ng.Base.Text.{Str}
use chremoas_ng.Payloads.{Action, Role, RolePayload, zero_role}
use chremoas_ng.Common.Session.{guild_roles, publish_role, ignore_role}
use chremoas_ng.Storage.Roles.{update_role}
use chremoas_ng.Storage.RoleValues.{get_roles_by_sync}
use chremoas_ng.World.{Env, DiscordRole, M, pure, ◌>>=◌, check, Result, ok, err}

abbrev pub RoleMap : Type 0
RoleMap = List (Str × Role)

abbrev pub has_name : Str → RoleMap → Bool
has_name name m = any (λ e. e.0 == name) m

abbrev pub value_of : Option (Str × Role) → Role
value_of none = zero_role
value_of (some e) = e.1

-- `m[name]`, the zero role for a missing name
abbrev pub role_at : Str → RoleMap → Role
role_at name m = value_of (find (λ e. e.0 == name) m)

-- `m[name] = r`
unfoldable pub put : Str → Role → RoleMap → RoleMap
put name r [] = (name, r) ∷ []
put name r ((n, q) ∷ m) =
    let rest = put name r m in if n == name then (name, r) ∷ m else (n, q) ∷ rest

unfoldable pub copy_role : DiscordRole → Role
copy_role d = record zero_role {
  id = d.id;
  name = d.name;
  managed = d.managed;
  mentionable = d.mentionable;
  hoist = d.hoist;
  color = d.color;
  position = d.position;
  permissions = d.permissions;
}

-- The roles of the first map whose names are not in the second.
unfoldable pub difference : RoleMap → RoleMap → List Role
difference map1 map2 = map (λ e. e.1) (drop_all (λ e. has_name e.0 map2) map1)

unfoldable pub roles_differ : Role → Role → Bool
roles_differ r d =
    not (r.mentionable == d.mentionable)
    || not (r.hoist == d.hoist)
    || not (r.color == d.color)
    || not (r.permissions == d.permissions)

-- The names of the first map that are in the second.
unfoldable pub common_names : RoleMap → RoleMap → List Str
common_names map1 map2 = map (λ e. e.0) (keep (λ e. has_name e.0 map2) map1)

module _ (env : Env) where
  unfoldable pub queue_update : Role → Action → M (Result Unit)
  queue_update role action =
      let payload : RolePayload = record {
        action = action;
        guild_id = env.guild_id;
        role = role;
        correlation_id = [];
      } in
      check (publish_role env payload) (λ e. pure (err e)) (λ _. pure (ok tt))

  -- The roles of Discord by their names, without the ignored ones.
  unfoldable pub discord_map : List DiscordRole → RoleMap → RoleMap
  unfolding copy_role
  discord_map [] m = m
  discord_map (d ∷ ds) m =
      discord_map ds (if ignore_role env d.name then m else put d.name (copy_role d) m)

  -- The id of a role that Discord has is stored, if it is not the one we have.
  unfoldable pub take_id : RoleMap → Role → M (Result Role)
  take_id discord r =
      if not (has_name r.name discord) || (role_at r.name discord).id == r.id
      then pure (ok r)
      else check (update_role env (role_at r.name discord).id r.name []) (λ e. pure (err e))
          (λ _. pure (ok (record r { id = (role_at r.name discord).id })))

  unfoldable pub chremoas_map : RoleMap → List Role → RoleMap → M (Result RoleMap)
  unfolding take_id
  chremoas_map discord [] m = pure (ok m)
  chremoas_map discord (r ∷ rs) m =
      check (take_id discord r) (λ e. pure (err e)) (λ s. chremoas_map discord rs (put s.name s m))

  -- How many messages were queued, and how many could not be.
  unfoldable pub queue_all : Action → List Role → ℕ × ℕ → M (ℕ × ℕ)
  queue_all action [] counts = pure counts
  queue_all action (r ∷ rs) counts =
      check (queue_update r action) (λ e. queue_all action rs (counts.0, suc counts.1))
        (λ _. queue_all action rs (suc counts.0, counts.1))

  -- The loop of interDiff. A role whose id cannot be stored is skipped.
  unfoldable pub changed_roles : RoleMap → RoleMap → List Str → List Role → M (List Role)
  changed_roles chremoas discord [] output = pure output
  changed_roles chremoas discord (name ∷ names) output =
      let r = role_at name chremoas in
      let d = role_at name discord in
      check (if r.id == d.id then pure (ok tt) else update_role env d.id name [])
        (λ e. changed_roles chremoas discord names output)
        (λ _.
          changed_roles chremoas discord names
            (if roles_differ r d then output ++ (r ∷ []) else output))

  unfoldable pub inter_diff : RoleMap → RoleMap → M (List Role)
  unfolding changed_roles
  inter_diff chremoas discord = changed_roles chremoas discord (common_names chremoas discord) []

  -- What follows once both maps are known.
  unfoldable pub queue_changes : RoleMap → RoleMap → M (Result (ℕ × ℕ))
  unfolding queue_all inter_diff
  queue_changes chremoas discord =
      queue_all Action.delete (difference discord chremoas) (0, 0) >>= λ deleted.
      queue_all Action.upsert (difference chremoas discord) deleted >>= λ added.
      inter_diff chremoas discord >>= λ changed.
      queue_all Action.upsert changed added >>= λ counts. pure (ok counts)

  unfoldable pub sync_roles : M (Result (ℕ × ℕ))
  unfolding discord_map chremoas_map queue_changes
  sync_roles =
      check (guild_roles env) (λ e. pure (err e))
        λ roles.
          check (get_roles_by_sync env true) (λ e. pure (err e))
            λ db_roles.
              check (chremoas_map (discord_map roles []) db_roles []) (λ e. pure (err e))
                (λ chremoas. queue_changes chremoas (discord_map roles []))
