-- ===== src/Common/Membership.antt =====
-- internal/common/roles.go: the roles of a user.
use chremoas_ng.Base.{Bool, true, false, none, some, List, [], ◌∷◌, if◌then◌else◌}
use chremoas_ng.Base.Text.{Str, lit, atoi, decimal}
use chremoas_ng.Payloads.{Role}
use chremoas_ng.Common.Mention.{is_discord_user, extract_user_id}
use chremoas_ng.Common.StringSets.{StringSets}
use chremoas_ng.Storage.Roles.{get_member_roles}
use chremoas_ng.World.{Env, M, pure, ◌>>=◌, check, Result, ok, err, message}

-- `_, err := strconv.Atoi(user); if err != nil { … }`: the user's id, or the error's reply.
unfoldable pub user_id_or : {A : Type 0} → M A → Str → (Str → M A) → M A
user_id_or refused user next = elim (atoi user) [
  | some n ↦ next user
  | none ↦ if is_discord_user user then extract_user_id user >>= next else refused
]

module _ (env : Env) where
  unfoldable pub get_user_roles : Bool → Str → M (Result (List Role))
  unfolding user_id_or
  get_user_roles sig user_id =
      user_id_or (pure (err (message (lit "second argument must be a discord user")))) user_id
        (λ id. get_member_roles env id sig)

module _ (lib : StringSets) where
  open lib use {StringSet, new, add, merge}

  -- The loop of RoleToSet adds to a set from the first role on.
  unfoldable pub role_to_set_loop : List Role → StringSet → StringSet
  role_to_set_loop [] s = s
  role_to_set_loop (r ∷ rs) s = role_to_set_loop rs (add (decimal r.chat_id) s)

  unfoldable pub role_to_set : List Role → StringSet
  unfolding role_to_set_loop
  role_to_set rs = role_to_set_loop rs new

  unfoldable pub get_membership : Env → Str → M (Result StringSet)
  unfolding role_to_set get_user_roles
  get_membership env user_id =
      check (get_user_roles env true user_id) (λ e. pure (err e))
        λ sigs.
          check (get_user_roles env false user_id) (λ e. pure (err e))
            λ roles. pure (ok (merge (role_to_set sigs) (role_to_set roles)))
