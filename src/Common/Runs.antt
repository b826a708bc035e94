-- ===== src/Common/Runs.antt =====
-- How internal/common runs when no server fails: a user's membership, and a publication.
use chremoas_ng.Base.{ℕ, ◌≡◌, refl, ◌∙◌, Bool, true, false, some, [], ◌∷◌, ◌++◌, map}
use chremoas_ng.Base.Text.{Str, atoi}
use chremoas_ng.Payloads.{MemberPayload}
use chremoas_ng.Database
use chremoas_ng.Database.{Db}
use chremoas_ng.Common.StringSets.{StringSets}
use chremoas_ng.Common.Session.{publish_member}
use chremoas_ng.Common.Membership.{user_id_or, get_user_roles, role_to_set, get_membership}
use chremoas_ng.Storage.Roles.{member_role}
use chremoas_ng.Storage.Runs.{get_member_roles-run}
use chremoas_ng.World.{World, Env, M, done, tick, pure, ok}
use chremoas_ng.World.Runs.{IsCalm, check-ok}

-- An id that the commands take as it is.
pub user_id_or-number :
    {A : Type 0} (refused : M A) (user : Str) (next : Str → M A) (n : Bool × ℕ)
    → atoi user ≡ some n
    → user_id_or refused user next ≡ next user
unfolding user_id_or
user_id_or-number refused user next n e = rw (user_id_or, e) refl

-- The set of the chat ids of a user's sigs and roles.
unfoldable pub membership_of : (lib : StringSets) → ℕ → Db → lib.StringSet
membership_of lib u db =
    lib.merge (role_to_set lib (map member_role (Database.get_member_roles u true db)))
      (role_to_set lib (map member_role (Database.get_member_roles u false db)))

module _ (env : Env) (calm : IsCalm env) where
  get_user_roles-run :
      (sig : Bool) (user_id : Str) (n : Bool × ℕ) (u : ℕ) (w : World)
      → atoi user_id ≡ some n
      → env.bigint user_id ≡ some u
      → get_user_roles env sig user_id w
        ≡ done (ok (map member_role (Database.get_member_roles u sig w.db))) (tick w)
  unfolding get_user_roles
  get_user_roles-run sig user_id n u w number e =
      rw (user_id_or-number _ user_id _ n number) (get_member_roles-run env calm user_id sig u w e)

  pub get_membership-run :
      (lib : StringSets) (user_id : Str) (n : Bool × ℕ) (u : ℕ) (w : World)
      → atoi user_id ≡ some n
      → env.bigint user_id ≡ some u
      → get_membership lib env user_id w ≡ done (ok (membership_of lib u w.db)) (tick (tick w))
  unfolding get_membership pure membership_of
  get_membership-run lib user_id n u w number e =
      check-ok _ _ _ w (tick w) _ (get_user_roles-run true user_id n u w number e)
      ∙ check-ok _ _ _ (tick w) (tick (tick w)) _
          (get_user_roles-run false user_id n u (tick w) number e)

  pub publish_member-run :
      (p : MemberPayload) (w : World)
      → publish_member env p w
        ≡ done (ok tt) (record (tick w) { members_queue = w.members_queue ++ (p ∷ []) })
  unfolding publish_member
  publish_member-run p w = rw (publish_member, calm.publish w.clock) refl
