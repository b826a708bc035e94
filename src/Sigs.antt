-- ===== src/Sigs.antt =====
-- internal/sigs/sigs.go: users who join a sig, or are put in.
pub mod Keeps
pub mod Named
use chremoas_ng.Base.{Bool, true, false, none, some, List, [], ◌∷◌, ◌++◌, if◌then◌else◌}
use chremoas_ng.Base.Text.{Str, lit}
use chremoas_ng.Payloads.{Role}
use chremoas_ng.Common.Messages.{send_error}
use chremoas_ng.Common.Membership.{user_id_or}
use chremoas_ng.Common.StringSets.{StringSets}
use chremoas_ng.Filters.Members.{add_member, remove_member}
use chremoas_ng.Perms.{can_perform}
use chremoas_ng.Storage.Roles.{get_roles_by_type}
use chremoas_ng.World.{Env, M, pure, check, MessageSend, Result, ok, err, message}

pub record Sig : Type 0 where
  pub role : Role
  pub sig : Str
  pub user_id : Str
  pub author : Str

-- The first of all sigs is taken, whatever sig was named.
unfoldable pub first_sig : Str → Str → Str → List Role → Result Sig
first_sig member sig author [] = err (message (lit "no such sig: `" ++ (sig ++ lit "`")))
first_sig member sig author (r ∷ rs) =
    if r.sig
    then ok (record { role = r; sig = sig; user_id = member; author = author })
    else err (message (lit "not a sig: `" ++ (sig ++ lit "`")))

not_joinable : Sig → List MessageSend
not_joinable s =
    send_error (some s.author)
      (lit "'" ++ (s.sig ++ lit "' is not a joinable SIG, talk to an admin"))

module _ (env : Env) where
  unfoldable pub new : Str → Str → Str → M (Result Sig)
  new member sig author =
      user_id_or (pure (err (message (lit "second argument must be a discord user")))) member λ id.
        check (get_roles_by_type env true) (λ e. pure (err e))
          (λ roles. pure (first_sig id sig author roles))

  unfoldable pub as_sig_admin : Str → M (List MessageSend) → M (List MessageSend)
  as_sig_admin author next =
      check (can_perform env author (lit "sig_admins"))
        (λ e. pure (send_error (some author) (lit "User not authorized"))) (λ _. next)

module _ (env : Env) (lib : StringSets) where
  unfoldable pub add : Sig → M (List MessageSend)
  add s = as_sig_admin env s.author (add_member env lib s.user_id s.sig)

  unfoldable pub remove : Sig → M (List MessageSend)
  remove s = as_sig_admin env s.author (remove_member env lib s.user_id s.sig)

  unfoldable pub join : Sig → M (List MessageSend)
  unfolding not_joinable
  join s = if s.role.joinable then add_member env lib s.user_id s.sig else pure (not_joinable s)

  unfoldable pub leave : Sig → M (List MessageSend)
  unfolding not_joinable
  leave s = if s.role.joinable then remove_member env lib s.user_id s.sig else pure (not_joinable s)
