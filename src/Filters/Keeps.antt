-- ===== src/Filters/Keeps.antt =====
-- The lists of internal/filters keep whatever holds of the tables, AddMember what its insertion keeps,
-- and the commands that change filters everything, for an author whom CanPerform refuses.
use chremoas_ng.Base.{ℕ, none, List, [], ◌∷◌}
use chremoas_ng.Base.Text.{Str, lit, decimal}
use chremoas_ng.Payloads.{Action}
use chremoas_ng.Database.{Db, insert_into_filter_membership}
use chremoas_ng.Common.StringSets.{StringSets}
use chremoas_ng.World.{Env, M, MessageSend}
use chremoas_ng.World.Keeps.{Keeps, Respects, Keeps-pure, Keeps-bind, Keeps-then, keeps_rules}
use chremoas_ng.Common.Keeps.{
  user_id_or-Keeps, get_username-Keeps, publish_member-Keeps, send_chunked_message-Keeps,
  get_membership-Keeps,
}
use chremoas_ng.Storage.Keeps.{
  get_filter-Keeps, get_filters-Keeps, list_filter_members-Keeps, add_filter_membership-Keeps,
}
use chremoas_ng.Perms.Refusal.{IsRefused, Keeps-refused}
use chremoas_ng.Filters.Queue.{queue_update, queue_updates}
use chremoas_ng.Filters.Members.{
  as_role_admin, finish_add, add_member_by_id, add_member, authed_add_member, authed_remove_member,
}
use chremoas_ng.Filters.Commands.{
  send_list, list, authed_add, authed_delete, usernames, list_members,
}

ruleset filters_rules = (
  keeps_rules, get_username-Keeps, publish_member-Keeps, send_chunked_message-Keeps,
  get_membership-Keeps, get_filter-Keeps, get_filters-Keeps, list_filter_members-Keeps,
)

module _ {I : Db → Type 0} (env : Env) where
  queue_update-Keeps :
      (action : Action) (member_id role_id : Str)
      → Keeps I (queue_update env action member_id role_id)
  unfolding queue_update
  queue_update-Keeps action member_id role_id = search filters_rules

  pub queue_updates-Keeps :
      (action : Action) (member_id : Str) (roles : List Str)
      → Keeps I (queue_updates env action member_id roles)
  unfolding queue_updates
  queue_updates-Keeps action member_id [] = Keeps-pure tt
  queue_updates-Keeps action member_id (r ∷ rs) =
      Keeps-then _ _ (queue_update-Keeps action member_id r)
        (queue_updates-Keeps action member_id rs)

  send_list-Keeps : (channel empty : Str) (ls : List Str) → Keeps I (send_list env channel empty ls)
  unfolding send_list
  send_list-Keeps channel empty [] = search filters_rules
  send_list-Keeps channel empty (l ∷ ls) = search filters_rules

  pub list-Keeps : (channel_id : Str) → Keeps I (list env channel_id)
  unfolding list
  list-Keeps channel_id = search (filters_rules, send_list-Keeps) depth 7

  usernames-Keeps : (us : List ℕ) → Keeps I (usernames env us)
  unfolding usernames
  usernames-Keeps [] = Keeps-pure []
  usernames-Keeps (u ∷ us) =
      Keeps-bind _ _ (get_username-Keeps env (decimal u))
        (λ name. Keeps-bind _ _ (usernames-Keeps us) (λ rest. Keeps-pure _))

  pub list_members-Keeps : (filter channel : Str) → Keeps I (list_members env filter channel)
  unfolding list_members
  list_members-Keeps filter channel =
      search (filters_rules, usernames-Keeps, send_list-Keeps) depth 9

module _ {I : Db → Type 0} (env : Env) (lib : StringSets)
    (insert : (f u : ℕ) → Respects I (insert_into_filter_membership f u)) where
  finish_add-Keeps :
      (filter user_id : Str) (s : lib.StringSet) → Keeps I (finish_add env lib filter user_id s)
  unfolding finish_add
  finish_add-Keeps filter user_id s = search (filters_rules, queue_updates-Keeps) depth 8

  add_member_by_id-Keeps :
      (filter user_id : Str) → Keeps I (add_member_by_id env lib filter user_id)
  unfolding add_member_by_id
  add_member_by_id-Keeps filter user_id =
      search (filters_rules, finish_add-Keeps, add_filter_membership-Keeps, insert) depth 20

  pub add_member-Keeps : (user_id filter : Str) → Keeps I (add_member env lib user_id filter)
  unfolding add_member
  add_member-Keeps user_id filter =
      user_id_or-Keeps _ user_id _ (Keeps-pure _) (add_member_by_id-Keeps filter)

module _ {I : Db → Type 0} (env : Env) (author : Str)
    (r : IsRefused author (lit "role_admins") I) where
  as_role_admin-Keeps :
      {A : Type 0} (refused : List MessageSend → A) (next : M A)
      → Keeps I (as_role_admin env author refused next)
  unfolding as_role_admin
  as_role_admin-Keeps refused next =
      Keeps-refused env author (lit "role_admins") _ _ r (λ e. Keeps-pure _)

  pub authed_add-Keeps : (name description : Str) → Keeps I (authed_add env name description author)
  unfolding authed_add
  authed_add-Keeps name description = as_role_admin-Keeps (λ reply. (reply, none)) _

  pub authed_delete-Keeps : (name : Str) → Keeps I (authed_delete env name author)
  unfolding authed_delete
  authed_delete-Keeps name = as_role_admin-Keeps (λ reply. reply) _

  pub authed_add_member-Keeps :
      (lib : StringSets) (user_id filter : Str)
      → Keeps I (authed_add_member env lib user_id filter author)
  unfolding authed_add_member
  authed_add_member-Keeps lib user_id filter = as_role_admin-Keeps (λ reply. reply) _

  pub authed_remove_member-Keeps :
      (lib : StringSets) (user_id filter : Str)
      → Keeps I (authed_remove_member env lib user_id filter author)
  unfolding authed_remove_member
  authed_remove_member-Keeps lib user_id filter = as_role_admin-Keeps (λ reply. reply) _
