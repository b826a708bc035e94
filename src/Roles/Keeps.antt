-- ===== src/Roles/Keeps.antt =====
-- The lists of internal/roles keep whatever holds of the tables, and so do the commands that change
-- roles, for an author whom CanPerform refuses.
use chremoas_ng.Base.{ℕ, Bool, Option, List, [], ◌∷◌, bytes_eq}
use chremoas_ng.Base.Text.{Str, decimal}
use chremoas_ng.Payloads.{Role}
use chremoas_ng.Database.{Db}
use chremoas_ng.World.{Env, M, MessageSend}
use chremoas_ng.World.Keeps.{Keeps, Keeps-pure, Keeps-bind, Keeps-check, keeps_rules}
use chremoas_ng.Common.Keeps.{get_username-Keeps, send_chunked_message-Keeps, get_user_roles-Keeps}
use chremoas_ng.Storage.Keeps.{
  get_role_filters-Keeps, get_role_members-Keeps, get_ticker_filters-Keeps, get_role_by_type-Keeps,
  get_roles_by_type-Keeps,
}
use chremoas_ng.Perms.Refusal.{IsRefused, Keeps-refused}
use chremoas_ng.Roles.Helpers.{admin_type, get_members, as_admin}
use chremoas_ng.Roles.Listing.{
  send_list, list, usernames, show_members, list_members, show_roles, list_user_roles, info,
  list_filters,
}
use chremoas_ng.Roles.Changes.{authed_add, authed_destroy}
use chremoas_ng.Roles.Update.{authed_update}
use chremoas_ng.Roles.Filters.{authed_add_filter, authed_remove_filter}

ruleset roles_rules = (
  keeps_rules, get_username-Keeps, send_chunked_message-Keeps, get_user_roles-Keeps,
  get_role_filters-Keeps, get_role_members-Keeps, get_ticker_filters-Keeps, get_role_by_type-Keeps,
  get_roles_by_type-Keeps,
)

module _ {I : Db → Type 0} (env : Env) where
  pub get_members-Keeps : (sig : Bool) (name : Str) → Keeps I (get_members env sig name)
  unfolding get_members
  get_members-Keeps sig name = search roles_rules depth 7

  send_list-Keeps :
      (sig : Bool) (channel : Str) (ls : List Str) → Keeps I (send_list env sig channel ls)
  unfolding send_list
  send_list-Keeps sig channel [] = search roles_rules
  send_list-Keeps sig channel (l ∷ ls) = search roles_rules

  pub list-Keeps : (sig all : Bool) (channel : Str) → Keeps I (list env sig all channel)
  unfolding list
  list-Keeps sig all channel = search (roles_rules, send_list-Keeps) depth 7

  usernames-Keeps : (us : List ℕ) → Keeps I (usernames env us)
  unfolding usernames
  usernames-Keeps [] = Keeps-pure []
  usernames-Keeps (u ∷ us) =
      Keeps-bind _ _ (get_username-Keeps env (decimal u))
        (λ name. Keeps-bind _ _ (usernames-Keeps us) (λ rest. Keeps-pure _))

  show_members-Keeps : (name : Str) (us : List ℕ) → Keeps I (show_members env name us)
  unfolding show_members
  show_members-Keeps name [] = Keeps-pure _
  show_members-Keeps name (u ∷ us) =
      Keeps-bind _ _ (usernames-Keeps (u ∷ us)) (λ names. Keeps-pure _)

  pub list_members-Keeps : (sig : Bool) (name : Str) → Keeps I (list_members env sig name)
  unfolding list_members
  list_members-Keeps sig name =
      Keeps-check _ _ _ (get_members-Keeps sig name) (λ e. Keeps-pure _) (show_members-Keeps name)

  show_roles-Keeps :
      (sig : Bool) (user : Str) (rs : List Role) → Keeps I (show_roles env sig user rs)
  unfolding show_roles
  show_roles-Keeps sig user [] = Keeps-pure _
  show_roles-Keeps sig user (r ∷ rs) =
      Keeps-bind _ _ (get_username-Keeps env user) (λ name. Keeps-pure _)

  pub list_user_roles-Keeps : (sig : Bool) (user : Str) → Keeps I (list_user_roles env sig user)
  unfolding list_user_roles
  list_user_roles-Keeps sig user =
      Keeps-check _ _ _ (get_user_roles-Keeps env sig user) (λ e. Keeps-pure _)
        (show_roles-Keeps sig user)

  pub info-Keeps : (sig : Bool) (ticker : Str) → Keeps I (info env sig ticker)
  unfolding info
  info-Keeps sig ticker = search roles_rules depth 7

  pub list_filters-Keeps : (sig : Bool) (ticker : Str) → Keeps I (list_filters env sig ticker)
  unfolding list_filters
  list_filters-Keeps sig ticker = search roles_rules depth 7

module _ {I : Db → Type 0} (env : Env) (sig : Bool) (author : Str)
    (r : IsRefused author (admin_type sig) I) where
  as_admin-Keeps :
      (sender : Option Str) (next : M (List MessageSend))
      → Keeps I (as_admin env sig sender author next)
  unfolding as_admin
  as_admin-Keeps sender next = Keeps-refused env author (admin_type sig) _ _ r (λ e. Keeps-pure _)

  pub authed_add-Keeps :
      (joinable : Bool) (ticker name chat_type : Str)
      → Keeps I (authed_add env sig joinable ticker name chat_type author)
  unfolding authed_add
  authed_add-Keeps joinable ticker name chat_type = as_admin-Keeps _ _

  pub authed_destroy-Keeps : (ticker : Str) → Keeps I (authed_destroy env sig ticker author)
  unfolding authed_destroy
  authed_destroy-Keeps ticker = as_admin-Keeps _ _

  pub authed_update-Keeps :
      (ticker key value : Str) → Keeps I (authed_update env sig ticker key value author)
  unfolding authed_update
  authed_update-Keeps ticker key value = as_admin-Keeps _ _

  pub authed_add_filter-Keeps :
      (filter ticker : Str) → Keeps I (authed_add_filter env sig filter ticker author)
  unfolding authed_add_filter
  authed_add_filter-Keeps filter ticker = as_admin-Keeps _ _

  pub authed_remove_filter-Keeps :
      (filter ticker : Str) → Keeps I (authed_remove_filter env sig filter ticker author)
  unfolding authed_remove_filter
  authed_remove_filter-Keeps filter ticker = as_admin-Keeps _ _
