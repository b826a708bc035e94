-- ===== src/Roles/Listing.antt =====
-- internal/roles/roles.go: the commands that only show something.
use chremoas_ng.Base.{
  ℕ, zero, suc, ◌+◌, ◌-◌, ◌/◌, ◌%◌, Bool, true, false, ◌&&◌, ◌||◌, none, List, [], ◌∷◌, ◌++◌, map,
  keep, length, if◌then◌else◌, ltb, ◌==◌, nat_eq,
}
use chremoas_ng.Base.Text.{Str, lit, decimal}
use chremoas_ng.Base.Sort.{sort_strings}
use chremoas_ng.Payloads.{Role, Filter}
use chremoas_ng.Common.Messages.{send_error, send_fatal}
use chremoas_ng.Common.Session.{get_username}
use chremoas_ng.Common.Chunks.{send_chunked_message}
use chremoas_ng.Common.Membership.{get_user_roles}
use chremoas_ng.Storage.Roles.{role_type, get_roles_by_type, get_role_by_type}
use chremoas_ng.Storage.Filters.{get_ticker_filters}
use chremoas_ng.World.{Env, M, pure, ◌>>=◌, check, MessageSend, is_no_role}
use chremoas_ng.Roles.Helpers.{
  role_keys, role_types, client_type, write_lines, reply_embed, get_members,
}

-- Which roles the list leaves in: all, or the joinable sigs, or the synchronised roles.
unfoldable pub is_listed : Bool → Bool → Role → Bool
is_listed sig all role = all || (if sig then role.joinable else role.sync)

role_line : Role → Str
role_line r = r.short_name ++ (lit ": " ++ r.name)

membership_line : Role → Str
membership_line r = r.short_name ++ (lit " - " ++ r.name)

-- `%t`
bool_text : Bool → Str
bool_text true = lit "true"
bool_text false = lit "false"

hex_char : ℕ → ℕ
hex_char d = if ltb d 10 then b'0' + d else b'a' + d - 10

hex_from : ℕ → ℕ → ℕ → Str → Str
hex_from zero width n acc = acc
hex_from (suc fuel) width n acc =
    let more = hex_from fuel (width - 1) (n / 16) (hex_char (n % 16) ∷ acc) in
    if n == 0 && width == 0 then acc else more

-- `%06x`; an int has at most sixteen digits.
hex6 : ℕ → Str
hex6 n = hex_from 17 6 n []

info_lines : Bool → Role → List Str
info_lines sig role =
    (lit "ShortName: " ++ role.short_name)
    ∷ (lit "Name: " ++ role.name)
    ∷ (lit "Color: #" ++ hex6 role.color)
    ∷ (lit "Hoist: " ++ bool_text role.hoist)
    ∷ (lit "Position: " ++ decimal role.position)
    ∷ (lit "Permissions: " ++ decimal role.permissions)
    ∷ (lit "Manged: " ++ bool_text role.managed)
    ∷ (lit "Mentionable: " ++ bool_text role.mentionable)
    ∷ ((if sig then (lit "Joinable: " ++ bool_text role.joinable) ∷ [] else [])
        ++ ((lit "Sync: " ++ bool_text role.sync) ∷ []))

unfoldable pub keys : List MessageSend
keys = reply_embed (lit "Keys") (write_lines role_keys)

unfoldable pub types : List MessageSend
types = reply_embed (lit "Types") (write_lines role_types)

module _ (env : Env) where
  -- The sorted lines of the list, or that there are none.
  unfoldable pub send_list : Bool → Str → List Str → M (List MessageSend)
  send_list sig channel_id [] = pure (send_error none (lit "No " ++ (client_type sig ++ lit "s\n")))
  send_list sig channel_id (l ∷ ls) =
      check (send_chunked_message env channel_id (client_type sig ++ lit " List") (l ∷ ls))
        (λ e. pure (send_error none (lit "Error sending chunked message: " ++ env.error_text e)))
        (λ _. pure [])

  unfoldable pub list : Bool → Bool → Str → M (List MessageSend)
  unfolding is_listed role_line send_list sort_strings
  list sig all channel_id =
      check (get_roles_by_type env sig)
        (λ e. pure (
          if is_no_role e
          then send_error none (lit "No such role")
          else send_fatal none (lit "Error getting roles: " ++ env.error_text e)))
        (λ roles.
          send_list sig channel_id (sort_strings (map role_line (keep (is_listed sig all) roles))))

  unfoldable pub usernames : List ℕ → M (List Str)
  usernames [] = pure []
  usernames (u ∷ us) =
      get_username env (decimal u) >>= λ name. usernames us >>= λ names. pure (name ∷ names)

  -- The description is cut to the limit of an embed.
  unfoldable pub show_members : Str → List ℕ → M (List MessageSend)
  unfolding usernames
  show_members name [] = pure (send_error none (lit "No members in: " ++ name))
  show_members name (u ∷ us) = usernames (u ∷ us) >>= λ names. pure (
      reply_embed (decimal (length (u ∷ us)) ++ (lit " member(s) in " ++ name)) (write_lines names))

  unfoldable pub list_members : Bool → Str → M (List MessageSend)
  unfolding show_members
  list_members sig name =
      check (get_members env sig name)
        (λ e. pure (send_error none (lit "error getting member list: " ++ env.error_text e)))
        (show_members name)

  unfoldable pub show_roles : Bool → Str → List Role → M (List MessageSend)
  unfolding membership_line
  show_roles sig user_id [] = pure (
      send_error none
        (lit "User has no " ++ (role_type sig ++ (lit "s: <@" ++ (user_id ++ lit ">")))))
  show_roles sig user_id (r ∷ rs) = get_username env user_id >>= λ name.
      pure (reply_embed (lit "Roles for " ++ name) (write_lines (map membership_line (r ∷ rs))))

  unfoldable pub list_user_roles : Bool → Str → M (List MessageSend)
  unfolding show_roles
  list_user_roles sig user_id =
      check (get_user_roles env sig user_id)
        (λ e. pure (send_error none (lit "error getting user roles: " ++ env.error_text e)))
        (show_roles sig user_id)

  unfoldable pub info : Bool → Str → M (List MessageSend)
  unfolding bool_text hex_char hex_from hex6 info_lines
  info sig ticker =
      check (get_role_by_type env sig ticker)
        (λ e. pure (send_fatal none (lit "Error getting roles: " ++ env.error_text e)))
        (λ role. pure (
          reply_embed (lit "Info for " ++ (role_type sig ++ (lit " " ++ role.name)))
            (write_lines (info_lines sig role))))

  -- The reply to ListFilters: a role without filters is taken for no role.
  filters_reply : Bool → Str → List Filter → List MessageSend
  filters_reply sig ticker [] =
      send_error none (lit "No such " ++ (role_type sig ++ (lit ": " ++ ticker)))
  filters_reply sig ticker (f ∷ fs) =
      reply_embed (lit "Filters for " ++ ticker) (write_lines (map (λ g. g.name) (f ∷ fs)))

  unfoldable pub list_filters : Bool → Str → M (List MessageSend)
  unfolding filters_reply
  list_filters sig ticker =
      check (get_ticker_filters env sig ticker)
        (λ e. pure (send_error none (lit "Error getting filters")))
        (λ filters. pure (filters_reply sig ticker filters))
