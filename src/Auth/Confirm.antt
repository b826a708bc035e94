-- ===== src/Auth/Confirm.antt =====
-- internal/auth/auth.go: Confirm.
use chremoas_ng.Base.{ℕ, Option, none, some, List, ◌++◌, if◌then◌else◌}
use chremoas_ng.Base.Text.{Str, lit, decimal}
use chremoas_ng.Payloads.{Character}
use chremoas_ng.Common.Messages.{send_success, send_error}
use chremoas_ng.Common.StringSets.{StringSets}
use chremoas_ng.Filters.Members.{add_member}
use chremoas_ng.Storage.Alliances.{get_alliance}
use chremoas_ng.Storage.Corporations.{get_corporation}
use chremoas_ng.Storage.Characters.{get_character}
use chremoas_ng.Storage.Codes.{get_auth_code, update_auth_code}
use chremoas_ng.Storage.Users.{insert_user_character_map}
use chremoas_ng.World.{
  Env, M, pure, ◌>>=◌, check, MessageSend, is_no_auth_code, is_no_character, is_no_corporation,
  is_no_alliance, is_user_mapped,
}

module _ (env : Env) (lib : StringSets) where
  unfoldable pub success : Str → Character → M (List MessageSend)
  success sender character = pure (
      send_success (some sender)
        (lit "**Success**: " ++ (character.name ++ lit " has been successfully authed.")))

  -- The filter of the alliance, if there is one. The replies of AddMember are dropped.
  unfoldable pub join_alliance : Str → Character → Option ℕ → M (List MessageSend)
  unfolding success
  join_alliance sender character none = success sender character
  join_alliance sender character (some id) =
      check (get_alliance env id)
        (λ e. pure (
          if is_no_alliance e
          then send_error (some sender) (lit "No such alliance: " ++ decimal id)
          else send_error (some sender) (lit "Error getting alliance: " ++ env.error_text e)))
        λ alliance. add_member env lib sender alliance.ticker >>= λ _. success sender character

  -- What follows once the code is used and the character is the sender's.
  unfoldable pub join_filters : Str → Character → M (List MessageSend)
  unfolding join_alliance
  join_filters sender character =
      check (get_corporation env character.corporation_id)
        (λ e. pure (
          if is_no_corporation e
          then send_error (some sender)
              (lit "No such corporation: " ++ decimal character.corporation_id)
          else send_error (some sender) (lit "Error getting corporation: " ++ env.error_text e)))
        λ corporation. add_member env lib sender corporation.ticker >>= λ _.
          join_alliance sender character corporation.alliance_id

  unfoldable pub claim : Str → Str → ℕ → M (List MessageSend)
  unfolding join_filters
  claim code sender character_id =
      check (get_character env character_id)
        (λ e. pure (
          if is_no_character e
          then send_error (some sender) (lit "No such character: " ++ decimal character_id)
          else send_error (some sender)
              (lit "Error getting character from the DB: " ++ decimal character_id)))
        λ character.
          check (update_auth_code env code)
            (λ e.
              pure
                (send_error (some sender) (lit "Error updating auth code: " ++ env.error_text e)))
            λ _.
              check (insert_user_character_map env sender character_id)
                (λ e. pure (
                  if is_user_mapped e
                  then send_error (some sender) (lit "User already mapped to character")
                  else send_error (some sender)
                      (lit "Error inserting user character map: " ++ env.error_text e)))
                (λ _. join_filters sender character)

  unfoldable pub confirm : Str → Str → M (List MessageSend)
  unfolding claim
  confirm code sender =
      check (get_auth_code env code)
        (λ e. pure (
          if is_no_auth_code e
          then send_error (some sender) (lit "No such auth code")
          else send_error (some sender)
              (lit "Error getting auth code from the DB: " ++ env.error_text e)))
        (λ found.
          if found.1
          then pure (send_error (some sender) (lit "Auth code already used: " ++ code))
          else claim code sender found.0)
