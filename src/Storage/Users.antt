-- ===== src/Storage/Users.antt =====
-- internal/storage/user.go: the characters of Discord users.
use chremoas_ng.Base.{ℕ, List, [], ◌∷◌, map, ◌==◌, nat_eq, bytes_eq, bool_eq, if◌then◌else◌, keep}
use chremoas_ng.Base.Text.{Str}
use chremoas_ng.Payloads.{Character}
use chremoas_ng.Database.{
  CharacterMapRow, insert_into_user_character_map, delete_from_user_character_map,
}
use chremoas_ng.Storage.Codes.{delete_auth_codes}
use chremoas_ng.Storage.Characters.{delete_character}
use chremoas_ng.World.{
  Env, M, pure, check, query, select, execute, first_row, Result, ok, err, is_no_rows, on_unique,
  no_discord_user, user_mapped,
}

-- Only the id is read.
unfoldable pub mapped_character : CharacterMapRow → Character
mapped_character m = record { id = m.character_id; name = []; corporation_id = 0; token = [] }

unfoldable pub found_user : Result CharacterMapRow → Result Str
found_user (ok row) = ok row.chat_id
found_user (err e) = err (if is_no_rows e then no_discord_user else e)

module _ (env : Env) where
  unfoldable pub get_discord_user : ℕ → M (Result Str)
  unfolding found_user query
  get_discord_user character_id =
      check
        (query env
          (select (λ db. keep (λ m. m.character_id == character_id) db.auth.user_character_map)))
        (λ e. pure (err e)) (λ found. pure (found_user (first_row found)))

  unfoldable pub get_discord_characters : Str → M (Result (List Character))
  unfolding mapped_character query
  get_discord_characters discord_id = query env (
      select (λ db.
        map mapped_character (keep (λ m. m.chat_id == discord_id) db.auth.user_character_map)))

  unfoldable pub insert_user_character_map : Str → ℕ → M (Result Unit)
  unfolding query
  insert_user_character_map sender character_id =
      check (query env (insert_into_user_character_map sender character_id)) (on_unique user_mapped)
        (λ _. pure (ok tt))

  -- The loop over the characters of a deleted user.
  unfoldable pub delete_characters : List Character → M (Result Unit)
  delete_characters [] = pure (ok tt)
  delete_characters (c ∷ cs) =
      check (delete_auth_codes env c.id) (λ e. pure (err e))
        λ _. check (delete_character env c.id) (λ e. pure (err e)) (λ _. delete_characters cs)

  unfoldable pub delete_discord_user : Str → M (Result Unit)
  unfolding delete_characters query
  delete_discord_user chat_id =
      check (query env (execute (delete_from_user_character_map (λ m. m.chat_id == chat_id))))
        (λ e. pure (err e))
        λ _. check (get_discord_characters chat_id) (λ e. pure (err e)) delete_characters
