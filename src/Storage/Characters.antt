-- ===== src/Storage/Characters.antt =====
-- internal/storage/character.go
use chremoas_ng.Base.{ℕ, List, [], map, ◌==◌, nat_eq, bytes_eq, bool_eq, if◌then◌else◌, keep, count}
use chremoas_ng.Base.Text.{Str, is_empty}
use chremoas_ng.Payloads.{Character}
use chremoas_ng.Database.{
  CharacterRow, upsert_characters, upsert_characters_without_token, delete_from_characters,
}
use chremoas_ng.Storage.Codes.{delete_auth_codes}
use chremoas_ng.World.{
  Env, M, pure, check, query, select, first_row, Result, ok, err, is_no_rows, no_character,
}

listed_character : CharacterRow → Character
listed_character c = record {
  id = c.id;
  name = c.name;
  corporation_id = c.corporation_id;
  token = c.token;
}

-- Only the name and the corporation are read.
unfoldable pub character_of : CharacterRow → Character
character_of c = record { id = 0; name = c.name; corporation_id = c.corporation_id; token = [] }

unfoldable pub found_character : Result CharacterRow → Result Character
found_character (ok row) = ok (character_of row)
found_character (err e) = err (if is_no_rows e then no_character else e)

module _ (env : Env) where
  unfoldable pub get_character_count : ℕ → M (Result ℕ)
  unfolding query
  get_character_count id = query env (select (λ db. count (λ c. c.id == id) db.auth.characters))

  unfoldable pub get_character : ℕ → M (Result Character)
  unfolding character_of found_character query
  get_character id =
      check (query env (select (λ db. keep (λ c. c.id == id) db.auth.characters)))
        (λ e. pure (err e)) (λ found. pure (found_character (first_row found)))

  unfoldable pub get_characters : M (Result (List Character))
  unfolding listed_character query
  get_characters = query env (select (λ db. map listed_character db.auth.characters))

  -- The error is logged and not returned. With an empty token the column is left out.
  unfoldable pub upsert_character : ℕ → ℕ → Str → Str → M (Result Unit)
  unfolding query
  upsert_character id corporation_id name token =
      let row : CharacterRow = record {
        id = id;
        name = name;
        corporation_id = corporation_id;
        token = token;
      } in
      check
        (query env
          (if is_empty token then upsert_characters_without_token else upsert_characters row))
        (λ e. pure (ok tt)) (λ _. pure (ok tt))

  unfoldable pub delete_character : ℕ → M (Result Unit)
  unfolding query
  delete_character id =
      check (delete_auth_codes env id) (λ e. pure (err e))
        (λ _. query env (delete_from_characters (λ c. c.id == id)))
