-- ===== src/Database/Auth.antt =====
-- The tables of sql/002_add_authdb.up.sql: alliances, corporations, characters, authentication codes
-- and the characters of users.
use chremoas_ng.Base.{
  ℕ, Bool, true, false, ◌&&◌, ◌||◌, not, Option, none, some, List, ◌∷◌, map, ◌==◌, nat_eq, bytes_eq,
  if◌then◌else◌, any, drop_all,
}
use chremoas_ng.Base.Text.{Str, lit}
use chremoas_ng.Database.Rows.{
  AllianceRow, CorporationRow, CharacterRow, CodeRow, CharacterMapRow, AuthDb, Db, PgCode, Outcome,
  rows, violation, fits,
}

abbrev pub set_auth : AuthDb → Db → Db
set_auth auth db = record db { auth = auth }

-- INSERT … ON CONFLICT (id) DO UPDATE: the row takes the place of the one with its id. Another row
-- with its name or ticker is in the way.
unfoldable pub upsert_alliances : AllianceRow → Db → Outcome Unit
upsert_alliances row db =
    if not (fits 100 row.name && fits 5 row.ticker)
    then violation PgCode.string_too_long db
    else if any (λ a. not (a.id == row.id) && (row.name == a.name || row.ticker == a.ticker))
        db.auth.alliances
    then violation PgCode.unique_violation db
    else rows tt (
        set_auth
          (record db.auth { alliances = row ∷ drop_all (λ a. a.id == row.id) db.auth.alliances })
          db)

-- `alliance_id` REFERENCES alliances (id), and may be NULL.
unfoldable pub is_alliance : Option ℕ → List AllianceRow → Bool
is_alliance none alliances = true
is_alliance (some id) alliances = any (λ a. a.id == id) alliances

unfoldable pub upsert_corporations : CorporationRow → Db → Outcome Unit
unfolding is_alliance
upsert_corporations row db =
    if not (fits 100 row.name && fits 5 row.ticker)
    then violation PgCode.string_too_long db
    else if any (λ c. not (c.id == row.id) && (row.name == c.name || row.ticker == c.ticker))
        db.auth.corporations
    then violation PgCode.unique_violation db
    else if not (is_alliance row.alliance_id db.auth.alliances)
    then violation PgCode.foreign_key_violation db
    else rows tt (
        set_auth
          (record db.auth {
            corporations = row ∷ drop_all (λ c. c.id == row.id) db.auth.corporations;
          })
          db)

unfoldable pub upsert_characters : CharacterRow → Db → Outcome Unit
upsert_characters row db =
    if not (fits 100 row.name && fits 255 row.token)
    then violation PgCode.string_too_long db
    else if any (λ c. not (c.id == row.id) && row.name == c.name) db.auth.characters
    then violation PgCode.unique_violation db
    else if not (any (λ k. k.id == row.corporation_id) db.auth.corporations)
    then violation PgCode.foreign_key_violation db
    else rows tt (
        set_auth
          (record db.auth { characters = row ∷ drop_all (λ c. c.id == row.id) db.auth.characters })
          db)

-- The column `token` is NOT NULL, which is checked before a conflict is looked for.
unfoldable pub upsert_characters_without_token : Db → Outcome Unit
upsert_characters_without_token db = violation (PgCode.other_code (lit "23502")) db

-- Codes and mappings refer to characters, with no cascade.
unfoldable pub delete_from_characters : (CharacterRow → Bool) → Db → Outcome Unit
delete_from_characters p db =
    let gone : ℕ → Bool = λ id. any (λ c. p c && c.id == id) db.auth.characters in
    if any (λ k. gone k.character_id) db.auth.codes
      || any (λ m. gone m.character_id) db.auth.user_character_map
    then violation PgCode.foreign_key_violation db
    else rows tt (set_auth (record db.auth { characters = drop_all p db.auth.characters }) db)

-- PRIMARY KEY (character_id, code)
unfoldable pub insert_into_authentication_codes : ℕ → Str → Db → Outcome Unit
insert_into_authentication_codes character_id code db =
    let row : CodeRow = record { character_id = character_id; code = code; used = false } in
    if not (fits 20 code)
    then violation PgCode.string_too_long db
    else if any (λ c. character_id == c.character_id && code == c.code) db.auth.codes
    then violation PgCode.unique_violation db
    else if not (any (λ c. c.id == character_id) db.auth.characters)
    then violation PgCode.foreign_key_violation db
    else rows tt (set_auth (record db.auth { codes = row ∷ db.auth.codes }) db)

unfoldable pub use_authentication_codes : (CodeRow → Bool) → Db → Db
use_authentication_codes p db =
    set_auth
      (record db.auth {
        codes = map {A = CodeRow} (λ c. record c { used = p c || c.used }) db.auth.codes;
      })
      db

unfoldable pub delete_from_authentication_codes : (CodeRow → Bool) → Db → Db
delete_from_authentication_codes p db =
    set_auth (record db.auth { codes = drop_all p db.auth.codes }) db

-- PRIMARY KEY (chat_id, character_id)
unfoldable pub insert_into_user_character_map : Str → ℕ → Db → Outcome Unit
insert_into_user_character_map chat_id character_id db =
    let row : CharacterMapRow = record { chat_id = chat_id; character_id = character_id } in
    if not (fits 255 chat_id)
    then violation PgCode.string_too_long db
    else if any (λ m. chat_id == m.chat_id && character_id == m.character_id)
        db.auth.user_character_map
    then violation PgCode.unique_violation db
    else if not (any (λ c. c.id == character_id) db.auth.characters)
    then violation PgCode.foreign_key_violation db
    else rows tt
        (set_auth (record db.auth { user_character_map = row ∷ db.auth.user_character_map }) db)

unfoldable pub delete_from_user_character_map : (CharacterMapRow → Bool) → Db → Db
delete_from_user_character_map p db =
    set_auth (record db.auth { user_character_map = drop_all p db.auth.user_character_map }) db
