-- ===== src/World.antt =====
-- What a call of the program reads and writes, and how a Go function is written here: an action
-- on the world that returns or panics; a Go error is a value.
pub mod Keeps
pub mod Runs
pub mod Gives
pub mod Yields
use chremoas_ng.Base.{ℕ, suc, Bool, true, false, Option, none, some, List, [], ◌∷◌, ◌++◌}
use chremoas_ng.Base.Text.{Str}
use chremoas_ng.Payloads.{RolePayload, MemberPayload}
use chremoas_ng.Database.{Db, PgCode, Fault, pq, Outcome, rows, violation}
use chremoas_ng.Common.Embed.{Embed}

-- What the game's answer to a failed request was decoded to: the client's types for an alliance, a
-- corporation and a character that do not exist, or another.
pub data SwaggerModel : Type 0 where
  alliance_not_found corporation_not_found character_not_found other_model : SwaggerModel

-- Go errors: the sentinels of internal/storage, sql.ErrNoRows, what a statement reports,
-- fmt.Errorf with %w, an answer of Discord's REST interface or of the
-- game's, and any other.
pub data Error : Type 0 where
  no_rows : Error
  no_filter filter_exists filter_member not_filter_member : Error
  no_permission permission_exists permission_member : Error
  no_role role_exists role_filter_exists : Error
  no_auth_code no_discord_user user_mapped no_character no_corporation no_alliance : Error
  database : Fault → Error
  wrapped : Str → Error → Error
  -- *discordgo.RESTError with its status code
  rest : ℕ → Error
  -- esi.GenericSwaggerError with its model
  swagger : SwaggerModel → Error
  message : Str → Error

pub data Result {ℓ} (A : Type ℓ) : Type ℓ where
  ok : A → Result A
  err : Error → Result A

-- discordgo.MessageSend: the program sets either the content or the embed.
pub data MessageSend : Type 0 where
  content : Str → MessageSend
  embed : Embed → MessageSend

-- discordgo.Member, as far as the program reads it.
pub record Member : Type 0 where
  pub nick : Str
  pub username : Str
  pub roles : List Str

-- discordgo.Role, as far as the program reads it.
pub record DiscordRole : Type 0 where
  pub id : Str
  pub name : Str
  pub managed : Bool
  pub mentionable : Bool
  pub hoist : Bool
  pub color : ℕ
  pub position : ℕ
  pub permissions : ℕ

-- The client's answers about alliances, corporations and characters, as far as the program reads them.
pub record EsiAlliance : Type 0 where
  pub name : Str
  pub ticker : Str

pub record EsiCorporation : Type 0 where
  pub name : Str
  pub ticker : Str
  pub alliance_id : ℕ

pub record EsiCharacter : Type 0 where
  pub name : Str
  pub corporation_id : ℕ

-- A change that the program asks Discord for; the first argument is the guild.
pub data Request : Type 0 where
  role_create : Str → Request
  -- guild, role, name, color, hoist, permissions, mentionable
  role_edit : Str → Str → Str → ℕ → Bool → ℕ → Bool → Request
  role_delete : Str → Str → Request
  -- guild, member, role
  member_role_add member_role_remove : Str → Str → Str → Request

-- The database, the queues that were published to, the embeds sent to channels, the changes that
-- Discord was asked for, and the number of calls made so far to a server: statements,
-- publications, requests to Discord.
pub record World : Type 0 where
  pub db : Db
  pub clock : ℕ
  pub members_queue : List MemberPayload
  pub roles_queue : List RolePayload
  pub sent : List (Str × Embed)
  pub requests : List Request

-- The servers, which the program only calls. `fault n` is how the statement that is the n-th call
-- fails, if it does; `bigint`, `int` and `bool` are how PostgreSQL reads a text as a value of these
-- types. `rest_fault` is how the request to Discord fails that is the n-th call, and `created_id` is
-- the id of a role that Discord makes. `random` is
-- what the source of random bytes gives. `ignored_roles` is configuration; `correlation_id` is that of
-- the span in which a command runs.
-- `esi_alliance` and the next two are the n-th call's answer about an id: the game's client returns a
-- response also beside an error.
pub record Env : Type 0 where
  pub fault : ℕ → Option Fault
  pub bigint : Str → Option ℕ
  pub publish_fault : ℕ → Option Error
  pub guild_member : ℕ → Str → Result Member
  pub send_fault : ℕ → Option Error
  pub error_text : Error → Str
  pub guild_id : Str
  pub int : Str → Option ℕ
  pub bool : Str → Option Bool
  pub guild_roles : ℕ → Result (List DiscordRole)
  pub rest_fault : ℕ → Option Error
  pub created_id : ℕ → Str
  pub ignored_roles : List Str
  pub correlation_id : Str
  pub random : ℕ → Result (List ℕ)
  pub esi_alliance : ℕ → ℕ → EsiAlliance × Option Error
  pub esi_corporation : ℕ → ℕ → EsiCorporation × Option Error
  pub esi_character : ℕ → ℕ → EsiCharacter × Option Error

-- How a call ends. A panic ends the handler.
pub data Run (A : Type 0) : Type 0 where
  done : A → World → Run A
  panic : World → Run A

abbrev pub M : Type 0 → Type 0
M A = World → Run A

-- The combinators are shut, so that proofs can go by rules for them.
unfoldable pub pure : {A : Type 0} → A → M A
pure a w = done a w

infixl 5 ◌>>=◌ ◌>>◌
unfoldable pub ◌>>=◌ : {A B : Type 0} → M A → (A → M B) → M B
◌>>=◌ m f w = elim (m w) [ done a w' ↦ f a w' | panic w' ↦ panic w' ]

unfoldable pub ◌>>◌ : {A B : Type 0} → M A → M B → M B
unfolding ◌>>=◌
m >> k = m >>= λ _. k

-- `a, err := m(); if err != nil { … }`: both ways on.
unfoldable pub check : {A B : Type 0} → M (Result A) → (Error → M B) → (A → M B) → M B
check m failed next w = elim (m w) [
  | done r w' ↦ elim r [ ok a ↦ next a w' | err e ↦ failed e w' ]
  | panic w' ↦ panic w'
]

-- One more call of a server.
abbrev pub tick : World → World
tick w = record w { clock = suc w.clock }

outcome_run : {A : Type 0} → Outcome A → World → Run (Result A)
outcome_run (rows a db) w = done (ok a) (record w { db = db })
outcome_run (violation c db) w = done (err (database (pq c))) (record w { db = db })

module _ (env : Env) where
  -- A statement of which the server says no more than the schema does: it fails and changes
  -- nothing, or it has its outcome on the tables.
  unfoldable pub query : {A : Type 0} → (Db → Outcome A) → M (Result A)
  unfolding outcome_run
  query f w = elim (env.fault w.clock) [
    | some e ↦ done (err (database e)) (tick w)
    | none ↦ outcome_run (f w.db) (tick w)
  ]

  -- A text that is passed for a BIGINT column.
  unfoldable pub bigint_param : {A : Type 0} → Str → (ℕ → Db → Outcome A) → Db → Outcome A
  bigint_param s f db = elim (env.bigint s) [
    | none ↦ violation PgCode.invalid_text db
    | some n ↦ f n db
  ]

-- SELECT: rows, and no change.
abbrev pub select : {A : Type 0} → (Db → A) → Db → Outcome A
select f db = rows (f db) db

-- DELETE or UPDATE under no constraint that it could violate.
abbrev pub execute : (Db → Db) → Db → Outcome Unit
execute f db = rows tt (f db)

-- `query.Scan`: the first row, or sql.ErrNoRows.
abbrev pub first_row {ℓ} : {A : Type ℓ} → List A → Result A
first_row [] = err no_rows
first_row (r ∷ rs) = ok r

-- `errors.Is(err, sql.ErrNoRows)` and the like: a wrapped error is looked into.
unfoldable pub is_no_rows : Error → Bool
is_no_rows no_rows = true
is_no_rows (wrapped s e) = is_no_rows e
is_no_rows _ = false

unfoldable pub is_no_filter : Error → Bool
is_no_filter no_filter = true
is_no_filter (wrapped s e) = is_no_filter e
is_no_filter _ = false

unfoldable pub is_filter_exists : Error → Bool
is_filter_exists filter_exists = true
is_filter_exists (wrapped s e) = is_filter_exists e
is_filter_exists _ = false

unfoldable pub is_filter_member : Error → Bool
is_filter_member filter_member = true
is_filter_member (wrapped s e) = is_filter_member e
is_filter_member _ = false

unfoldable pub is_not_filter_member : Error → Bool
is_not_filter_member not_filter_member = true
is_not_filter_member (wrapped s e) = is_not_filter_member e
is_not_filter_member _ = false

unfoldable pub is_no_permission : Error → Bool
is_no_permission no_permission = true
is_no_permission (wrapped s e) = is_no_permission e
is_no_permission _ = false

unfoldable pub is_no_role : Error → Bool
is_no_role no_role = true
is_no_role (wrapped s e) = is_no_role e
is_no_role _ = false

unfoldable pub is_role_exists : Error → Bool
is_role_exists role_exists = true
is_role_exists (wrapped s e) = is_role_exists e
is_role_exists _ = false

unfoldable pub is_role_filter_exists : Error → Bool
is_role_filter_exists role_filter_exists = true
is_role_filter_exists (wrapped s e) = is_role_filter_exists e
is_role_filter_exists _ = false

unfoldable pub is_no_auth_code : Error → Bool
is_no_auth_code no_auth_code = true
is_no_auth_code (wrapped s e) = is_no_auth_code e
is_no_auth_code _ = false

-- Compared with `==`, not with errors.Is.
unfoldable pub is_user_mapped : Error → Bool
is_user_mapped user_mapped = true
is_user_mapped _ = false

unfoldable pub is_no_character : Error → Bool
is_no_character no_character = true
is_no_character (wrapped s e) = is_no_character e
is_no_character _ = false

unfoldable pub is_no_corporation : Error → Bool
is_no_corporation no_corporation = true
is_no_corporation (wrapped s e) = is_no_corporation e
is_no_corporation _ = false

unfoldable pub is_no_alliance : Error → Bool
is_no_alliance no_alliance = true
is_no_alliance (wrapped s e) = is_no_alliance e
is_no_alliance _ = false

unfoldable pub is_no_discord_user : Error → Bool
is_no_discord_user no_discord_user = true
is_no_discord_user (wrapped s e) = is_no_discord_user e
is_no_discord_user _ = false

unfoldable pub is_permission_exists : Error → Bool
is_permission_exists permission_exists = true
is_permission_exists (wrapped s e) = is_permission_exists e
is_permission_exists _ = false

unfoldable pub is_permission_member : Error → Bool
is_permission_member permission_member = true
is_permission_member (wrapped s e) = is_permission_member e
is_permission_member _ = false

-- `if err.(*pq.Error).Code == "23505" { return sentinel }; return err`: the type assertion panics
-- on an error that is not the server's.
unfoldable pub on_unique : {A : Type 0} → Error → Error → M (Result A)
on_unique sentinel (database (pq PgCode.unique_violation)) = pure (err sentinel)
on_unique sentinel (database (pq c)) = pure (err (database (pq c)))
on_unique sentinel _ = λ w. panic w
