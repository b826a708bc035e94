-- ===== src/Database/Rows.antt =====
-- The tables of sql/*.sql as lists of rows in no particular order, and the outcome of a statement.
use chremoas_ng.Base.{ℕ, Bool, Option, List, leb}
use chremoas_ng.Base.Text.{Str, char_count}

pub record FilterRow : Type 0 where
  pub id : ℕ
  pub name : Str
  pub description : Str

pub record MembershipRow : Type 0 where
  pub filter : ℕ
  pub user_id : ℕ

pub record RoleRow : Type 0 where
  pub id : ℕ
  pub color : ℕ
  pub hoist : Bool
  pub joinable : Bool
  pub managed : Bool
  pub mentionable : Bool
  pub name : Str
  pub permissions : ℕ
  pub position : ℕ
  pub role_nick : Str
  pub sig : Bool
  pub sync : Bool
  pub chat_type : Str
  pub chat_id : ℕ

pub record RoleFilterRow : Type 0 where
  pub role : ℕ
  pub filter : ℕ

pub record PermissionRow : Type 0 where
  pub id : ℕ
  pub name : Str
  pub description : Str

pub record PermissionMembershipRow : Type 0 where
  pub permission : ℕ
  pub user_id : ℕ

-- The tables of sql/002_add_authdb.up.sql, without timestamps.
pub record AllianceRow : Type 0 where
  pub id : ℕ
  pub name : Str
  pub ticker : Str

pub record CorporationRow : Type 0 where
  pub id : ℕ
  pub name : Str
  pub ticker : Str
  pub alliance_id : Option ℕ

-- The program never leaves the corporation out.
pub record CharacterRow : Type 0 where
  pub id : ℕ
  pub name : Str
  pub corporation_id : ℕ
  pub token : Str

pub record CodeRow : Type 0 where
  pub character_id : ℕ
  pub code : Str
  pub used : Bool

pub record CharacterMapRow : Type 0 where
  pub chat_id : Str
  pub character_id : ℕ

pub record AuthDb : Type 0 where
  pub alliances : List AllianceRow
  pub corporations : List CorporationRow
  pub characters : List CharacterRow
  pub codes : List CodeRow
  pub user_character_map : List CharacterMapRow

-- `…_next` is the next value of a BIGSERIAL column's sequence.
pub record Db : Type 0 where
  pub filters : List FilterRow
  pub filters_next : ℕ
  pub filter_membership : List MembershipRow
  pub roles : List RoleRow
  pub roles_next : ℕ
  pub role_filters : List RoleFilterRow
  pub permissions : List PermissionRow
  pub permissions_next : ℕ
  pub permission_membership : List PermissionMembershipRow
  pub auth : AuthDb

pub data PgCode : Type 0 where
  unique_violation foreign_key_violation string_too_long invalid_text : PgCode
  other_code : Str → PgCode

-- Why a statement failed: an error that the server reports, or one of the driver.
pub data Fault : Type 0 where
  pq : PgCode → Fault
  driver : Str → Fault

-- What a statement makes of the tables: rows, or a violated constraint.
pub data Outcome (A : Type 0) : Type 0 where
  rows : A → Db → Outcome A
  violation : PgCode → Db → Outcome A

abbrev pub fits : ℕ → Str → Bool
fits n s = leb (char_count s) n

-- The tables after a statement, whether it succeeded or not.
abbrev pub outcome_db : {A : Type 0} → Outcome A → Db
outcome_db (rows a db) = db
outcome_db (violation c db) = db
