-- ===== src/Payloads.antt =====
-- internal/payloads/payloads.go and data.go: the values that the parts hand each other. Times are
-- left out.
-- An `int` that is a Discord colour, position or permission set, and a BIGINT, are natural numbers.
use chremoas_ng.Base.{ℕ, Bool, false, Option, []}
use chremoas_ng.Base.Text.{Str}

-- A message may carry any other text for an action.
pub data Action : Type 0 where
  add upsert delete : Action
  unknown : Str → Action

pub record Filter : Type 0 where
  pub id : ℕ
  pub name : Str
  pub description : Str

pub record RoleFilter : Type 0 where
  pub id : ℕ
  pub role : ℕ
  pub filter : ℕ

pub record Permission : Type 0 where
  pub id : ℕ
  pub name : Str
  pub description : Str

pub record Role : Type 0 where
  pub id : Str
  pub name : Str
  pub managed : Bool
  pub mentionable : Bool
  pub hoist : Bool
  pub color : ℕ
  pub position : ℕ
  pub permissions : ℕ
  pub chat_id : ℕ
  pub joinable : Bool
  pub short_name : Str
  pub sig : Bool
  pub sync : Bool
  pub chat_type : Str

-- `payloads.Role{}`
abbrev pub zero_role : Role
zero_role = record {
  id = [];
  name = [];
  managed = false;
  mentionable = false;
  hoist = false;
  color = 0;
  position = 0;
  permissions = 0;
  chat_id = 0;
  joinable = false;
  short_name = [];
  sig = false;
  sync = false;
  chat_type = [];
}

pub record RolePayload : Type 0 where
  pub action : Action
  pub guild_id : Str
  pub role : Role
  pub correlation_id : Str

pub record MemberPayload : Type 0 where
  pub action : Action
  pub guild_id : Str
  pub member_id : Str
  pub role_id : Str
  pub correlation_id : Str

pub record Alliance : Type 0 where
  pub id : ℕ
  pub name : Str
  pub ticker : Str

-- sql.NullInt32 is an option.
pub record Corporation : Type 0 where
  pub id : ℕ
  pub name : Str
  pub ticker : Str
  pub alliance_id : Option ℕ

pub record Character : Type 0 where
  pub id : ℕ
  pub name : Str
  pub corporation_id : ℕ
  pub token : Str

-- The web front end always gives a character and a corporation.
pub record CreateRequest : Type 0 where
  pub token : Str
  pub character : Character
  pub corporation : Corporation
  pub alliance : Option Alliance
