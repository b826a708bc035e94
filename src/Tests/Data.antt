-- ===== src/Tests/Data.antt =====
-- Concrete tables that satisfy the constraints of the schema, and servers that never fail.
use chremoas_ng.Base.{ℕ, refl, arith, Bool, true, false, Option, none, some, List, [], ◌∷◌}
use chremoas_ng.Base.Text.{Str, atoi}
use chremoas_ng.Database.{
  Db, FilterRow, MembershipRow, RoleRow, RoleFilterRow, PermissionRow, PermissionMembershipRow,
  AuthDb, CharacterMapRow,
}
use chremoas_ng.Database.Invariant.{IsValid}
use chremoas_ng.World.{World, Env, ok, err, message}
use chremoas_ng.World.Runs.{IsCalm}

abbrev pub pilots : FilterRow
pilots = record { id = 1; name = b'p' ∷ []; description = [] }

-- The filter `p`, the role `r` that it gives, its chat id 77, and the permissions.
abbrev pub pilot_role : RoleRow
pilot_role = record {
  id = 1;
  color = 0;
  hoist = false;
  joinable = false;
  managed = true;
  mentionable = true;
  name = b'r' ∷ [];
  permissions = 0;
  position = 0;
  role_nick = b'r' ∷ [];
  sig = false;
  sync = false;
  chat_type = [];
  chat_id = 77;
}

abbrev role_filter : RoleFilterRow
role_filter = record { role = 1; filter = 1 }

abbrev pub permission : PermissionRow
permission = record { id = 1; name = b'q' ∷ []; description = [] }

abbrev holder : PermissionMembershipRow
holder = record { permission = 1; user_id = 9 }

abbrev pub empty_auth : AuthDb
empty_auth = record {
  alliances = [];
  corporations = [];
  characters = [];
  codes = [];
  user_character_map = [];
}

abbrev pub tables : List MembershipRow → Db
tables ms = record {
  filters = pilots ∷ [];
  filters_next = 2;
  filter_membership = ms;
  roles = pilot_role ∷ [];
  roles_next = 2;
  role_filters = role_filter ∷ [];
  permissions = permission ∷ [];
  permissions_next = 2;
  permission_membership = holder ∷ [];
  auth = empty_auth;
}

abbrev pub user_5 : MembershipRow
user_5 = record { filter = 1; user_id = 5 }

abbrev pub empty_db : Db
empty_db = tables []

abbrev pub member_db : Db
member_db = tables (user_5 ∷ [])

abbrev pub world_of : Db → World
world_of db = record {
  db = db;
  clock = 0;
  members_queue = [];
  roles_queue = [];
  sent = [];
  requests = [];
}

abbrev read_number : Str → Option ℕ
read_number s = elim (atoi s) [ none ↦ none | some n ↦ some n.1 ]

abbrev pub calm_env : Env
calm_env = record {
  fault = λ n. none;
  bigint = read_number;
  publish_fault = λ n. none;
  guild_member = λ n user. err (message []);
  send_fault = λ n. none;
  error_text = λ e. [];
  guild_id = b'g' ∷ [];
  int = read_number;
  bool = λ s. none;
  guild_roles = λ n. ok [];
  rest_fault = λ n. none;
  created_id = λ n. b'8' ∷ b'8' ∷ [];
  ignored_roles = [];
  correlation_id = [];
  random = λ n. ok (1 ∷ 2 ∷ 3 ∷ 4 ∷ 5 ∷ 6 ∷ []);
  esi_alliance = λ n id. (record { name = b'A' ∷ []; ticker = b'a' ∷ [] }, none);
  esi_corporation = λ n id. (record { name = []; ticker = []; alliance_id = 0 }, some (message []));
  esi_character = λ n id. (record { name = b'C' ∷ []; corporation_id = 3 }, none);
}

pub calm_env-IsCalm : IsCalm calm_env
calm_env-IsCalm = record { fault = λ n. refl; publish = λ n. refl }

pub empty_db-IsValid : IsValid empty_db
empty_db-IsValid = record {
  filters = record {
    ids = (refl, tt);
    index = (refl, tt);
    given = ((ground arith, ground arith), tt);
    started = ground arith;
  };
  membership = record { pairs = tt; known = tt };
  roles = record {
    ids = (refl, tt);
    index = (refl, tt);
    given = ((ground arith, ground arith), tt);
    started = ground arith;
  };
  role_filters = record { known_roles = (refl, tt); known_filters = (refl, tt) };
  permissions = record {
    ids = (refl, tt);
    index = (refl, tt);
    given = ((ground arith, ground arith), tt);
    started = ground arith;
  };
  holders = record { pairs = (refl, tt); known = (refl, tt) };
  auth = record {
    alliances = record { ids = tt; names = tt; tickers = tt };
    corporations = record { ids = tt; names = tt; tickers = tt };
    known_alliances = tt;
    characters = tt;
    character_names = tt;
    known_corporations = tt;
    codes = tt;
    known_code_owners = tt;
    mapped = tt;
    known_mapped = tt;
  };
}

-- A character of a corporation, its code, and the user whose it is.
abbrev pub auth_tables : Bool → List CharacterMapRow → AuthDb
auth_tables used mapped = record {
  alliances = [];
  corporations = record { id = 2; name = b'k' ∷ []; ticker = b'k' ∷ []; alliance_id = none } ∷ [];
  characters = record { id = 3; name = b'c' ∷ []; corporation_id = 2; token = b't' ∷ [] } ∷ [];
  codes = record { character_id = 3; code = b'x' ∷ []; used = used } ∷ [];
  user_character_map = mapped;
}

abbrev pub auth_world : Bool → List CharacterMapRow → World
auth_world used mapped = world_of (record empty_db { auth = auth_tables used mapped })
