-- ===== src/Database/Filters.antt =====
-- Statements on filters, filter_membership, roles and role_filters (sql/*.up.sql).
use chremoas_ng.Base.{
  ℕ, suc, Bool, true, false, ◌&&◌, not, Option, none, some, ◌∷◌, ◌==◌, nat_eq, bool_eq, bytes_eq,
  if◌then◌else◌, any, drop_all, map, ltb, count, ◌||◌,
}
use chremoas_ng.Base.Text.{Str}
use chremoas_ng.Database.Rows.{
  FilterRow, MembershipRow, RoleRow, RoleFilterRow, Db, foreign_key_violation, unique_violation,
  string_too_long, Outcome, rows, violation, fits,
}

-- CREATE UNIQUE INDEX filters_uindex ON filters (name)
unfoldable pub insert_into_filters : Str → Str → Db → Outcome ℕ
insert_into_filters name description db =
    let db' : Db = record db { filters_next = suc db.filters_next } in
    let row : FilterRow = record { id = db.filters_next; name = name; description = description } in
    if not (fits 32 name && fits 256 description)
    then violation string_too_long db'
    else if any (λ f. f.name == name) db.filters
    then violation unique_violation db'
    else rows db.filters_next (record db' { filters = row ∷ db.filters })

-- A filter's memberships and role filters go with it (ON DELETE CASCADE).
unfoldable pub delete_from_filters : (FilterRow → Bool) → Db → Db
delete_from_filters p db =
    let gone : ℕ → Bool = λ n. any (λ f. p f && f.id == n) db.filters in
    record db {
      filters = drop_all p db.filters;
      filter_membership = drop_all (λ m. gone m.filter) db.filter_membership;
      role_filters = drop_all (λ r. gone r.filter) db.role_filters;
    }

-- CREATE UNIQUE INDEX filter_membership_uindex ON filter_membership (filter, user_id)
unfoldable pub insert_into_filter_membership : ℕ → ℕ → Db → Outcome Unit
insert_into_filter_membership filter user_id db =
    if any (λ m. m.filter == filter && m.user_id == user_id) db.filter_membership
    then violation unique_violation db
    else if not (any (λ f. f.id == filter) db.filters)
    then violation foreign_key_violation db
    else let row : MembershipRow = record { filter = filter; user_id = user_id } in
      rows tt (record db { filter_membership = row ∷ db.filter_membership })

unfoldable pub delete_from_filter_membership : (MembershipRow → Bool) → Db → Db
delete_from_filter_membership p db = record db {
  filter_membership = drop_all p db.filter_membership;
}

-- role_filters has no unique index; the filter is absent where the program passes -1.
unfoldable pub insert_into_role_filters : ℕ → Option ℕ → Db → Outcome Unit
insert_into_role_filters role none db = violation foreign_key_violation db
insert_into_role_filters role (some filter) db =
    if not (any (λ r. r.id == role) db.roles && any (λ f. f.id == filter) db.filters)
    then violation foreign_key_violation db
    else let row : RoleFilterRow = record { role = role; filter = filter } in
      rows tt (record db { role_filters = row ∷ db.role_filters })

unfoldable pub delete_from_role_filters : (RoleFilterRow → Bool) → Db → Db
delete_from_role_filters p db = record db { role_filters = drop_all p db.role_filters }

-- CREATE UNIQUE INDEX name_uindex ON roles (name, sig); what the statement leaves out has the
-- schema's default.
unfoldable pub insert_into_roles : Bool → Bool → Str → Str → Str → Bool → Db → Outcome ℕ
insert_into_roles sig joinable name role_nick chat_type sync db =
    let db' : Db = record db { roles_next = suc db.roles_next } in
    let row : RoleRow = record {
      id = db.roles_next;
      color = 0;
      hoist = false;
      joinable = joinable;
      managed = true;
      mentionable = true;
      name = name;
      permissions = 0;
      position = 0;
      role_nick = role_nick;
      sig = sig;
      sync = sync;
      chat_type = chat_type;
      chat_id = 0;
    } in
    if not (fits 256 name && fits 70 role_nick && fits 32 chat_type)
    then violation string_too_long db'
    else if any (λ r. r.name == name && r.sig == sig) db.roles
    then violation unique_violation db'
    else rows db.roles_next (record db' { roles = row ∷ db.roles })

-- A role's role filters go with it (ON DELETE CASCADE).
unfoldable pub delete_from_roles : (RoleRow → Bool) → Db → Db
delete_from_roles p db =
    let gone : ℕ → Bool = λ n. any (λ r. p r && r.id == n) db.roles in
    record db {
      roles = drop_all p db.roles;
      role_filters = drop_all (λ r. gone r.role) db.role_filters;
    }

-- UPDATE roles SET chat_id, id: an id is a primary key, and role_filters refers to it.
unfoldable pub update_roles : Option ℕ → Option ℕ → (RoleRow → Bool) → Db → Outcome Unit
update_roles chat_id none p db =
    let set : RoleRow → RoleRow = λ r.
      if p r then record r { chat_id = elim chat_id [ none ↦ r.chat_id | some c ↦ c ] } else r in
    rows tt (record db { roles = map set db.roles })
update_roles chat_id (some id) p db =
    let set : RoleRow → RoleRow = λ r.
      if p r
      then record r { chat_id = elim chat_id [ none ↦ r.chat_id | some c ↦ c ]; id = id }
      else r in
    if ltb 1 (count p db.roles) || any (λ r. not (p r) && r.id == id) db.roles
    then violation unique_violation db
    else if any (λ rf. any (λ r. p r && r.id == rf.role && not (r.id == id)) db.roles)
        db.role_filters
    then violation foreign_key_violation db
    else rows tt (record db { roles = map set db.roles })
