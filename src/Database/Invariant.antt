-- ===== src/Database/Invariant.antt =====
-- The constraints of sql/*.sql as an invariant of the tables.
use chremoas_ng.Base.{
  ℕ, ◌≤◌, ◌<◌, ◌≡◌, Bool, true, ◌&&◌, List, Option, none, some, ◌==◌, nat_eq, bool_eq, bytes_eq,
}
use chremoas_ng.Base.{any, All, Unique}
use chremoas_ng.Base.Text.{Str}
use chremoas_ng.Database.{
  FilterRow, MembershipRow, RoleRow, RoleFilterRow, PermissionRow, PermissionMembershipRow, Db,
  AllianceRow, CharacterRow, CodeRow, CharacterMapRow, AuthDb,
}
use chremoas_ng.Database.AllFilters.{same_member}

-- An id that a sequence has given out; BIGSERIAL starts at 1.
abbrev pub IsGiven : ℕ → ℕ → Type 0
IsGiven next id = (1 ≤ id) × (id < next)

-- A table with a BIGSERIAL key and a unique index, which `same` compares.
pub record TableValid {ℓ} {A : Type ℓ} (id : A → ℕ) (same : A → A → Bool) (rows : List A) (next : ℕ)
    : Type 0 where
  pub ids : Unique (λ x y. id x == id y) rows
  pub index : Unique same rows
  pub given : All (λ x. IsGiven next (id x)) rows
  pub started : 1 ≤ next

pub record MembershipValid (ms : List MembershipRow) (filters : List FilterRow) : Type 0 where
  pub pairs : Unique same_member ms
  pub known : All (λ m. any (λ f. f.id == m.filter) filters ≡ true) ms

pub record RoleFiltersValid (rfs : List RoleFilterRow) (roles : List RoleRow)
    (filters : List FilterRow) : Type 0 where
  pub known_roles : All (λ rf. any (λ r. r.id == rf.role) roles ≡ true) rfs
  pub known_filters : All (λ rf. any (λ f. f.id == rf.filter) filters ≡ true) rfs

abbrev pub same_holder : PermissionMembershipRow → PermissionMembershipRow → Bool
same_holder m n = m.permission == n.permission && m.user_id == n.user_id

pub record HoldersValid (ms : List PermissionMembershipRow) (ps : List PermissionRow) : Type 0 where
  pub pairs : Unique same_holder ms
  pub known : All (λ m. any (λ p. p.id == m.permission) ps ≡ true) ms

-- A table whose ids are given from outside, with names and tickers that are unique.
pub record NamedValid {ℓ} {A : Type ℓ} (id : A → ℕ) (name ticker : A → Str) (rows : List A)
    : Type 0 where
  pub ids : Unique (λ x y. id x == id y) rows
  pub names : Unique (λ x y. name x == name y) rows
  pub tickers : Unique (λ x y. ticker x == ticker y) rows

-- A corporation may be in no alliance.
abbrev pub refers_to : List AllianceRow → Option ℕ → Bool
refers_to alliances none = true
refers_to alliances (some id) = any (λ a. a.id == id) alliances

abbrev pub same_code : CodeRow → CodeRow → Bool
same_code c d = c.character_id == d.character_id && c.code == d.code

abbrev pub same_mapping : CharacterMapRow → CharacterMapRow → Bool
same_mapping m n = m.chat_id == n.chat_id && m.character_id == n.character_id

abbrev pub has_character : List CharacterRow → ℕ → Bool
has_character characters id = any (λ c. c.id == id) characters

pub record AuthValid (db : AuthDb) : Type 0 where
  pub alliances : NamedValid (λ a. a.id) (λ a. a.name) (λ a. a.ticker) db.alliances
  pub corporations : NamedValid (λ c. c.id) (λ c. c.name) (λ c. c.ticker) db.corporations
  pub known_alliances : All (λ c. refers_to db.alliances c.alliance_id ≡ true) db.corporations
  pub characters : Unique (λ c d. c.id == d.id) db.characters
  pub character_names : Unique (λ c d. c.name == d.name) db.characters
  pub known_corporations :
      All (λ c. any (λ k. k.id == c.corporation_id) db.corporations ≡ true) db.characters
  pub codes : Unique same_code db.codes
  pub known_code_owners : All (λ c. has_character db.characters c.character_id ≡ true) db.codes
  pub mapped : Unique same_mapping db.user_character_map
  pub known_mapped :
      All (λ m. has_character db.characters m.character_id ≡ true) db.user_character_map

pub record IsValid (db : Db) : Type 0 where
  pub filters : TableValid (λ f. f.id) (λ f g. f.name == g.name) db.filters db.filters_next
  pub membership : MembershipValid db.filter_membership db.filters
  pub roles :
      TableValid (λ r. r.id) (λ r s. r.name == s.name && r.sig == s.sig) db.roles db.roles_next
  pub role_filters : RoleFiltersValid db.role_filters db.roles db.filters
  pub permissions :
      TableValid (λ p. p.id) (λ p q. p.name == q.name) db.permissions db.permissions_next
  pub holders : HoldersValid db.permission_membership db.permissions
  pub auth : AuthValid db.auth
