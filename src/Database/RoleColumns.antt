-- ===== src/Database/RoleColumns.antt =====
-- UPDATE roles SET column = text, … on the table of sql/001_initialize_schema.up.sql: what the server
-- makes of the texts that UpdateRoleValues sends. The two columns of timestamps are
-- not in the rows, and are refused here as columns that do not exist.
use chremoas_ng.Base.{
  ℕ, Bool, true, ◌&&◌, not, Option, none, some, List, [], ◌∷◌, map, ◌==◌, nat_eq, bytes_eq, bool_eq,
  if◌then◌else◌, any,
}
use chremoas_ng.Base.Text.{Str, lit}
use chremoas_ng.Database.Rows.{RoleRow, Db, PgCode, Outcome, rows, violation, fits}

-- What one or more assignments come to: an error of the statement, or a change of a row.
pub data Assignment : Type 0 where
  refused : PgCode → Assignment
  changing : (RoleRow → RoleRow) → Assignment

-- A text that is read as a value of the column's type.
unfoldable pub read_as : {A : Type 0} → Option A → (A → RoleRow → RoleRow) → Assignment
read_as none set = refused PgCode.invalid_text
read_as (some v) set = changing (set v)

-- How the server reads a text as an INT, as a BIGINT and as a Boolean.
module _ (int bigint : Str → Option ℕ) (bool : Str → Option Bool) where
  unfoldable pub assignment : Str → Str → Assignment
  unfolding read_as
  assignment column v =
      if column == lit "name"
      then changing (λ r. record r { name = v })
      else if column == lit "role_nick"
      then changing (λ r. record r { role_nick = v })
      else if column == lit "color"
      then read_as (int v) (λ n r. record r { color = n })
      else if column == lit "position"
      then read_as (int v) (λ n r. record r { position = n })
      else if column == lit "permissions"
      then read_as (bigint v) (λ n r. record r { permissions = n })
      else if column == lit "hoist"
      then read_as (bool v) (λ b r. record r { hoist = b })
      else if column == lit "joinable"
      then read_as (bool v) (λ b r. record r { joinable = b })
      else if column == lit "managed"
      then read_as (bool v) (λ b r. record r { managed = b })
      else if column == lit "mentionable"
      then read_as (bool v) (λ b r. record r { mentionable = b })
      else if column == lit "sync"
      then read_as (bool v) (λ b r. record r { sync = b })
      else if column == lit "sig"
      then read_as (bool v) (λ b r. record r { sig = b })
      else if column == lit "chat_type"
      then changing (λ r. record r { chat_type = v })
      else if column == lit "chat_id"
      then read_as (bigint v) (λ n r. record r { chat_id = n })
      else if column == lit "id"
      then read_as (bigint v) (λ n r. record r { id = n })
      else refused (PgCode.other_code (lit "42703"))

  unfoldable pub then_assign : Assignment → Assignment → Assignment
  then_assign (refused c) rest = refused c
  then_assign (changing f) (refused c) = refused c
  then_assign (changing f) (changing g) = changing (λ r. g (f r))

  -- A column may be set once.
  unfoldable pub assignments : List (Str × Str) → Assignment
  unfolding assignment then_assign
  assignments [] = changing (λ r. r)
  assignments ((column, v) ∷ values) =
      let rest = assignments values in
      if any (λ e. e.0 == column) values
      then refused (PgCode.other_code (lit "42601"))
      else then_assign (assignment column v) rest

unfoldable pub same_key : RoleRow → RoleRow → Bool
same_key r s = r.name == s.name && r.sig == s.sig

-- No two rows agree on the columns of name_uindex.
unfoldable pub has_unique_keys : List RoleRow → Bool
unfolding same_key
has_unique_keys [] = true
has_unique_keys (r ∷ rs) = not (any (same_key r) rs) && has_unique_keys rs

-- No two rows agree on the primary key.
unfoldable pub has_unique_ids : List RoleRow → Bool
has_unique_ids [] = true
has_unique_ids (r ∷ rs) = not (any (λ s. s.id == r.id) rs) && has_unique_ids rs

-- Each link is from a role that is there.
unfoldable pub has_linked_roles : List RoleRow → Db → Bool
has_linked_roles rs db = not (any (λ l. not (any (λ r. r.id == l.role) rs)) db.role_filters)

unfoldable pub set_columns : Assignment → (RoleRow → Bool) → Db → Outcome Unit
unfolding has_unique_keys has_unique_ids has_linked_roles
set_columns (refused c) p db = violation c db
set_columns (changing f) p db =
    let changed : List RoleRow = map (λ r. if p r then f r else r) db.roles in
    if any
      (λ r. p r && not (fits 256 (f r).name && fits 70 (f r).role_nick && fits 32 (f r).chat_type))
      db.roles
    then violation PgCode.string_too_long db
    else if not (has_unique_keys changed && has_unique_ids changed)
    then violation PgCode.unique_violation db
    else if has_linked_roles changed db
    then rows tt (record db { roles = changed })
    else violation PgCode.foreign_key_violation db
