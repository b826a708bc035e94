-- ===== src/Database/MemberRoles.antt =====
-- sql/*getMemberRoles*: the PL/pgSQL function that decides which roles a user has.
use chremoas_ng.Base.{ℕ, Bool, ◌&&◌, List, ◌==◌, nat_eq, bool_eq, any, keep, count, ltb}
use chremoas_ng.Database.Rows.{RoleRow, Db}

-- SELECT filter FROM role_filters WHERE role = _role.id, as a test.
abbrev pub in_role_filters : Db → ℕ → ℕ → Bool
in_role_filters db role filter = any (λ rf. rf.role == role && rf.filter == filter) db.role_filters

-- SELECT count(*) FROM role_filters WHERE role = _role.id
abbrev pub role_filter_count : Db → ℕ → ℕ
role_filter_count db role = count (λ rf. rf.role == role) db.role_filters

-- The size of the user's group of filter_membership rows under the role's filters.
abbrev pub membership_count : Db → ℕ → ℕ → ℕ
membership_count db role user =
    count (λ m. in_role_filters db role m.filter && m.user_id == user) db.filter_membership

-- The test of the loop's body. A user without rows has no group, so `exists` stays NULL; else
-- it is the user's id, which is compared with 0.
unfoldable pub has_role : Db → ℕ → RoleRow → Bool
has_role db user role =
    let rows = membership_count db role.id user in
    ltb 0 rows && rows == role_filter_count db role.id && ltb 0 user

-- FOR _role IN SELECT * FROM roles WHERE sig = inputSig LOOP … RETURN NEXT _role
unfoldable pub get_member_roles : ℕ → Bool → Db → List RoleRow
unfolding has_role
get_member_roles user sig db = keep (has_role db user) (keep (λ r. r.sig == sig) db.roles)
