-- ===== src/Database/AllFilters.antt =====
-- The PL/pgSQL function getMemberRoles (sql/*getMemberRoles.up.sql) compares two counts. Here: what
-- the comparison means.
use chremoas_ng.Base.{
  ℕ, ◌+◌, ◌<◌, ◌≡◌, ◌∙◌, Bool, true, false, ◌&&◌, ◌||◌, not, List, [], ◌∷◌, arith, Bool-cases, inl,
  inr, if◌then◌else◌, ltb, ◌==◌, nat_eq, any, count, Unique,
}
use chremoas_ng.Base.Search.{
  any_mono, count_never, count-eq-zero, count-congr, count-or, count-Unique, count-and-le,
  count-and-eq, count-and-lt, count-pos,
}
use chremoas_ng.Database.{MembershipRow, RoleRow, RoleFilterRow, Db, has_role}

-- The columns of filter_membership_uindex.
abbrev pub same_member : MembershipRow → MembershipRow → Bool
same_member m n = m.filter == n.filter && m.user_id == n.user_id

-- The columns of a role filter, which no index keeps apart.
abbrev pub same_role_filter : RoleFilterRow → RoleFilterRow → Bool
same_role_filter a b = a.role == b.role && a.filter == b.filter

abbrev pub is_member : List MembershipRow → ℕ → ℕ → Bool
is_member ms user filter = any (λ m. m.filter == filter && m.user_id == user) ms

-- The intended meaning: the role has a filter, and the user is in each of them.
pub meets_all_filters : Db → ℕ → ℕ → Bool
meets_all_filters db user role =
    any (λ rf. rf.role == role) db.role_filters
    && not (
        any (λ rf. rf.role == role && not (is_member db.filter_membership user rf.filter))
          db.role_filters)

module _ (role user : ℕ) where
  abbrev listed : List RoleFilterRow → ℕ → Bool
  listed rfs filter = any (λ rf. rf.role == role && rf.filter == filter) rfs

  abbrev matched : List RoleFilterRow → List MembershipRow → ℕ
  matched rfs ms = count (λ m. listed rfs m.filter && m.user_id == user) ms

  pub one_membership :
      (filter : ℕ) (ms : List MembershipRow)
      → Unique same_member ms
      → count (λ m. m.filter == filter && m.user_id == user) ms
        ≡ (if is_member ms user filter then 1 else 0)
  one_membership filter ms u =
      count-Unique same_member (λ m. m.filter == filter && m.user_id == user) ms u
        (λ m n hm hn. ground arith)

  unlisted :
      (rf : RoleFilterRow) (rfs : List RoleFilterRow)
      → any (same_role_filter rf) rfs ≡ false
      → (rf.role == role) ≡ true
      → (filter : ℕ) → (filter == rf.filter) ≡ true
      → listed rfs filter ≡ false
  unlisted rf rfs alone mine filter same =
      any_mono (λ x. x.role == role && x.filter == filter) (same_role_filter rf) rfs
        (λ x h. ground arith) alone

  -- One more role filter: the rows under it, and the rows under the others.
  matched-cons :
      (rf : RoleFilterRow) (rfs : List RoleFilterRow) (ms : List MembershipRow)
      → any (same_role_filter rf) rfs ≡ false
      → (rf.role == role) ≡ true
      → count (λ m. (rf.filter == m.filter || listed rfs m.filter) && m.user_id == user) ms
        ≡ count (λ m. m.filter == rf.filter && m.user_id == user) ms + matched rfs ms
  matched-cons rf rfs ms alone mine =
      count-congr _
        (λ m.
          m.filter == rf.filter && m.user_id == user || listed rfs m.filter && m.user_id == user)
        ms (λ m. ground arith)
      ∙ count-or _ _ ms (λ m h. ground (arith, unlisted rf rfs alone mine m.filter))

  -- Counting a user's rows under a role's filters is counting the role's filters that have a row.
  matched-eq-count :
      (rfs : List RoleFilterRow) (ms : List MembershipRow)
      → Unique same_role_filter rfs
      → Unique same_member ms
      → matched rfs ms ≡ count (λ rf. rf.role == role && is_member ms user rf.filter) rfs
  matched-eq-count [] ms u v = count_never ms
  matched-eq-count (rf ∷ rfs) ms u v = elim (Bool-cases (rf.role == role)) [
    | inr other ↦ rw other (omega (arith, matched-eq-count rfs ms u.1 v))
    | inl mine ↦ rw mine (
        omega (
          arith,
          matched-cons rf rfs ms u.0 mine,
          one_membership rf.filter ms v,
          matched-eq-count rfs ms u.1 v,
        ))
  ]

-- The comparison of the counts, over any list and tests.
compare_counts {ℓ} :
    {A : Type ℓ} (p q : A → Bool) (xs : List A) (n user : ℕ)
    → n ≡ count (λ x. p x && q x) xs
    → 0 < user
    → (ltb 0 n && n == count p xs && ltb 0 user)
      ≡ (any p xs && not (any (λ x. p x && not (q x)) xs))
compare_counts p q xs n user e pos = elim (Bool-cases (any p xs)) [
  | inr no_filter ↦ rw no_filter (ground (arith, count-and-le p q xs, count-eq-zero p xs no_filter))
  | inl has_filter ↦ elim (Bool-cases (any (λ x. p x && not (q x)) xs)) [
    | inl missing ↦ rw (has_filter, missing) (ground (arith, count-and-lt p q xs missing))
    | inr complete ↦
        rw (has_filter, complete)
          (ground (arith, count-and-eq p q xs complete, count-pos p xs has_filter))
  ]
]

-- A user has a role exactly if the role has a filter and the user is in all of its filters. It is
-- stated for a positive user id, and tables in which no membership and no role filter is twice.
pub has_role-eq-meets_all_filters :
    (db : Db) (user : ℕ) (role : RoleRow)
    → 0 < user
    → Unique same_member db.filter_membership
    → Unique same_role_filter db.role_filters
    → has_role db user role ≡ meets_all_filters db user role.id
unfolding has_role meets_all_filters
has_role-eq-meets_all_filters db user role pos u v =
    compare_counts (λ rf. rf.role == role.id) (λ rf. is_member db.filter_membership user rf.filter)
      db.role_filters _ user
      (matched-eq-count role.id user db.role_filters db.filter_membership v u) pos
