-- ===== src/Storage/RoleMembers.antt =====
-- What the query of GetRoleMembers (internal/storage/filter.go) means: the users in all of some
-- filters.
use chremoas_ng.Base.{
  ℕ, suc, ◌≤◌, arith, ◌≡◌, refl, sym, ap, ◌∙◌, Bool, true, false, ◌&&◌, ◌||◌, not, List, [], ◌∷◌,
  ◌==◌, nat_eq, nat_beq_iff, any, keep, count, contains, length, Unique, Bool-cases, inl, inr,
}
use chremoas_ng.Base.Search.{
  any-keep, any-congr, any_mono, count-congr, count-or, count_never, count-eq-zero,
}
use chremoas_ng.Database.{MembershipRow}
use chremoas_ng.Database.AllFilters.{same_member, is_member, one_membership}
use chremoas_ng.Storage.Filters.{group_users, users_in_all}

count-keep {ℓ} :
    {A : Type ℓ} (p q : A → Bool) (xs : List A) → count p (keep q xs) ≡ count (λ x. q x && p x) xs
count-keep p q [] = refl
count-keep p q (x ∷ xs) = ground (arith, count-keep p q xs)

count-le-length {ℓ} : {A : Type ℓ} (p : A → Bool) (xs : List A) → count p xs ≤ length xs
count-le-length p [] = ground arith
count-le-length p (x ∷ xs) = ground (arith, count-le-length p xs)

-- All pass exactly if none fails.
count-eq-length {ℓ} :
    {A : Type ℓ} (p : A → Bool) (xs : List A)
    → (count p xs == length xs) ≡ not (any (λ x. not (p x)) xs)
count-eq-length p [] = refl
count-eq-length p (x ∷ xs) = ground (arith, count-eq-length p xs, count-le-length p xs)

-- A count that is as long as a list which is not empty counts something.
full_then_some :
    (n len : ℕ) (held : Bool) → (held ≡ false → n ≡ 0) → (n == suc len && held) ≡ (n == suc len)
full_then_some n len true empty = ground arith
full_then_some n len false empty = rw (empty refl) (ground arith)

module _ (user : ℕ) where
  same_test : (p : ℕ → Bool) (x : ℕ) → (p x && x == user) ≡ (p user && x == user)
  same_test p x = elim (Bool-cases (x == user)) [
    | inl same ↦ ap (λ y. p y && x == user) ((nat_beq_iff x user).0 same)
    | inr other ↦ rw (other) (ground arith)
  ]

  any-and : (b : Bool) (xs : List ℕ) → any (λ x. b && x == user) xs ≡ (b && contains xs user)
  any-and b [] = ground arith
  any-and b (x ∷ xs) = ground (arith, any-and b xs)

  contains-keep :
      (p : ℕ → Bool) (xs : List ℕ) → contains (keep p xs) user ≡ (p user && contains xs user)
  contains-keep p xs =
      any-keep (λ x. x == user) p xs
      ∙ any-congr (λ x. p x && x == user) (λ x. p user && x == user) xs (same_test p)
      ∙ any-and (p user) xs

  contains-group_users :
      (ms : List MembershipRow) → contains (group_users ms) user ≡ any (λ m. m.user_id == user) ms
  unfolding group_users
  contains-group_users [] = refl
  contains-group_users (m ∷ ms) = elim (Bool-cases (contains (group_users ms) m.user_id)) [
    | inl held ↦ elim (Bool-cases (m.user_id == user)) [
      | inl same ↦
          rw (held, same)
            (ap (contains (group_users ms)) (sym ((nat_beq_iff m.user_id user).0 same)) ∙ held)
      | inr other ↦ rw (held, other) (contains-group_users ms)
    ]
    | inr new ↦ rw (new, contains-group_users ms) refl
  ]

  unlisted :
      (f : ℕ) (fs : List ℕ) (x : ℕ)
      → any (λ y. f == y) fs ≡ false
      → (x == f) ≡ true
      → contains fs x ≡ false
  unlisted f fs x alone same = any_mono (λ y. y == x) (λ y. f == y) fs (λ y h. ground arith) alone

  -- Counting the user's rows under some filters is counting the filters that have the user.
  rows-eq-filters :
      (fs : List ℕ) (ms : List MembershipRow)
      → Unique (λ x y. x == y) fs
      → Unique same_member ms
      → count (λ m. contains fs m.filter && m.user_id == user) ms
        ≡ count (λ f. is_member ms user f) fs
  rows-eq-filters [] ms u v = count_never ms
  rows-eq-filters (f ∷ fs) ms u v =
      let rest = rows-eq-filters fs ms u.1 v in
      count-congr (λ m. contains (f ∷ fs) m.filter && m.user_id == user)
        (λ m. m.filter == f && m.user_id == user || contains fs m.filter && m.user_id == user) ms
        (λ m. ground arith)
      ∙ count-or (λ m. m.filter == f && m.user_id == user)
          (λ m. contains fs m.filter && m.user_id == user) ms
          (λ m h. ground (arith, unlisted f fs m.filter u.0))
      ∙ omega (arith, rest, one_membership 0 user f ms v)

-- For a list of filters that is not empty and names none twice, and a table in which no membership
-- is twice, a user is among the answers exactly if they are in each of the filters.
pub contains-users_in_all :
    (f : ℕ) (fs : List ℕ) (ms : List MembershipRow) (user : ℕ)
    → Unique (λ x y. x == y) (f ∷ fs)
    → Unique same_member ms
    → contains (users_in_all (f ∷ fs) ms) user ≡ not (any (λ g. not (is_member ms user g)) (f ∷ fs))
unfolding users_in_all
contains-users_in_all f fs ms user u v =
    let rows : List MembershipRow = keep (λ m. contains (f ∷ fs) m.filter) ms in
    let total : count (λ m. m.user_id == user) rows ≡ count (λ g. is_member ms user g) (f ∷ fs) =
      count-keep (λ m. m.user_id == user) (λ m. contains (f ∷ fs) m.filter) ms
      ∙ rows-eq-filters user (f ∷ fs) ms u v in
    contains-keep user (λ x. count (λ m. m.user_id == x) rows == length (f ∷ fs)) (group_users rows)
    ∙ rw (contains-group_users user rows, total)
        (full_then_some (count (λ g. is_member ms user g) (f ∷ fs)) (length fs)
            (any (λ m. m.user_id == user) rows)
            (λ e. sym total ∙ count-eq-zero (λ m. m.user_id == user) rows e)
          ∙ count-eq-length (λ g. is_member ms user g) (f ∷ fs))
