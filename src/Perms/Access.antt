-- ===== src/Perms/Access.antt =====
-- What internal/perms lets happen: who passes the guard, and what AddMember does to the tables.
use chremoas_ng.Base.{
  ℕ, ◌≤◌, arith, ◌≡◌, refl, ◌∙◌, Bool, true, false, ◌&&◌, some, List, [], ◌∷◌, ◌==◌, nat_eq,
  bytes_eq, if◌then◌else◌, any, keep, All, inl, inr, Bool-cases,
}
use chremoas_ng.Base.Text.{Str}
use chremoas_ng.Database.{
  Db, PermissionRow, PermissionMembershipRow, outcome_db, insert_into_permission_membership,
}
use chremoas_ng.Database.Invariant.{IsValid, IsGiven}
use chremoas_ng.World.{World, Env, ok, err, done, tick, pure, no_permission}
use chremoas_ng.World.Runs.{IsCalm, check-ok, check-err}
use chremoas_ng.Storage.Runs.{
  get_permission-found, get_permission-missing, get_permission_count-run,
}
use chremoas_ng.World.Keeps.{final, Keeps, Respects, keeps_rules}
use chremoas_ng.Common.Keeps.{extract_user_id-Keeps, get_username-Keeps}
use chremoas_ng.Storage.Permissions.{
  get_permission, insert_permission_membership, get_permission_count, permission_of_id,
}
use chremoas_ng.Perms.{
  auth_web, can_perform, guarded, add_member, no_rights, not_permitted, not_a_user,
}

-- The memberships are `ms`, and no permission has the id 0.
record Fixed (ms : List PermissionMembershipRow) (db : Db) : Type 0 where
  members : db.permission_membership ≡ ms
  no_zero : any (λ p. p.id == 0) db.permissions ≡ false

no_given_zero :
    (next : ℕ) (ps : List PermissionRow)
    → All (λ p. IsGiven next p.id) ps
    → any (λ p. p.id == 0) ps ≡ false
no_given_zero next [] h = refl
no_given_zero next (p ∷ ps) h =
    let given : 1 ≤ p.id = h.0.0 in
    let others : any (λ q. q.id == 0) ps ≡ false = no_given_zero next ps h.1 in
    rw (others) (ground arith)

module _ (ms : List PermissionMembershipRow) where
  insert_zero-Respects : (u : ℕ) → Respects (Fixed ms) (insert_into_permission_membership 0 u)
  unfolding insert_into_permission_membership
  insert_zero-Respects u = record {
    at = λ db h.
        elim (Bool-cases
          (any (λ m. m.permission == 0 && m.user_id == u) db.permission_membership)) [
            | inl held ↦ rw (held, outcome_db) h
            | inr new ↦ rw (new, h.no_zero, outcome_db) h
          ];
  }

  module _ (env : Env) where
    get_permission-Fixed : (name : Str) → Keeps (Fixed ms) (get_permission env name)
    unfolding get_permission
    get_permission-Fixed name = search keeps_rules

    get_permission_count-Fixed :
        (author : Str) (id : ℕ) → Keeps (Fixed ms) (get_permission_count env author id)
    unfolding get_permission_count
    get_permission_count-Fixed author id = search keeps_rules

    insert_zero-Fixed : (user : Str) → Keeps (Fixed ms) (insert_permission_membership env 0 user)
    unfolding insert_permission_membership
    insert_zero-Fixed user = search (keeps_rules, insert_zero-Respects)

    can_perform-Fixed :
        (author permission : Str) → Keeps (Fixed ms) (can_perform env author permission)
    unfolding can_perform
    can_perform-Fixed author permission =
        search (keeps_rules, get_permission-Fixed, get_permission_count-Fixed) depth 8

    add_member-Fixed :
        (user permission author : Str) → Keeps (Fixed ms) (add_member env user permission author)
    unfolding add_member guarded no_rights not_permitted not_a_user
    add_member-Fixed user permission author =
        search
          (
            keeps_rules, extract_user_id-Keeps, get_username-Keeps, can_perform-Fixed,
            get_permission-Fixed, insert_zero-Fixed,
          )
          depth 16

-- AddMember never adds anybody: on tables that satisfy the schema's constraints it ends with the
-- memberships it began with, whoever calls it, with or without faults.
pub add_member_adds_nobody :
    (env : Env) (user permission author : Str) (w : World)
    → IsValid w.db
    → (final (add_member env user permission author w)).db.permission_membership
      ≡ w.db.permission_membership
add_member_adds_nobody env user permission author w h =
    ((add_member-Fixed w.db.permission_membership env user permission author).at w (record {
      members = refl;
      no_zero = no_given_zero w.db.permissions_next w.db.permissions h.permissions.given;
    })).members

keep-found :
    (p : PermissionRow → Bool) (xs : List PermissionRow)
    → any p xs ≡ elim (keep p xs) [ [] ↦ false | x ∷ l ↦ true ]
keep-found p [] = refl
keep-found p (x ∷ xs) = elim (Bool-cases (p x)) [
  | inl e ↦ rw (e) refl
  | inr e ↦ rw (e) (keep-found p xs)
]

either_way : (b : Bool) (w : World) → (if b then pure (ok tt) else pure (ok tt)) w ≡ done (ok tt) w
unfolding pure
either_way true w = refl
either_way false w = refl

module _ (env : Env) (author permission : Str) (u : ℕ) (w : World) where
  after_lookup :
      (found : List PermissionRow)
      → IsCalm env
      → (author == auth_web) ≡ false
      → env.bigint author ≡ some u
      → keep (λ p. p.name == permission) w.db.permissions ≡ found
      → can_perform env author permission w ≡ (
          if elim found [ [] ↦ false | x ∷ l ↦ true ]
          then done (ok tt) (tick (tick w))
          else done (err no_permission) (tick w))
  unfolding can_perform pure permission_of_id
  after_lookup [] calm other number e =
      rw (can_perform, other)
        (check-err _ _ _ w (tick w) no_permission (get_permission-missing env calm permission w e))
  after_lookup (p ∷ ps) calm other number e =
      rw (can_perform, other)
        (check-ok _ _ _ w (tick w) _ (get_permission-found env calm permission w p ps e)
          ∙ check-ok _ _ _ (tick w) (tick (tick w)) _
              (get_permission_count-run env calm author p.id u (tick w) number)
          ∙ either_way _ (tick (tick w)))

  -- Without faults, an author with a readable id who is not the web front end may do whatever a
  -- permission that exists allows, a member of it or not; only a permission that does not exist
  -- refuses.
  pub can_perform_ignores_members :
      IsCalm env
      → (author == auth_web) ≡ false
      → env.bigint author ≡ some u
      → can_perform env author permission w ≡ (
          if any (λ p. p.name == permission) w.db.permissions
          then done (ok tt) (tick (tick w))
          else done (err no_permission) (tick w))
  can_perform_ignores_members calm other number =
      rw (keep-found (λ p. p.name == permission) w.db.permissions)
        (after_lookup (keep (λ p. p.name == permission) w.db.permissions) calm other number refl)
