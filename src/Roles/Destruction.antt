-- ===== src/Roles/Destruction.antt =====
-- Destroy (internal/roles/roles.go): what goes and what stays.
use chremoas_ng.Base.{
  ℕ, suc, ◌≤◌, arith, ◌≡◌, refl, sym, ap, ◌∙◌, Bool, true, false, ◌&&◌, ◌||◌, some, List, [], ◌∷◌,
  ◌++◌, ◌==◌, nat_eq, bytes_eq, bool_eq, any, All, keep, drop_all, Bool-cases, inl, inr,
}
use chremoas_ng.Base.Search.{any_mono}
use chremoas_ng.Base.Text.{Str, decimal, is_empty}
use chremoas_ng.Payloads.{Action, RoleFilter, RolePayload, zero_role}
use chremoas_ng.Database.{
  Db, FilterRow, MembershipRow, RoleRow, RoleFilterRow, delete_from_filters,
  delete_from_filter_membership, delete_from_role_filters, delete_from_roles, rows,
}
use chremoas_ng.Database.Invariant.{IsValid, IsGiven}
use chremoas_ng.World.{World, Env, done, pure, tick, query, execute, ok}
use chremoas_ng.World.Runs.{IsCalm, query-rows, query-select, check-ok, bind-done, then-done}
use chremoas_ng.Common.Session.{publish_role}
use chremoas_ng.Storage.Filters.{delete_filter_membership, delete_filter_by_id}
use chremoas_ng.Storage.RoleFilters.{
  role_filter_of, joined_filters, get_role_filters, delete_role_filter,
}
use chremoas_ng.Storage.Roles.{synced_role, found_role, get_role, delete_role_loop, delete_role}
use chremoas_ng.Roles.Helpers.{queue_update}
use chremoas_ng.Roles.Changes.{destroyed, destroy}

drop_all-none {ℓ} :
    {A : Type ℓ} (p : A → Bool) (xs : List A) → any p xs ≡ false → drop_all p xs ≡ xs
drop_all-none p [] h = refl
drop_all-none p (x ∷ xs) h = rw (head_out, drop_all-none p xs tail_out) refl
  where
    head_out : p x ≡ false
    head_out = ground (arith, h)

    tail_out : any p xs ≡ false
    tail_out = ground (arith, h)

-- No filter has the id 0, and nothing refers to one.
no_zero_filter :
    (fs : List FilterRow) (next : ℕ)
    → All (λ f. IsGiven next f.id) fs
    → any (λ f. f.id == 0) fs ≡ false
no_zero_filter [] next h = refl
no_zero_filter (f ∷ fs) next h =
    let given : 1 ≤ f.id = h.0.0 in ground (arith, no_zero_filter fs next h.1)

false_is_true : false ≡ true → ⊥
false_is_true e = cc

unreferred {ℓ} :
    {B : Type ℓ} (key : B → ℕ) (fs : List FilterRow) (bs : List B)
    → any (λ f. f.id == 0) fs ≡ false
    → All (λ b. any (λ f. f.id == key b) fs ≡ true) bs
    → any (λ b. key b == 0) bs ≡ false
unreferred key fs [] none_zero h = refl
unreferred key fs (b ∷ bs) none_zero h = elim (Bool-cases (key b == 0)) [
  | inr other ↦ ground (arith, other, unreferred key fs bs none_zero h.1)
  | inl zero_key ↦ cannot zero_key
]
  where
    cannot : (key b == 0) ≡ true → any (λ c. key c == 0) (b ∷ bs) ≡ false
    cannot zero_key =
        let is_zero : key b ≡ 0 = ground arith in
        let found : any (λ f. f.id == 0) fs ≡ true =
          ap (λ k. any (λ f. f.id == k) fs) (sym is_zero) ∙ h.0 in
        absurd (false_is_true (sym none_zero ∙ found))

keep-congr {ℓ} :
    {A : Type ℓ} (p q : A → Bool) (xs : List A) → ((x : A) → p x ≡ q x) → keep p xs ≡ keep q xs
keep-congr p q [] same = refl
keep-congr p q (x ∷ xs) same = rw (same x, keep-congr p q xs same) refl

joined-zero :
    (p : RoleRow → Bool) (roles : List RoleRow) (rfs : List RoleFilterRow)
    → All (λ rf. rf.id ≡ 0) (joined_filters p roles rfs)
unfolding joined_filters role_filter_of
joined-zero p roles [] = tt
joined-zero p roles (rf ∷ rfs) = elim (Bool-cases (any (λ r. p r && r.id == rf.role) roles)) [
  | inl joined ↦ rw joined (refl, joined-zero p roles rfs)
  | inr apart ↦ rw apart (joined-zero p roles rfs)
]

module _ (env : Env) (calm : IsCalm env) where
  executed :
      (f : Db → Db) (w : World) → f w.db ≡ w.db → query env (execute f) w ≡ done (ok tt) (tick w)
  executed f w same = query-rows env (execute f) w tt w.db calm (ap (rows tt) same)

  no_members :
      (w : World) → IsValid w.db → delete_filter_membership env 0 [] w ≡ done (ok tt) (tick w)
  unfolding delete_filter_membership delete_from_filter_membership
  no_members w v = executed (delete_from_filter_membership (λ m. m.filter == 0)) w (
      ap (λ ms. record w.db { filter_membership = ms })
        (drop_all-none _ w.db.filter_membership (
          unreferred (λ (m : MembershipRow). m.filter) w.db.filters w.db.filter_membership
            (no_zero_filter w.db.filters w.db.filters_next v.filters.given) v.membership.known)))

  no_role_filters : (w : World) → IsValid w.db → delete_role_filter env 0 w ≡ done (ok tt) (tick w)
  unfolding delete_role_filter delete_from_role_filters
  no_role_filters w v = executed (delete_from_role_filters (λ rf. rf.filter == 0)) w (
      ap (λ rfs. record w.db { role_filters = rfs })
        (drop_all-none _ w.db.role_filters (
          unreferred (λ (rf : RoleFilterRow). rf.filter) w.db.filters w.db.role_filters
            (no_zero_filter w.db.filters w.db.filters_next v.filters.given)
            v.role_filters.known_filters)))

  never_gone :
      (n : ℕ) (fs : List FilterRow)
      → any (λ f. f.id == 0) fs ≡ false
      → any (λ f. f.id == 0 && f.id == n) fs ≡ false
  never_gone n fs = any_mono _ _ fs (λ f h. ground (arith, h))

  none_gone {ℓ} :
      {B : Type ℓ} (key : B → ℕ) (fs : List FilterRow) (bs : List B)
      → any (λ f. f.id == 0) fs ≡ false
      → any (λ b. any (λ f. f.id == 0 && f.id == key b) fs) bs ≡ false
  none_gone key fs [] h = refl
  none_gone key fs (b ∷ bs) h = rw (never_gone (key b) fs h) (none_gone key fs bs h)

  zero_filter_stays : (db : Db) → IsValid db → delete_from_filters (λ f. f.id == 0) db ≡ db
  unfolding delete_from_filters
  zero_filter_stays db v =
      let no_zero = no_zero_filter db.filters db.filters_next v.filters.given in
      rw (
        delete_from_filters,
        drop_all-none (λ (f : FilterRow). f.id == 0) db.filters no_zero,
        drop_all-none _ db.filter_membership
            (none_gone (λ (m : MembershipRow). m.filter) db.filters db.filter_membership no_zero),
        drop_all-none _ db.role_filters
            (none_gone (λ (rf : RoleFilterRow). rf.filter) db.filters db.role_filters no_zero),
      )

  no_filter_deleted :
      (w : World) → IsValid w.db → delete_filter_by_id env 0 w ≡ done (ok tt) (tick (tick (tick w)))
  unfolding delete_filter_by_id
  no_filter_deleted w v =
      check-ok _ _ _ w (tick w) tt (no_members w v)
      ∙ check-ok _ _ _ (tick w) (tick (tick w)) tt (no_role_filters (tick w) v)
      ∙ executed (delete_from_filters (λ f. f.id == 0)) (tick (tick w)) (zero_filter_stays w.db v)

  -- The loop of DeleteRole passes the id 0 each time, which deletes nothing.
  loop_deletes_nothing :
      (rfs : List RoleFilter) (w : World)
      → All (λ rf. rf.id ≡ 0) rfs
      → IsValid w.db
      → (c : ℕ) × (delete_role_loop env rfs w ≡ done tt (record w { clock = c }))
  unfolding delete_role_loop pure
  loop_deletes_nothing [] w zeros v = (w.clock, refl)
  loop_deletes_nothing (rf ∷ rfs) w zeros v =
      let w1 = tick w in
      let w4 = tick (tick (tick w1)) in
      let w5 = tick w4 in
      let rest = loop_deletes_nothing rfs w5 zeros.1 v in
      (
        rest.0,
        bind-done _ _ w w1 (ok tt) (rw zeros.0 (no_members w v))
            ∙ bind-done _ _ w1 w4 (ok tt) (rw zeros.0 (no_filter_deleted w1 v))
            ∙ bind-done _ _ w4 w5 (ok tt) (rw zeros.0 (no_role_filters w4 v))
            ∙ rest.1,
      )

  -- The test by which a role is found.
  abbrev pub is_called : Str → Bool → RoleRow → Bool
  is_called ticker sig r = r.role_nick == ticker && r.sig == sig

  get_role-run :
      (ticker : Str) (sig : Bool) (w : World) (r : RoleRow) (rest : List RoleRow)
      → is_empty ticker ≡ false
      → keep (is_called ticker sig) w.db.roles ≡ r ∷ rest
      → get_role env [] ticker (some sig) w ≡ done (ok (synced_role r)) (tick w)
  unfolding get_role pure found_role synced_role
  get_role-run ticker sig w r rest named found =
      let wanted : RoleRow → Bool = λ s.
        (is_empty [] || s.name == [])
        && (is_empty ticker || s.role_nick == ticker)
        && s.sig == sig in
      let same : (s : RoleRow) → wanted s ≡ is_called ticker sig s = λ s. rw named (ground arith) in
      check-ok _ _ _ w (tick w) (r ∷ rest) (
        query-select env (λ db. keep wanted db.roles) w calm
        ∙ ap (λ rs. done (ok rs) (tick w))
            (keep-congr wanted (is_called ticker sig) w.db.roles same ∙ found))

  -- The role and its role filters are gone; nothing else is.
  delete_role-run :
      (ticker : Str) (sig : Bool) (w : World)
      → IsValid w.db
      → (c : ℕ) × (delete_role env ticker sig w
          ≡ done
              (ok tt)
              (record w { db = delete_from_roles (is_called ticker sig) w.db; clock = c }))
  unfolding delete_role get_role_filters
  delete_role-run ticker sig w v =
      let zeros =
        joined-zero (λ r. r.sig == sig && r.role_nick == ticker) w.db.roles w.db.role_filters in
      let looped = loop_deletes_nothing _ (tick w) zeros v in
      let w1 : World = record w { clock = looped.0 } in
      (
        suc looped.0,
        check-ok _ _ _ w (tick w) _ (
              query-select env
                (λ db.
                  joined_filters (λ r. r.sig == sig && r.role_nick == ticker) db.roles
                    db.role_filters)
                w calm)
            ∙ then-done _ _ (tick w) w1 tt looped.1
            ∙ query-rows env (execute (delete_from_roles (is_called ticker sig))) w1 tt _ calm refl,
      )

  -- The message that has Discord delete a role.
  abbrev pub deletion : RoleRow → RolePayload
  deletion r = record {
    action = Action.delete;
    guild_id = env.guild_id;
    role = record zero_role { id = decimal r.chat_id };
    correlation_id = env.correlation_id;
  }

  queue_update-run :
      (r : RoleRow) (w : World)
      → queue_update env (record zero_role { id = decimal r.chat_id }) Action.delete w
        ≡ done (ok tt) (record (tick w) { roles_queue = w.roles_queue ++ (deletion r ∷ []) })
  unfolding queue_update publish_role pure
  queue_update-run r w =
      check-ok _ _ _ w (record (tick w) { roles_queue = w.roles_queue ++ (deletion r ∷ []) }) tt
        (rw (publish_role, calm.publish w.clock) refl)

  -- Without faults, on tables that satisfy the constraints, Destroy of a ticker that a role of the
  -- kind has deletes the roles of that ticker and kind with their role filters, queues one message
  -- that has Discord delete the first one's chat id, and changes no other table: the filter that
  -- Add made for the role stays, with its members.
  pub destroy_leaves_filters :
      (sig : Bool) (ticker : Str) (w : World) (r : RoleRow) (rest : List RoleRow)
      → is_empty ticker ≡ false
      → keep (is_called ticker sig) w.db.roles ≡ r ∷ rest
      → IsValid w.db
      → (c : ℕ) × (destroy env sig ticker w
          ≡ done (destroyed sig ticker) (record w {
            db = delete_from_roles (is_called ticker sig) w.db;
            clock = c;
            roles_queue = w.roles_queue ++ (deletion r ∷ []);
          }))
  unfolding destroy pure synced_role
  destroy_leaves_filters sig ticker w r rest named found v =
      let deleted = delete_role-run ticker sig (tick w) v in
      let w1 : World = record w {
        db = delete_from_roles (is_called ticker sig) w.db;
        clock = deleted.0;
      } in
      (
        suc deleted.0,
        rw (destroy, named)
            (check-ok _ _ _ w (tick w) (synced_role r)
                (get_role-run ticker sig w r rest named found)
              ∙ check-ok _ _ _ (tick w) w1 tt deleted.1
              ∙ check-ok _ _ _ w1 _ tt (queue_update-run r w1)),
      )
