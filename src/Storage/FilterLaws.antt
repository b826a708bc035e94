-- ===== src/Storage/FilterLaws.antt =====
-- What internal/storage/filter.go promises when no server fails: a filter that was inserted is
-- found, and nothing refers to a filter that was deleted.
use chremoas_ng.Base.{
  ℕ, suc, arith, ◌≡◌, refl, ◌∙◌, Bool, true, false, ◌&&◌, List, [], ◌∷◌, ◌==◌, nat_eq, bytes_eq,
  bytes_beq_iff, any, keep, drop_all,
}
use chremoas_ng.Base.Text.{Str}
use chremoas_ng.Database.{
  Db, FilterRow, fits, insert_into_filters, delete_from_filters, delete_from_filter_membership,
  delete_from_role_filters,
}
use chremoas_ng.World.{World, Env, done, pure, tick, ok, execute}
use chremoas_ng.World.Runs.{IsCalm, query-rows, check-ok}
use chremoas_ng.Storage.RoleFilters.{delete_role_filter}
use chremoas_ng.Storage.Filters.{
  get_filter, insert_filter, delete_filter, delete_filter_membership, filter_of,
}
use chremoas_ng.Storage.Runs.{get_filter-found}

any-drop_same {ℓ} :
    {A : Type ℓ} (p q : A → Bool) (xs : List A) → any p xs ≡ false → any p (drop_all q xs) ≡ false
any-drop_same p q [] h = refl
any-drop_same p q (x ∷ xs) h = ground (arith, any-drop_same p q xs)

any-drop_self {ℓ} : {A : Type ℓ} (p : A → Bool) (xs : List A) → any p (drop_all p xs) ≡ false
any-drop_self p [] = refl
any-drop_self p (x ∷ xs) = ground (arith, any-drop_self p xs)

any-drop_other {ℓ} :
    {A : Type ℓ} (p q : A → Bool) (xs : List A)
    → ((x : A) → p x ≡ true → q x ≡ false)
    → any p (drop_all q xs) ≡ any p xs
any-drop_other p q [] h = refl
any-drop_other p q (x ∷ xs) h = ground (arith, any-drop_other p q xs h, h x)

-- No filter has two ids.
one_id :
    (fs : List FilterRow) (a b : ℕ)
    → (b == a) ≡ false
    → any (λ g. g.id == a && g.id == b) fs ≡ false
one_id [] a b h = refl
one_id (f ∷ fs) a b h = ground (arith, one_id fs a b h)

module _ (env : Env) (calm : IsCalm env) where
  -- The world after the insertion of a filter.
  abbrev pub with_filter : Str → Str → World → World
  with_filter name description w =
      let row : FilterRow = record {
        id = w.db.filters_next;
        name = name;
        description = description;
      } in
      record (tick w) {
        db = record w.db { filters = row ∷ w.db.filters; filters_next = suc w.db.filters_next };
      }

  pub insert_filter-run :
      (name description : Str) (w : World)
      → (fits 32 name && fits 256 description) ≡ true
      → any (λ f. f.name == name) w.db.filters ≡ false
      → insert_filter env name description w
        ≡ done (ok w.db.filters_next) (with_filter name description w)
  unfolding insert_filter pure insert_into_filters
  insert_filter-run name description w short new =
      check-ok _ _ _ w (with_filter name description w) _ (
        query-rows env (insert_into_filters name description) w w.db.filters_next _ calm
          (rw (insert_into_filters, short, new) refl))

  same_name : (name : Str) → (name == name) ≡ true
  same_name name = (bytes_beq_iff name name).1 refl

  -- Without faults, inserting a filter whose name and description fit the columns and whose name
  -- is not taken returns the next id of the sequence, and looking the name up then returns that
  -- id, the name and the description.
  pub get_filter-insert_filter :
      (name description : Str) (w : World)
      → (fits 32 name && fits 256 description) ≡ true
      → any (λ f. f.name == name) w.db.filters ≡ false
      → (w1 : World) × (insert_filter env name description w ≡ done (ok w.db.filters_next) w1)
        × (get_filter env name w1
            ≡ done
                (ok (record { id = w.db.filters_next; name = name; description = description }))
                (tick w1))
  unfolding filter_of
  get_filter-insert_filter name description w short new =
      let w1 : World = with_filter name description w in
      (
        w1,
        insert_filter-run name description w short new,
        get_filter-found env calm name w1 _ (keep (λ f. f.name == name) w.db.filters)
            (rw (same_name name) refl),
      )

  -- The tables after DeleteFilter has found the id.
  abbrev without_filter : ℕ → Db → Db
  without_filter id db =
      delete_from_filters (λ g. g.id == id)
        (delete_from_role_filters (λ rf. rf.filter == id)
          (delete_from_filter_membership (λ m. m.filter == id) db))

  delete_filter-run :
      (name : Str) (f : FilterRow) (fs : List FilterRow) (w : World)
      → keep (λ g. g.name == name) w.db.filters ≡ f ∷ fs
      → delete_filter env name w
        ≡ done
            (ok tt)
            (record w { db = without_filter f.id w.db; clock = suc (suc (suc (suc w.clock))) })
  unfolding delete_filter delete_filter_membership delete_role_filter filter_of
  delete_filter-run name f fs w found =
      let w1 : World = tick w in
      let w2 : World = record (tick w1) {
        db = delete_from_filter_membership (λ m. m.filter == f.id) w.db;
      } in
      let w3 : World = record (tick w2) {
        db = delete_from_role_filters (λ rf. rf.filter == f.id) w2.db;
      } in
      check-ok _ _ _ w w1 _ (get_filter-found env calm name w f fs found)
      ∙ check-ok _ _ _ w1 w2 tt (
          query-rows env (execute (delete_from_filter_membership (λ m. m.filter == f.id))) w1 tt _
            calm refl)
      ∙ check-ok _ _ _ w2 w3 tt (
          query-rows env (execute (delete_from_role_filters (λ rf. rf.filter == f.id))) w2 tt _ calm
            refl)
      ∙ query-rows env (execute (delete_from_filters (λ g. g.id == f.id))) w3 tt _ calm refl

  -- Without faults, deleting a filter that exists succeeds, and neither the filter nor a membership
  -- or a role filter of its id is left; the memberships under any other id are as they were.
  pub delete_filter_leaves_nothing :
      (name : Str) (f : FilterRow) (fs : List FilterRow) (w : World) (other user : ℕ)
      → keep (λ g. g.name == name) w.db.filters ≡ f ∷ fs
      → (other == f.id) ≡ false
      → (w1 : World) × (delete_filter env name w ≡ done (ok tt) w1)
        × (any (λ g. g.id == f.id) w1.db.filters ≡ false)
        × (any (λ m. m.filter == f.id) w1.db.filter_membership ≡ false)
        × (any (λ rf. rf.filter == f.id) w1.db.role_filters ≡ false)
        × (any (λ m. m.filter == other && m.user_id == user) w1.db.filter_membership
            ≡ any (λ m. m.filter == other && m.user_id == user) w.db.filter_membership)
  unfolding delete_from_filters delete_from_role_filters delete_from_filter_membership
  delete_filter_leaves_nothing name f fs w other user found apart =
      let gone : ℕ → Bool = λ n. any (λ g. g.id == f.id && g.id == n) w.db.filters in
      (
        record w { db = without_filter f.id w.db; clock = suc (suc (suc (suc w.clock))) },
        delete_filter-run name f fs w found,
        any-drop_self (λ g. g.id == f.id) w.db.filters,
        any-drop_same (λ m. m.filter == f.id) (λ m. gone m.filter) _
            (any-drop_self (λ m. m.filter == f.id) w.db.filter_membership),
        any-drop_same (λ rf. rf.filter == f.id) (λ rf. gone rf.filter) _
            (any-drop_self (λ rf. rf.filter == f.id) w.db.role_filters),
        any-drop_other (λ m. m.filter == other && m.user_id == user) (λ m. gone m.filter) _
              (λ m h. one_id w.db.filters f.id m.filter (ground arith))
            ∙ any-drop_other (λ m. m.filter == other && m.user_id == user) (λ m. m.filter == f.id)
                w.db.filter_membership (λ m h. ground arith),
      )
