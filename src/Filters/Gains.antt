-- ===== src/Filters/Gains.antt =====
-- AddMember (internal/filters/filters.go): which roles it queues for whom it adds.
use mathlib.Core.List.{append-nil}
use chremoas_ng.Base.{
  ℕ, suc, arith, ◌≡◌, refl, ap, ◌∙◌, Bool, true, false, not, ◌&&◌, ◌||◌, some, List, [], ◌∷◌, ◌++◌,
  ◌==◌, nat_eq, bytes_eq, map, keep, All, any, contains, inl, inr, Bool-cases,
}
use chremoas_ng.Base.Text.{Str, atoi, decimal, is_empty}
use chremoas_ng.Payloads.{Action, MemberPayload}
use chremoas_ng.Database
use chremoas_ng.Database.{Db, FilterRow, RoleRow, rows, insert_into_filter_membership}
use chremoas_ng.Common.StringSets.{StringSets, IsLawful}
use chremoas_ng.Common.Session.{get_username}
use chremoas_ng.Common.Membership.{role_to_set, role_to_set_loop}
use chremoas_ng.Common.Runs.{membership_of, get_membership-run, user_id_or-number}
use chremoas_ng.Storage.Roles.{member_role}
use chremoas_ng.Storage.Filters.{filter_of}
use chremoas_ng.Storage.Runs.{get_filter-found, add_filter_membership-run}
use chremoas_ng.World.{World, Env, Run, done, tick, pure}
use chremoas_ng.World.Keeps.{final}
use chremoas_ng.World.Runs.{IsCalm, check-ok, bind-done, then-done}
use chremoas_ng.Filters.Queue.{zero_id}
use chremoas_ng.Filters.Members.{finish_add, add_member_by_id, add_member}
use chremoas_ng.Filters.Messages.{
  messages_for, any-messages_for, All-messages_for, published, queue_updates-run,
}

-- The tables and the queue at the end of a run.
abbrev pub Ends : {A : Type 0} → Run A → Db → List MemberPayload → Type 0
Ends r db queue = ((final r).db ≡ db) × ((final r).members_queue ≡ queue)

pub Ends-done :
    {A : Type 0} {r : Run A} {a : A} (w : World) → r ≡ done a w → Ends r w.db w.members_queue
Ends-done w e = (ap (λ x. (final x).db) e, ap (λ x. (final x).members_queue) e)

module _ (env : Env) (lib : StringSets) (lawful : IsLawful lib) where
  -- The roles that the new tables give, and the old ones did not.
  abbrev pub gained : ℕ → Db → Db → List Str
  gained u before after =
      lib.to_slice (lib.difference (membership_of lib u after) (membership_of lib u before))

  -- Nothing to send where there is nothing gained.
  unsent :
      (user_id : Str) (s : lib.StringSet)
      → (lib.len s == 0) ≡ true
      → messages_for env Action.upsert user_id (lib.to_slice s) ≡ []
  unsent user_id s e = rw ((lawful.len-eq-zero s).0 (ground arith)) refl

  finish_add-run :
      (filter user_id : Str) (s : lib.StringSet) (w : World)
      → IsCalm env
      → Ends
          (finish_add env lib filter user_id s w)
          w.db
          (w.members_queue ++ messages_for env Action.upsert user_id (lib.to_slice s))
  unfolding finish_add pure get_username
  finish_add-run filter user_id s w calm = elim (Bool-cases (lib.len s == 0)) [
    | inl none_gained ↦
        rw (finish_add, none_gained, unsent user_id s none_gained, append-nil w.members_queue)
          (Ends-done (tick w) (bind-done _ _ w (tick w) _ refl))
    | inr some_gained ↦
        rw (finish_add, some_gained)
          (Ends-done
            (published env Action.upsert user_id
              (messages_for env Action.upsert user_id (lib.to_slice s)) w)
            (then-done _ _ w _ tt
              (queue_updates-run env Action.upsert user_id (lib.to_slice s) w calm)))
  ]

  module _ (filter user_id : Str) (n : Bool × ℕ) (u : ℕ) (f : FilterRow) (fs : List FilterRow)
      (w : World) (db : Db) where
    -- AddMember up to the roles that were gained.
    add_member_by_id-path :
        IsCalm env
        → atoi user_id ≡ some n
        → env.bigint user_id ≡ some u
        → keep (λ g. g.name == filter) w.db.filters ≡ f ∷ fs
        → insert_into_filter_membership f.id u w.db ≡ rows tt db
        → add_member_by_id env lib filter user_id w
          ≡ finish_add env lib filter user_id
              (lib.difference (membership_of lib u db) (membership_of lib u w.db))
              (record w { db = db; clock = suc (suc (suc (suc (suc (suc w.clock))))) })
    unfolding add_member_by_id filter_of
    add_member_by_id-path calm number readable found inserted =
        let w2 : World = tick (tick w) in
        let w4 : World = record (tick (tick w2)) { db = db } in
        check-ok _ _ _ w w2 _ (get_membership-run env calm lib user_id n u w number readable)
        ∙ check-ok _ _ _ w2 (tick w2) _ (get_filter-found env calm filter w2 f fs found)
        ∙ check-ok _ _ _ (tick w2) w4 tt
            (add_filter_membership-run env calm f.id user_id u (tick w2) db readable inserted)
        ∙ check-ok _ _ _ w4 (tick (tick w4)) _
            (get_membership-run env calm lib user_id n u w4 number readable)

    add_member_by_id-run :
        IsCalm env
        → atoi user_id ≡ some n
        → env.bigint user_id ≡ some u
        → keep (λ g. g.name == filter) w.db.filters ≡ f ∷ fs
        → insert_into_filter_membership f.id u w.db ≡ rows tt db
        → Ends
            (add_member_by_id env lib filter user_id w)
            db
            (w.members_queue ++ messages_for env Action.upsert user_id (gained u w.db db))
    add_member_by_id-run calm number readable found inserted =
        rw (add_member_by_id-path calm number readable found inserted)
          (finish_add-run filter user_id _ _ calm)

-- The chat id of the role, as a set keeps it, is `x`.
abbrev pub known_as : Str → RoleRow → Bool
known_as x r = not (is_empty (decimal r.chat_id)) && decimal r.chat_id == x

-- Some role or sig of the user has the chat id `x`.
abbrev pub holds : ℕ → Db → Str → Bool
holds u db x =
    any (known_as x) (Database.get_member_roles u true db)
    || any (known_as x) (Database.get_member_roles u false db)

module _ (lib : StringSets) (lawful : IsLawful lib) where
  has-role_to_set_loop :
      (rs : List RoleRow) (s : lib.StringSet) (x : Str)
      → lib.has (role_to_set_loop lib (map member_role rs) s) x
        ≡ (any (known_as x) rs || lib.has s x)
  unfolding role_to_set_loop member_role
  has-role_to_set_loop [] s x = refl
  has-role_to_set_loop (r ∷ rs) s x =
      rw
        (
          has-role_to_set_loop rs (lib.add (decimal r.chat_id) s) x,
          lawful.has-add (decimal r.chat_id) x s,
        )
        (ground arith)

  has-role_to_set :
      (rs : List RoleRow) (x : Str)
      → lib.has (role_to_set lib (map member_role rs)) x ≡ any (known_as x) rs
  unfolding role_to_set
  has-role_to_set rs x = has-role_to_set_loop rs lib.new x ∙ rw (lawful.has-new x) (ground arith)

  pub has-membership_of :
      (u : ℕ) (db : Db) (x : Str) → lib.has (membership_of lib u db) x ≡ holds u db x
  unfolding membership_of
  has-membership_of u db x =
      lawful.has-merge _ _ x
      ∙ rw
          (
            has-role_to_set (Database.get_member_roles u true db) x,
            has-role_to_set (Database.get_member_roles u false db) x,
          )
          refl

  pub contains-gained :
      (u : ℕ) (before after : Db) (x : Str)
      → contains
          (lib.to_slice (lib.difference (membership_of lib u after) (membership_of lib u before)))
          x
        ≡ (holds u after x && not (holds u before x))
  contains-gained u before after x =
      lawful.contains-to_slice _ x
      ∙ lawful.has-difference _ _ x
      ∙ rw (has-membership_of u after x, has-membership_of u before x) refl

-- AddMember with a numeric user id, a filter that exists and a membership that can be inserted, a
-- string-set library that keeps its laws and no fault: the tables end as the insertion leaves
-- them, and the messages queued, all upserts for that user, name the chat id `x` exactly if `x` is
-- not 0 and the user holds a role with it after the insertion and none before.
pub add_member_queues_gains :
    (env : Env) (lib : StringSets) (filter user_id : Str) (n : Bool × ℕ) (u : ℕ) (f : FilterRow)
    (fs : List FilterRow) (w : World) (db : Db) (x : Str)
    → IsLawful lib
    → IsCalm env
    → atoi user_id ≡ some n
    → env.bigint user_id ≡ some u
    → keep (λ g. g.name == filter) w.db.filters ≡ f ∷ fs
    → insert_into_filter_membership f.id u w.db ≡ rows tt db
    → (ps : List MemberPayload) × Ends
        (add_member env lib user_id filter w)
        db
        (w.members_queue ++ ps)
      × All (λ p. (p.action ≡ Action.upsert) × (p.member_id ≡ user_id)) ps
      × (any (λ p. p.role_id == x) ps
          ≡ (not (x == zero_id) && (holds u db x && not (holds u w.db x))))
unfolding add_member
add_member_queues_gains env lib filter user_id n u f fs w db x lawful calm number readable found
      inserted =
    let roles : List Str = gained env lib lawful u w.db db in
    (
      messages_for env Action.upsert user_id roles,
      rw (user_id_or-number _ user_id _ n number) (
          add_member_by_id-run env lib lawful filter user_id n u f fs w db calm number readable
            found inserted),
      All-messages_for env Action.upsert user_id roles,
      any-messages_for env Action.upsert user_id roles x
          ∙ rw (contains-gained lib lawful u w.db db x) refl,
    )
