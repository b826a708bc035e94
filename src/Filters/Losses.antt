-- ===== src/Filters/Losses.antt =====
-- RemoveMember (internal/filters/filters.go): which roles it queues for whom it removes.
use mathlib.Core.List.{append-nil}
use chremoas_ng.Base.{
  ℕ, suc, arith, ◌≡◌, refl, ap, ◌∙◌, Bool, true, false, not, ◌&&◌, some, List, [], ◌∷◌, ◌++◌, ◌==◌,
  nat_eq, bytes_eq, keep, All, any, inl, inr, Bool-cases,
}
use chremoas_ng.Base.Text.{Str, atoi, is_empty}
use chremoas_ng.Payloads.{Action, Filter, MemberPayload}
use chremoas_ng.Database.{Db, FilterRow, delete_from_filter_membership}
use chremoas_ng.Common.StringSets.{StringSets, IsLawful}
use chremoas_ng.Common.Session.{get_username}
use chremoas_ng.Common.Runs.{membership_of, get_membership-run, user_id_or-number}
use chremoas_ng.Storage.Filters.{filter_of}
use chremoas_ng.Storage.Runs.{get_filter-found, delete_filter_membership-run}
use chremoas_ng.World.{World, Env, tick, pure}
use chremoas_ng.World.Runs.{IsCalm, check-ok, bind-done, then-done}
use chremoas_ng.Filters.Queue.{zero_id}
use chremoas_ng.Filters.Members.{finish_remove, remove_member_by_id, remove_member}
use chremoas_ng.Filters.Messages.{
  messages_for, any-messages_for, All-messages_for, published, queue_updates-run,
}
use chremoas_ng.Filters.Gains.{Ends, Ends-done, gained, holds, contains-gained}

number-given : (s : Str) (n : Bool × ℕ) → atoi s ≡ some n → is_empty s ≡ false
unfolding atoi
number-given [] n e = cc
number-given (c ∷ s) n e = refl

module _ (env : Env) (lib : StringSets) (lawful : IsLawful lib) where
  unsent :
      (user_id : Str) (s : lib.StringSet)
      → (lib.len s == 0) ≡ true
      → messages_for env Action.delete user_id (lib.to_slice s) ≡ []
  unsent user_id s e = rw ((lawful.len-eq-zero s).0 (ground arith)) refl

  finish_remove-run :
      (filter : Filter) (user_id : Str) (s : lib.StringSet) (w : World)
      → IsCalm env
      → Ends
          (finish_remove env lib filter user_id s w)
          w.db
          (w.members_queue ++ messages_for env Action.delete user_id (lib.to_slice s))
  unfolding finish_remove pure get_username
  finish_remove-run filter user_id s w calm = elim (Bool-cases (lib.len s == 0)) [
    | inl none_lost ↦
        rw (finish_remove, none_lost, unsent user_id s none_lost, append-nil w.members_queue)
          (refl, refl)
    | inr some_lost ↦
        let w1 : World =
          published env Action.delete user_id
            (messages_for env Action.delete user_id (lib.to_slice s)) w in
        rw (finish_remove, some_lost)
          (Ends-done (tick w1) (
            bind-done _ _ w (tick w1) _ (
              then-done _ _ w w1 tt
                (queue_updates-run env Action.delete user_id (lib.to_slice s) w calm))))
  ]

  module _ (filter user_id : Str) (n : Bool × ℕ) (u : ℕ) (f : FilterRow) (fs : List FilterRow)
      (w : World) where
    -- The tables without the membership.
    abbrev pub removed : Db
    removed = delete_from_filter_membership (λ m. m.filter == f.id && m.user_id == u) w.db

    -- RemoveMember up to the roles that were lost.
    remove_member-path :
        IsCalm env
        → atoi user_id ≡ some n
        → env.bigint user_id ≡ some u
        → keep (λ g. g.name == filter) w.db.filters ≡ f ∷ fs
        → remove_member env lib user_id filter w
          ≡ finish_remove env lib
              (filter_of f)
              user_id
              (lib.difference (membership_of lib u w.db) (membership_of lib u removed))
              (record w { db = removed; clock = suc (suc (suc (suc (suc (suc w.clock))))) })
    unfolding remove_member remove_member_by_id filter_of
    remove_member-path calm number readable found =
        let w2 : World = tick (tick w) in
        let w4 : World = record (tick (tick w2)) { db = removed } in
        check-ok _ _ _ w w2 _ (get_membership-run env calm lib user_id n u w number readable)
        ∙ ap (λ m. m w2) (user_id_or-number _ user_id _ n number)
        ∙ check-ok _ _ _ w2 (tick w2) _ (get_filter-found env calm filter w2 f fs found)
        ∙ check-ok _ _ _ (tick w2) w4 tt (
            delete_filter_membership-run env calm f.id user_id u (tick w2)
              (number-given user_id n number) readable)
        ∙ check-ok _ _ _ w4 (tick (tick w4)) _
            (get_membership-run env calm lib user_id n u w4 number readable)

-- RemoveMember with a numeric user id and a filter that exists, a string-set library that keeps
-- its laws and no fault: exactly the memberships of that user in that filter are deleted, and the
-- messages queued, all deletes for that user, name the chat id `x` exactly if `x` is not 0 and the
-- user held a role with it before and holds none after.
pub remove_member_queues_losses :
    (env : Env) (lib : StringSets) (filter user_id : Str) (n : Bool × ℕ) (u : ℕ) (f : FilterRow)
    (fs : List FilterRow) (w : World) (db : Db) (x : Str)
    → IsLawful lib
    → IsCalm env
    → atoi user_id ≡ some n
    → env.bigint user_id ≡ some u
    → keep (λ g. g.name == filter) w.db.filters ≡ f ∷ fs
    → db ≡ delete_from_filter_membership (λ m. m.filter == f.id && m.user_id == u) w.db
    → (ps : List MemberPayload) × Ends
        (remove_member env lib user_id filter w)
        db
        (w.members_queue ++ ps)
      × All (λ p. (p.action ≡ Action.delete) × (p.member_id ≡ user_id)) ps
      × (any (λ p. p.role_id == x) ps
          ≡ (not (x == zero_id) && (holds u w.db x && not (holds u db x))))
remove_member_queues_losses env lib filter user_id n u f fs w db x lawful calm number readable found
      deleted =
    let after : Db = delete_from_filter_membership (λ m. m.filter == f.id && m.user_id == u) w.db in
    let roles : List Str = gained env lib lawful u after w.db in
    rw (deleted) (
      messages_for env Action.delete user_id roles,
      rw (remove_member-path env lib lawful filter user_id n u f fs w calm number readable found)
          (finish_remove-run env lib lawful (filter_of f) user_id _ _ calm),
      All-messages_for env Action.delete user_id roles,
      any-messages_for env Action.delete user_id roles x
          ∙ rw (contains-gained lib lawful u after w.db x) refl,
    )
