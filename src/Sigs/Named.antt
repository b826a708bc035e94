-- ===== src/Sigs/Named.antt =====
-- Which sig New (internal/sigs/sigs.go) takes.
use chremoas_ng.Base.{
  ℕ, ◌≡◌, ◌∙◌, refl, ap, Bool, true, not, ◌&&◌, some, List, [], ◌∷◌, Bool-cases, inl, inr, ◌++◌,
  ◌==◌, nat_eq, bool_eq, bytes_eq, keep, any, All, map,
}
use mathlib.Core.Path.{subst}
use chremoas_ng.Base.Search.{keep-passes}
use chremoas_ng.Base.Text.{Str, atoi}
use chremoas_ng.Payloads.{Action, MemberPayload, Role}
use chremoas_ng.Common.Membership.{user_id_or}
use chremoas_ng.Common.StringSets.{StringSets, IsLawful}
use chremoas_ng.Database.{Db, RoleRow, FilterRow, rows, insert_into_filter_membership}
use chremoas_ng.Filters.Gains.{Ends, holds, add_member_queues_gains}
use chremoas_ng.Filters.Queue.{zero_id}
use chremoas_ng.Storage.Roles.{listed_role, do_get_roles, get_roles_by_type}
use chremoas_ng.World.{World, Env, M, MessageSend, done, pure, check, tick, Error, ok}
use chremoas_ng.World.Runs.{IsCalm, query-select, check-ok}
use chremoas_ng.Sigs.{first_sig, new, join}

-- The first sig of all is taken, and what it is called is not looked at.
new_ignores_name :
    (env : Env) (member sig author : Str) (n : Bool × ℕ) (w w' : World) (r : Role) (rs : List Role)
    → atoi member ≡ some n
    → get_roles_by_type env true w ≡ done (ok (r ∷ rs)) w'
    → r.sig ≡ true
    → new env member sig author w
      ≡ done (ok (record { role = r; sig = sig; user_id = member; author = author })) w'
unfolding new user_id_or first_sig pure
new_ignores_name env member sig author n w w' r rs number listed is_sig =
    rw (new, user_id_or, number) (check-ok _ _ _ w w' (r ∷ rs) listed ∙ rw is_sig refl)

same_sigs : (rs : List RoleRow) → keep (λ r. r.sig == true && true) rs ≡ keep (λ r. r.sig) rs
same_sigs [] = refl
same_sigs (r ∷ rs) = elim (Bool-cases r.sig) [
  | inl is ↦ rw (is, same_sigs rs) refl
  | inr other ↦ rw (other, same_sigs rs) refl
]

module _ (w : World) (first : RoleRow) (rest : List RoleRow)
    (sigs : keep (λ r. r.sig) w.db.roles ≡ first ∷ rest) where
  first_is_sig : (listed_role first).sig ≡ true
  unfolding listed_role
  first_is_sig = (subst (All (λ r. r.sig ≡ true)) sigs (keep-passes (λ r. r.sig) w.db.roles)).0

  sigs-run :
      (env : Env)
      → IsCalm env
      → get_roles_by_type env true w ≡ done (ok (listed_role first ∷ map listed_role rest)) (tick w)
  unfolding get_roles_by_type do_get_roles
  sigs-run env calm =
      query-select env (λ db. map listed_role (keep (λ r. r.sig == true && true) db.roles)) w calm
      ∙ ap (λ rs. done (ok (map listed_role rs)) (tick w)) (same_sigs w.db.roles ∙ sigs)

-- Without faults, Join makes a user with a numeric id a member of the filter that is named, where the
-- first sig of the tables may be joined, whether or not the sig that is named may be: the tables end
-- as the insertion leaves them, and the messages queued, all upserts for that user, name the chat id
-- `x` exactly if `x` is not 0 and the user holds a role with it after the insertion and none before.
pub join_adds_to_any_sig :
    (env : Env) (lib : StringSets) (failed : Error → M (List MessageSend)) (member sig : Str)
    (n : Bool × ℕ) (u : ℕ) (w : World) (first : RoleRow) (rest : List RoleRow) (f : FilterRow)
    (fs : List FilterRow) (db : Db) (x : Str)
    → IsLawful lib
    → IsCalm env
    → keep (λ r. r.sig) w.db.roles ≡ first ∷ rest
    → first.joinable ≡ true
    → atoi member ≡ some n
    → env.bigint member ≡ some u
    → keep (λ g. g.name == sig) w.db.filters ≡ f ∷ fs
    → insert_into_filter_membership f.id u w.db ≡ rows tt db
    → (ps : List MemberPayload) × Ends
        (check (new env member sig member) failed (join env lib) w)
        db
        (w.members_queue ++ ps)
      × All (λ p. (p.action ≡ Action.upsert) × (p.member_id ≡ member)) ps
      × (any (λ p. p.role_id == x) ps
          ≡ (not (x == zero_id) && (holds u db x && not (holds u w.db x))))
unfolding join listed_role
join_adds_to_any_sig env lib failed member sig n u w first rest f fs db x lawful calm sigs joinable
      number readable found inserted =
    rw
      (check-ok _ failed (join env lib) w (tick w) _ (
        new_ignores_name env member sig member n w (tick w) (listed_role first)
          (map listed_role rest) number (sigs-run w first rest sigs env calm)
          (first_is_sig w first rest sigs)))
      (rw joinable (
        add_member_queues_gains env lib sig member n u f fs (tick w) db x lawful calm number
          readable found inserted))
