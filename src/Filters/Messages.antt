-- ===== src/Filters/Messages.antt =====
-- What the loops over QueueUpdate (internal/filters/filters.go) publish when no server fails.
use mathlib.Core.List.{append_assoc, append-nil}
use chremoas_ng.Base.{
  suc, ◌+◌, arith, ◌≡◌, refl, sym, ap, ◌∙◌, true, false, not, ◌&&◌, List, [], ◌∷◌, ◌++◌, ◌==◌,
  nat_eq, bytes_eq, map, keep, any, contains, All, bytes_beq_iff, length, inl, inr, Bool-cases,
}
use chremoas_ng.Base.Text.{Str}
use chremoas_ng.Payloads.{Action, MemberPayload}
use chremoas_ng.Common.Runs.{publish_member-run}
use chremoas_ng.World.{World, Env, done, tick, pure}
use chremoas_ng.World.Runs.{IsCalm, check-ok, then-done}
use chremoas_ng.Filters.Queue.{zero_id, queue_update, queue_updates}

module _ (env : Env) (action : Action) (member_id : Str) where
  abbrev payload_of : Str → MemberPayload
  payload_of role_id = record {
    action = action;
    guild_id = env.guild_id;
    member_id = member_id;
    role_id = role_id;
    correlation_id = [];
  }

  -- The messages for a list of roles: none for a role that Discord does not know yet.
  abbrev pub messages_for : List Str → List MemberPayload
  messages_for roles = map payload_of (keep (λ r. not (r == zero_id)) roles)

  -- The world after some publications.
  abbrev pub published : List MemberPayload → World → World
  published ps w = record w { clock = w.clock + length ps; members_queue = w.members_queue ++ ps }

  published_none : (w : World) → published [] w ≡ w
  published_none w =
      let clock : w.clock + 0 ≡ w.clock = omega arith in
      λ i. record w { clock = clock i; members_queue = append-nil w.members_queue i }

  published_twice :
      (p : MemberPayload) (ps : List MemberPayload) (w : World)
      → published ps (record (tick w) { members_queue = w.members_queue ++ (p ∷ []) })
        ≡ published (p ∷ ps) w
  published_twice p ps w =
      let clock : suc w.clock + length ps ≡ w.clock + suc (length ps) = omega arith in
      λ i. record w { clock = clock i; members_queue = append_assoc w.members_queue (p ∷ []) ps i }

  queue_update-zero :
      (r : Str) (w : World)
      → (r == zero_id) ≡ true
      → queue_update env action member_id r w ≡ done tt w
  unfolding queue_update pure
  queue_update-zero r w e = rw (queue_update, e) refl

  queue_update-known :
      (r : Str) (w : World)
      → IsCalm env
      → (r == zero_id) ≡ false
      → queue_update env action member_id r w
        ≡ done tt (record (tick w) { members_queue = w.members_queue ++ (payload_of r ∷ []) })
  unfolding queue_update pure
  queue_update-known r w calm e =
      rw (queue_update, e) (check-ok _ _ _ w _ tt (publish_member-run env calm (payload_of r) w))

  pub queue_updates-run :
      (roles : List Str) (w : World)
      → IsCalm env
      → queue_updates env action member_id roles w ≡ done tt (published (messages_for roles) w)
  unfolding queue_updates pure
  queue_updates-run [] w calm = ap (done tt) (sym (published_none w))
  queue_updates-run (r ∷ roles) w calm = elim (Bool-cases (r == zero_id)) [
    | inl zero ↦
        rw (zero)
          (then-done _ _ w w tt (queue_update-zero r w zero) ∙ queue_updates-run roles w calm)
    | inr known ↦ rw (known) (
        then-done _ _ w _ tt (queue_update-known r w calm known)
        ∙ queue_updates-run roles _ calm
        ∙ ap (done tt) (published_twice (payload_of r) (messages_for roles) w))
  ]

  same_as_zero : (r x : Str) → (r == x) ≡ true → (x == zero_id) ≡ (r == zero_id)
  same_as_zero r x e = ap (λ t. t == zero_id) (sym ((bytes_beq_iff r x).0 e))

  pub any-messages_for :
      (roles : List Str) (x : Str)
      → any (λ p. p.role_id == x) (messages_for roles) ≡ (not (x == zero_id) && contains roles x)
  any-messages_for [] x = elim (Bool-cases (x == zero_id)) [
    | inl zero ↦ rw (zero) refl
    | inr known ↦ rw (known) refl
  ]
  any-messages_for (r ∷ roles) x = elim (Bool-cases (r == zero_id)) [
    | inl zero ↦ elim (Bool-cases (r == x)) [
      | inl same ↦ rw (zero, same, any-messages_for roles x, same_as_zero r x same, zero) refl
      | inr other ↦ rw (zero, other, any-messages_for roles x) refl
    ]
    | inr known ↦ elim (Bool-cases (r == x)) [
      | inl same ↦ rw (known, same, same_as_zero r x same, known) refl
      | inr other ↦ rw (known, other, any-messages_for roles x) refl
    ]
  ]

  pub All-messages_for :
      (roles : List Str)
      → All (λ p. (p.action ≡ action) × (p.member_id ≡ member_id)) (messages_for roles)
  All-messages_for [] = tt
  All-messages_for (r ∷ roles) = elim (Bool-cases (r == zero_id)) [
    | inl zero ↦ rw (zero) (All-messages_for roles)
    | inr known ↦ rw (known) ((refl, refl), All-messages_for roles)
  ]
