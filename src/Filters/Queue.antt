-- ===== src/Filters/Queue.antt =====
-- internal/filters/filters.go: QueueUpdate, and the loops that call it.
use chremoas_ng.Base.{List, [], ◌∷◌, ◌==◌, bytes_eq, if◌then◌else◌}
use chremoas_ng.Base.Text.{Str, lit}
use chremoas_ng.Payloads.{Action, MemberPayload}
use chremoas_ng.Common.Session.{publish_member}
use chremoas_ng.World.{Env, M, pure, ◌>>◌, check}

-- The id of a role that Discord does not know yet.
unfoldable pub zero_id : Str
zero_id = lit "0"

module _ (env : Env) where
  unfoldable pub queue_update : Action → Str → Str → M Unit
  unfolding zero_id
  queue_update action member_id role_id =
      let payload : MemberPayload = record {
        action = action;
        guild_id = env.guild_id;
        member_id = member_id;
        role_id = role_id;
        correlation_id = [];
      } in
      if role_id == zero_id
      then pure tt
      else check (publish_member env payload) (λ e. pure tt) (λ _. pure tt)

  -- `for _, role := range set.ToSlice() { QueueUpdate(…) }`
  unfoldable pub queue_updates : Action → Str → List Str → M Unit
  queue_updates action member_id [] = pure tt
  queue_updates action member_id (r ∷ rs) =
      queue_update action member_id r >> queue_updates action member_id rs
