-- ===== src/Tests/PollerExamples.antt =====
-- The theorems on the poller, applied to the concrete data.
use chremoas_ng.Base.{
  bytes_beq, ◌≡◌, refl, Bool, true, false, none, some, [], ◌∷◌, ◌++◌, any, contains, not, ◌&&◌,
  ◌==◌, nat_eq, bytes_eq, bool_eq,
}
use chremoas_ng.Base.Text.{Str, lit, decimal, atoi, digits_value}
use chremoas_ng.Payloads.{Alliance, Corporation, Action, Role, zero_role}
use chremoas_ng.World.{Env, SwaggerModel, swagger, done, tick, ok, err, Member, message}
use chremoas_ng.EsiPoller.Roles.{RoleMap, difference, common_names, queue_changes, roles_differ}
use chremoas_ng.EsiPoller.Messages.{messages, queue_changes_follows_maps}
use chremoas_ng.EsiPoller.Corporations.{int32, update_corporation, add_positions, remove_positions}
use chremoas_ng.EsiPoller.Characters.{follow_membership}
use chremoas_ng.EsiPoller.Membership.{
  missing, excess, follow_membership_reconciles, switch_ignores_members,
}
use chremoas_ng.Filters.Gains.{holds}
use chremoas_ng.Filters.Messages.{messages_for, published}
use chremoas_ng.Filters.Queue.{zero_id}
use chremoas_ng.Tests.Sets.{list_sets, list_sets-IsLawful}
use chremoas_ng.EsiPoller.Failures.{cleared, failed_answer_clears_corporation, unknown_keeps_role}
use chremoas_ng.EsiPoller.Alliances.{not_found, update_alliance}
use chremoas_ng.Tests.Data.{auth_world, empty_db, member_db, world_of, calm_env, calm_env-IsCalm}

-- The tables have `a` and `b`, Discord has `b`, which is hoisted there, and `d`.
abbrev named : Str → Bool → Str × Role
named name hoist = (name, record zero_role { name = name; hoist = hoist })

abbrev our_roles : RoleMap
our_roles = named (b'a' ∷ []) false ∷ named (b'b' ∷ []) false ∷ []

abbrev their_roles : RoleMap
their_roles = named (b'b' ∷ []) true ∷ named (b'd' ∷ []) false ∷ []

abbrev role_called : Str → Bool → Role
role_called name hoist = record zero_role { name = name; hoist = hoist }

queue_changes_follows_maps_example :
    queue_changes calm_env our_roles their_roles (world_of empty_db)
    ≡ done (ok (3, 0)) (record (world_of empty_db) {
      clock = 3;
      roles_queue =
          messages calm_env Action.delete (role_called (b'd' ∷ []) false ∷ [])
          ++ messages calm_env Action.upsert
              (role_called (b'a' ∷ []) false ∷ role_called (b'b' ∷ []) false ∷ []);
    })
unfolding difference common_names roles_differ bytes_beq
queue_changes_follows_maps_example =
    queue_changes_follows_maps calm_env calm_env-IsCalm our_roles their_roles (world_of empty_db)
      (refl, tt)

-- Discord gives the member the role 88, the tables give the role 77 only to user 5.
abbrev discord_member : Member
discord_member = record { nick = []; username = []; roles = (b'8' ∷ b'8' ∷ []) ∷ [] }

follow_membership_reconciles_example :
    (follow_membership calm_env list_sets (b'5' ∷ []) discord_member (world_of member_db)
      ≡ done (ok tt) (
          published calm_env Action.delete
            (b'5' ∷ [])
            (messages_for calm_env Action.delete
              (b'5' ∷ [])
              (excess list_sets 5 discord_member member_db))
            (published calm_env Action.add
              (b'5' ∷ [])
              (messages_for calm_env Action.add
                (b'5' ∷ [])
                (missing list_sets 5 discord_member member_db))
              (tick (tick (world_of member_db))))))
    × (any
          (λ p. p.role_id == (b'7' ∷ b'7' ∷ []))
          (messages_for calm_env Action.add
            (b'5' ∷ [])
            (missing list_sets 5 discord_member member_db))
        ≡ (not ((b'7' ∷ b'7' ∷ []) == zero_id)
            && (holds 5 member_db (b'7' ∷ b'7' ∷ [])
                && not (contains discord_member.roles (b'7' ∷ b'7' ∷ [])))))
    × (any
          (λ p. p.role_id == (b'7' ∷ b'7' ∷ []))
          (messages_for calm_env Action.delete
            (b'5' ∷ [])
            (excess list_sets 5 discord_member member_db))
        ≡ (not ((b'7' ∷ b'7' ∷ []) == zero_id)
            && (contains discord_member.roles (b'7' ∷ b'7' ∷ [])
                && not (holds 5 member_db (b'7' ∷ b'7' ∷ [])))))
unfolding bytes_beq atoi digits_value
follow_membership_reconciles_example =
    follow_membership_reconciles calm_env calm_env-IsCalm list_sets list_sets-IsLawful (b'5' ∷ [])
      discord_member (false, 5) 5 (world_of member_db) (b'7' ∷ b'7' ∷ []) refl refl

switch_ignores_members_example :
    (add_positions calm_env list_sets (b'p' ∷ []) 0 (7 ∷ 8 ∷ [])
      ≡ add_positions calm_env list_sets (b'p' ∷ []) 0 (9 ∷ 10 ∷ []))
    × (remove_positions calm_env list_sets (b'p' ∷ []) 0 (7 ∷ 8 ∷ [])
        ≡ remove_positions calm_env list_sets (b'p' ∷ []) 0 (9 ∷ 10 ∷ []))
switch_ignores_members_example =
    switch_ignores_members calm_env list_sets (b'p' ∷ []) 0 (7 ∷ 8 ∷ []) (9 ∷ 10 ∷ []) refl

abbrev corporation_k : Corporation
corporation_k = record { id = 2; name = b'k' ∷ []; ticker = b'k' ∷ []; alliance_id = none }

failed_answer_clears_corporation_example :
    update_corporation calm_env list_sets corporation_k (auth_world true [])
    ≡ done (ok tt) (record (tick (tick (tick (auth_world true [])))) {
      db = cleared calm_env calm_env-IsCalm list_sets corporation_k (auth_world true []).db;
    })
unfolding bytes_beq not_found int32
failed_answer_clears_corporation_example =
    failed_answer_clears_corporation calm_env calm_env-IsCalm list_sets corporation_k
      (auth_world true []) (message []) refl refl refl refl refl refl

-- The game knows neither alliances nor corporations.
abbrev unknowing_env : Env
unknowing_env = record calm_env {
  esi_alliance =
      λ n id. (record { name = []; ticker = [] }, some (swagger SwaggerModel.alliance_not_found));
  esi_corporation = λ n id. (
    record { name = []; ticker = []; alliance_id = 0 },
    some (swagger SwaggerModel.corporation_not_found),
  );
}

abbrev alliance_a : Alliance
alliance_a = record { id = 4; name = b'a' ∷ []; ticker = b'a' ∷ [] }

unknown_keeps_role_example :
    (update_alliance unknowing_env alliance_a (auth_world true [])
      ≡ done (err (message (lit "alliance not found: " ++ decimal 4))) (tick (auth_world true [])))
    × (update_corporation unknowing_env list_sets corporation_k (auth_world true [])
        ≡ done
            (err (message (lit "corporation not found: " ++ decimal 2)))
            (tick (auth_world true [])))
unfolding not_found
unknown_keeps_role_example =
    unknown_keeps_role unknowing_env list_sets alliance_a corporation_k (auth_world true [])
      (swagger SwaggerModel.alliance_not_found) (swagger SwaggerModel.corporation_not_found) refl
      refl refl refl
