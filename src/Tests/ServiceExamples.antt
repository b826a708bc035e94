-- ===== src/Tests/ServiceExamples.antt =====
-- The theorems on the handlers of the queues, on authentication and on the synchronisation of roles,
-- applied to the concrete data.
use chremoas_ng.Base.{
  bytes_beq, ℕ, ◌≡◌, refl, sym, ap, true, false, Option, none, some, List, [], ◌∷◌, ◌++◌, length,
  ◌==◌, nat_eq, bytes_eq, bool_eq, All, any, not, ◌&&◌,
}
use chremoas_ng.Base.Text.{Str, lit, char_count, atoi, digits_value}
use chremoas_ng.Payloads.{Action, MemberPayload, RolePayload, CreateRequest, zero_role}
use chremoas_ng.Common.CheckAndDelete.{status_of, is_not_found}
use chremoas_ng.Common.Messages.{send_error}
use chremoas_ng.Database.{
  CharacterMapRow, delete_from_user_character_map, Db, insert_into_filter_membership,
}
use chremoas_ng.World.{Env, done, panic, tick, ok, Error, rest, World}
use chremoas_ng.World.Gives.{Gives}
use chremoas_ng.World.Keeps.{final}
use chremoas_ng.Storage.Users.{delete_discord_user}
use chremoas_ng.Storage.UserLaws.{delete_discord_user_leaves_characters}
use chremoas_ng.Consumers.Giving.{EachAnswered}
use chremoas_ng.Consumers.Members.{handle_member_messages}
use chremoas_ng.Consumers.MembersAnswers.{
  member_deliveries_answered_once, IsFinal, member_deliveries_settled,
}
use chremoas_ng.Consumers.Roles.{handle_role_messages}
use chremoas_ng.Consumers.RolesAnswers.{role_deliveries_answered_once}
use chremoas_ng.Auth.{create}
use chremoas_ng.Auth.Requests.{create_without_alliance_fails}
use chremoas_ng.Auth.Confirm.{confirm}
use chremoas_ng.Auth.Claims.{claimed, confirmed_code_is_refused}
use chremoas_ng.Auth.Joins.{confirm_joins_corporation}
use chremoas_ng.Filters.Gains.{Ends, holds}
use chremoas_ng.Filters.Queue.{zero_id}
use chremoas_ng.Tests.Sets.{list_sets, list_sets-IsLawful}
use chremoas_ng.Tests.Data.{
  auth_world, empty_db, world_of, calm_env, calm_env-IsCalm, auth_tables, pilots,
}

-- Discord refuses every change.
abbrev refusing_env : Env
refusing_env = record calm_env { rest_fault = λ n. some (rest 500) }

refused_found : (n : ℕ) (e : Error) → refusing_env.rest_fault n ≡ some e → is_not_found e ≡ false
unfolding is_not_found status_of
refused_found n e h = ap (λ o. elim o [ none ↦ false | some x ↦ is_not_found x ]) (sym h)

refused_status :
    (n : ℕ) (e : Error)
    → refusing_env.rest_fault n ≡ some e
    → (status : ℕ) × (status_of e ≡ some status)
unfolding status_of
refused_status n e h = (500, ap (λ o. elim o [ none ↦ some 500 | some x ↦ status_of x ]) (sym h))

abbrev member_message : Str → Option MemberPayload
member_message body = some (record {
  action = Action.delete;
  guild_id = [];
  member_id = b'5' ∷ [];
  role_id = b'7' ∷ b'7' ∷ [];
  correlation_id = [];
})

abbrev role_message : Str → Option RolePayload
role_message body = some (record {
  action = Action.delete;
  guild_id = [];
  role = record zero_role { id = b'7' ∷ b'7' ∷ [] };
  correlation_id = [];
})

abbrev two_bodies : List Str
two_bodies = (b'a' ∷ []) ∷ (b'b' ∷ []) ∷ []

member_deliveries_answered_once_example :
    Gives
      (EachAnswered (λ answers. length answers ≡ 1) two_bodies)
      (handle_member_messages refusing_env member_message two_bodies)
member_deliveries_answered_once_example =
    member_deliveries_answered_once refusing_env member_message two_bodies (λ n. tt) refused_found
      (refl, (refl, tt))

member_deliveries_settled_example :
    Gives
      (EachAnswered IsFinal two_bodies)
      (handle_member_messages calm_env member_message two_bodies)
member_deliveries_settled_example =
    member_deliveries_settled calm_env member_message two_bodies (λ n. tt) (λ n. refl)
      (refl, (refl, tt))

role_deliveries_answered_once_example :
    Gives
      (EachAnswered (λ answers. length answers ≡ 1) two_bodies)
      (handle_role_messages refusing_env role_message two_bodies)
role_deliveries_answered_once_example =
    role_deliveries_answered_once refusing_env role_message two_bodies refused_status

abbrev user_5 : Str
user_5 = b'5' ∷ []

abbrev mapping : CharacterMapRow
mapping = record { chat_id = user_5; character_id = 3 }

delete_discord_user_leaves_characters_example :
    delete_discord_user calm_env user_5 (auth_world true (mapping ∷ []))
    ≡ done (ok tt) (record (tick (tick (auth_world true (mapping ∷ [])))) {
      db =
          delete_from_user_character_map
            (λ m. m.chat_id == user_5)
            (auth_world true (mapping ∷ [])).db;
    })
delete_discord_user_leaves_characters_example =
    delete_discord_user_leaves_characters calm_env user_5 (auth_world true (mapping ∷ []))
      calm_env-IsCalm

abbrev request : CreateRequest
request = record {
  token = b't' ∷ [];
  character = record { id = 3; name = b'c' ∷ []; corporation_id = 2; token = [] };
  corporation = record { id = 2; name = b'k' ∷ []; ticker = b'k' ∷ []; alliance_id = none };
  alliance = none;
}

create_without_alliance_fails_example :
    create calm_env request (world_of empty_db) ≡ panic (tick (world_of empty_db))
unfolding bytes_beq
create_without_alliance_fails_example =
    create_without_alliance_fails calm_env calm_env-IsCalm request (world_of empty_db) refl refl

abbrev user_6 : Str
user_6 = b'6' ∷ []

abbrev code_x : Str
code_x = b'x' ∷ []

-- The corporation of the character has the filter `p`, and no alliance.
abbrev claim_world : World
claim_world = world_of (record empty_db {
  auth = record (auth_tables false []) {
    corporations = record { id = 2; name = b'k' ∷ []; ticker = b'p' ∷ []; alliance_id = none } ∷ [];
  };
})

abbrev claimed_tables : Db
claimed_tables = record (claimed calm_env calm_env-IsCalm code_x user_5 3 claim_world.db) {
  filter_membership = record { filter = 1; user_id = 5 } ∷ [];
}

confirm_joins_corporation_example :
    (ps : List MemberPayload) × Ends
      (confirm calm_env list_sets code_x user_5 claim_world)
      claimed_tables
      ([] ++ ps)
    × All (λ p. (p.action ≡ Action.upsert) × (p.member_id ≡ user_5)) ps
    × (any (λ p. p.role_id == (b'7' ∷ b'7' ∷ [])) ps ≡ (
        not ((b'7' ∷ b'7' ∷ []) == zero_id)
        && (holds 5 claimed_tables (b'7' ∷ b'7' ∷ [])
            && not (
                holds 5
                  (claimed calm_env calm_env-IsCalm code_x user_5 3 claim_world.db)
                  (b'7' ∷ b'7' ∷ [])))))
unfolding bytes_beq atoi digits_value char_count insert_into_filter_membership
confirm_joins_corporation_example =
    confirm_joins_corporation calm_env calm_env-IsCalm list_sets list_sets-IsLawful code_x user_5
      claim_world (record { character_id = 3; code = code_x; used = false }) []
      (record { id = 3; name = b'c' ∷ []; corporation_id = 2; token = b't' ∷ [] }) []
      (record { id = 2; name = b'k' ∷ []; ticker = b'p' ∷ []; alliance_id = none }) [] pilots []
      (false, 5) 5 claimed_tables (b'7' ∷ b'7' ∷ []) refl refl refl refl refl refl refl refl refl
      refl refl refl

abbrev after_confirm : World
after_confirm = final (confirm calm_env list_sets code_x user_5 (auth_world false []))

confirmed_code_is_refused_example :
    confirm calm_env list_sets code_x user_6 after_confirm
    ≡ done
        (send_error (some user_6) (lit "Auth code already used: " ++ code_x))
        (tick after_confirm)
unfolding bytes_beq char_count
confirmed_code_is_refused_example =
    confirmed_code_is_refused calm_env calm_env-IsCalm list_sets code_x user_5 user_6
      (auth_world false []) after_confirm (record { character_id = 3; code = code_x; used = false })
      [] (record { id = 3; name = b'c' ∷ []; corporation_id = 2; token = b't' ∷ [] }) [] refl refl
      refl refl refl refl refl
