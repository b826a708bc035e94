-- ===== src/Tests/Examples.antt =====
-- The theorems of the other modules, applied to the concrete data.
use chremoas_ng.Base.{
  ◌≡◌, refl, arith, true, false, ◌&&◌, not, List, [], ◌∷◌, ◌++◌, ◌==◌, nat_eq, bytes_eq, any, All,
  bytes_beq,
}
use chremoas_ng.Base.{contains}
use chremoas_ng.Base.Text.{char_count, Str, atoi, digits_value, lit}
use chremoas_ng.Payloads.{Action, MemberPayload}
use chremoas_ng.Database.{has_role, insert_into_filter_membership, delete_from_filter_membership}
use chremoas_ng.Database.AllFilters.{is_member, meets_all_filters, has_role-eq-meets_all_filters}
use chremoas_ng.Common.Embed.{new_embed, truncate}
use chremoas_ng.Common.EmbedLimits.{FitsLimits, truncate_lem}
use chremoas_ng.Common.Mention.{is_discord_user, extract_user_id}
use chremoas_ng.Common.Mentions.{mention_of, extract_user_id-mention_of}
use chremoas_ng.Common.Chunks.{
  Fits, send_chunked_message-Fits, send_chunked_message, joined, sent_text, Delivers,
  send_chunked_message-Delivers,
}
use chremoas_ng.World.{World, done, tick, ok}
use chremoas_ng.World.Keeps.{final}
use chremoas_ng.Perms.{can_perform, add_member, auth_web}
use chremoas_ng.Perms.Access.{add_member_adds_nobody, can_perform_ignores_members}
use chremoas_ng.Storage.Filters.{get_filter, insert_filter, delete_filter, users_in_all}
use chremoas_ng.Storage.FilterLaws.{get_filter-insert_filter, delete_filter_leaves_nothing}
use chremoas_ng.Storage.RoleMembers.{contains-users_in_all}
use chremoas_ng.Filters.Members
use chremoas_ng.Filters.Queue.{zero_id}
use chremoas_ng.Filters.Gains.{Ends, holds, add_member_queues_gains}
use chremoas_ng.Filters.Losses.{remove_member_queues_losses}
use chremoas_ng.Base.{◌||◌, ℕ}
use chremoas_ng.Payloads.{Role, zero_role}
use chremoas_ng.Sets.ChremoasRole.{
  ChremoasRoleSet, is_zero, contains_role, intersection, difference, merge,
}
use chremoas_ng.Sets.Laws.{IsRoleSet, membership_laws}
use chremoas_ng.Tests.Sets.{list_sets, list_sets-IsLawful}
use chremoas_ng.Tests.Data.{
  pilots, pilot_role, empty_db, member_db, world_of, calm_env, calm_env-IsCalm, empty_db-IsValid,
}

abbrev five : Str
five = b'5' ∷ []

abbrev chat_77 : Str
chat_77 = b'7' ∷ b'7' ∷ []

has_role-eq-meets_all_filters_example :
    has_role member_db 5 pilot_role ≡ meets_all_filters member_db 5 1
has_role-eq-meets_all_filters_example =
    has_role-eq-meets_all_filters member_db 5 pilot_role (ground arith) (refl, tt) (refl, tt)

send_chunked_message-Delivers_example :
    Delivers
      (send_chunked_message calm_env [] five ((b'a' ∷ []) ∷ (b'b' ∷ []) ∷ []) (world_of empty_db))
      (sent_text [] ++ joined ((b'a' ∷ []) ∷ (b'b' ∷ []) ∷ []))
send_chunked_message-Delivers_example =
    send_chunked_message-Delivers calm_env [] five ((b'a' ∷ []) ∷ (b'b' ∷ []) ∷ [])
      (world_of empty_db) (ground arith, (ground arith, tt))

truncate_lem_example :
    FitsLimits (truncate new_embed) × (truncate (truncate new_embed) ≡ truncate new_embed)
truncate_lem_example = truncate_lem new_embed

extract_user_id-mention_of_example :
    (is_discord_user (mention_of true five) ≡ true)
    × (extract_user_id (mention_of true five) (world_of empty_db) ≡ done five (world_of empty_db))
extract_user_id-mention_of_example =
    extract_user_id-mention_of true b'5' [] (world_of empty_db) (refl, tt)

add_member_adds_nobody_example :
    (final (
      add_member calm_env
        (mention_of false five)
        (b'q' ∷ [])
        five
        (world_of empty_db))).db.permission_membership
    ≡ empty_db.permission_membership
add_member_adds_nobody_example =
    add_member_adds_nobody calm_env (mention_of false five) (b'q' ∷ []) five (world_of empty_db)
      empty_db-IsValid

can_perform_ignores_members_example :
    can_perform calm_env five (b'q' ∷ []) (world_of empty_db)
    ≡ done (ok tt) (tick (tick (world_of empty_db)))
unfolding bytes_beq atoi digits_value auth_web lit
can_perform_ignores_members_example =
    can_perform_ignores_members calm_env five (b'q' ∷ []) 5 (world_of empty_db) calm_env-IsCalm refl
      refl

add_member_queues_gains_example :
    (ps : List MemberPayload) × Ends
      (Members.add_member calm_env list_sets five (b'p' ∷ []) (world_of empty_db))
      member_db
      ([] ++ ps)
    × All (λ p. (p.action ≡ Action.upsert) × (p.member_id ≡ five)) ps
    × (any (λ p. p.role_id == chat_77) ps ≡ (
        not (chat_77 == zero_id) && (holds 5 member_db chat_77 && not (holds 5 empty_db chat_77))))
unfolding bytes_beq atoi digits_value insert_into_filter_membership
add_member_queues_gains_example =
    add_member_queues_gains calm_env list_sets (b'p' ∷ []) five (false, 5) 5 pilots []
      (world_of empty_db) member_db chat_77 list_sets-IsLawful calm_env-IsCalm refl refl refl refl

remove_member_queues_losses_example :
    (ps : List MemberPayload) × Ends
      (Members.remove_member calm_env list_sets five (b'p' ∷ []) (world_of member_db))
      empty_db
      ([] ++ ps)
    × All (λ p. (p.action ≡ Action.delete) × (p.member_id ≡ five)) ps
    × (any (λ p. p.role_id == chat_77) ps ≡ (
        not (chat_77 == zero_id) && (holds 5 member_db chat_77 && not (holds 5 empty_db chat_77))))
unfolding bytes_beq atoi digits_value delete_from_filter_membership
remove_member_queues_losses_example =
    remove_member_queues_losses calm_env list_sets (b'p' ∷ []) five (false, 5) 5 pilots []
      (world_of member_db) empty_db chat_77 list_sets-IsLawful calm_env-IsCalm refl refl refl refl

get_filter-insert_filter_example :
    (w1 : World) × (insert_filter calm_env (b'q' ∷ []) five (world_of empty_db) ≡ done (ok 2) w1)
    × (get_filter calm_env (b'q' ∷ []) w1
        ≡ done (ok (record { id = 2; name = b'q' ∷ []; description = five })) (tick w1))
unfolding bytes_beq char_count
get_filter-insert_filter_example =
    get_filter-insert_filter calm_env calm_env-IsCalm (b'q' ∷ []) five (world_of empty_db) refl refl

delete_filter_leaves_nothing_example :
    (w1 : World) × (delete_filter calm_env (b'p' ∷ []) (world_of member_db) ≡ done (ok tt) w1)
    × (any (λ g. g.id == 1) w1.db.filters ≡ false)
    × (any (λ m. m.filter == 1) w1.db.filter_membership ≡ false)
    × (any (λ rf. rf.filter == 1) w1.db.role_filters ≡ false)
    × (any (λ m. m.filter == 3 && m.user_id == 5) w1.db.filter_membership
        ≡ any (λ m. m.filter == 3 && m.user_id == 5) member_db.filter_membership)
unfolding bytes_beq
delete_filter_leaves_nothing_example =
    delete_filter_leaves_nothing calm_env calm_env-IsCalm (b'p' ∷ []) pilots [] (world_of member_db)
      3 5 refl refl

contains-users_in_all_example :
    contains (users_in_all (1 ∷ []) member_db.filter_membership) 5
    ≡ not (any (λ g. not (is_member member_db.filter_membership 5 g)) (1 ∷ []))
contains-users_in_all_example =
    contains-users_in_all 1 [] member_db.filter_membership 5 (refl, tt) (refl, tt)

abbrev chat_role : ℕ → Role
chat_role n = record zero_role { chat_id = n }

abbrev roles_7_8 : ChremoasRoleSet
roles_7_8 = record { set = (7, chat_role 7) ∷ (8, chat_role 8) ∷ [] }

abbrev roles_8 : ChremoasRoleSet
roles_8 = record { set = (8, chat_role 8) ∷ [] }

membership_laws_example :
    (IsRoleSet (intersection roles_7_8 roles_8)
      × IsRoleSet (difference roles_7_8 roles_8)
      × IsRoleSet (merge roles_7_8 roles_8))
    × (contains_role (chat_role 7) (intersection roles_7_8 roles_8)
        ≡ (contains_role (chat_role 7) roles_7_8 && contains_role (chat_role 7) roles_8))
    × (contains_role (chat_role 7) (difference roles_7_8 roles_8)
        ≡ (contains_role (chat_role 7) roles_7_8 && not (contains_role (chat_role 7) roles_8)))
    × (contains_role (chat_role 7) (merge roles_7_8 roles_8)
        ≡ (contains_role (chat_role 7) roles_8 || contains_role (chat_role 7) roles_7_8))
unfolding is_zero bytes_beq
membership_laws_example =
    membership_laws roles_7_8 roles_8 (chat_role 7)
      (record { entries = ((refl, refl), ((refl, refl), tt)); keys = (refl, (refl, tt)) })
      (record { entries = ((refl, refl), tt); keys = (refl, tt) })

send_chunked_message-Fits_example :
    All Fits
      (final (send_chunked_message calm_env [] five (five ∷ five ∷ []) (world_of empty_db))).sent
send_chunked_message-Fits_example =
    send_chunked_message-Fits calm_env [] five (five ∷ five ∷ []) (world_of empty_db) tt
