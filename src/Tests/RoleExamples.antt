-- ===== src/Tests/RoleExamples.antt =====
-- The theorems on roles and sigs, and on the commands about them, applied to the concrete data.
use chremoas_ng.Payloads.{MemberPayload, Action}
use chremoas_ng.Base.{
  bytes_beq, ℕ, ◌≡◌, refl, arith, true, false, List, [], ◌∷◌, bytes_eq, bool_eq, nat_eq, All, any,
  not, ◌&&◌, ◌++◌, ◌==◌,
}
use chremoas_ng.Base.Text.{Str, lit, atoi, digits_value, char_count}
use chremoas_ng.Database.{RoleRow, delete_from_roles, insert_into_filter_membership}
use chremoas_ng.World.{World, done, pure, check}
use chremoas_ng.World.Keeps.{final}
use chremoas_ng.Roles.Helpers.{role_types, valid_list_item}
use chremoas_ng.Roles.Changes.{add, created, destroy, destroyed, filter_description}
use chremoas_ng.Roles.Creation.{
  IsNew, with_all, filter_reply, creation, add_creates_role_and_filter,
}
use chremoas_ng.Roles.Destruction.{is_called, deletion, destroy_leaves_filters}
use chremoas_ng.Roles.Filters.{add_filter}
use chremoas_ng.Roles.AddsNothing.{add_filter_adds_nothing}
use chremoas_ng.Sigs.{new, join}
use chremoas_ng.Sigs.Named.{join_adds_to_any_sig}
use chremoas_ng.Filters.Gains.{Ends, holds}
use chremoas_ng.Filters.Queue.{zero_id}
use chremoas_ng.Tests.Sets.{list_sets, list_sets-IsLawful}
use chremoas_ng.Tests.Data.{
  pilots, pilot_role, empty_db, world_of, calm_env, calm_env-IsCalm, empty_db-IsValid,
}

abbrev nine : Str
nine = b'9' ∷ []

abbrev ticker_n : Str
ticker_n = b'n' ∷ []

abbrev internal : Str
internal = b'i' ∷ b'n' ∷ b't' ∷ b'e' ∷ b'r' ∷ b'n' ∷ b'a' ∷ b'l' ∷ []

n-IsNew : IsNew false ticker_n ticker_n internal empty_db
unfolding valid_list_item role_types lit char_count filter_description bytes_beq
n-IsNew = record {
  given = ground arith;
  known_type = refl;
  role_fits = refl;
  filter_fits = refl;
  free_name = refl;
  free_filter = refl;
}

add_creates_role_and_filter_example :
    add calm_env false true ticker_n ticker_n internal (world_of empty_db)
    ≡ done
        (created false ticker_n (filter_reply false true ticker_n ticker_n internal))
        (record (world_of empty_db) {
          db = with_all false true ticker_n ticker_n internal empty_db;
          clock = 4;
          roles_queue =
              creation false true ticker_n ticker_n internal calm_env calm_env-IsCalm ∷ [];
        })
add_creates_role_and_filter_example =
    add_creates_role_and_filter false true ticker_n ticker_n internal calm_env calm_env-IsCalm
      (world_of empty_db) n-IsNew

abbrev role_r : Str
role_r = b'r' ∷ []

destroy_leaves_filters_example :
    (c : ℕ) × (destroy calm_env false role_r (world_of empty_db)
      ≡ done (destroyed false role_r) (record (world_of empty_db) {
        db = delete_from_roles (is_called calm_env calm_env-IsCalm role_r false) empty_db;
        clock = c;
        roles_queue = deletion calm_env calm_env-IsCalm pilot_role ∷ [];
      }))
unfolding bytes_beq
destroy_leaves_filters_example =
    destroy_leaves_filters calm_env calm_env-IsCalm false role_r (world_of empty_db) pilot_role []
      refl refl empty_db-IsValid

add_filter_adds_nothing_example :
    (final (add_filter calm_env false (b'p' ∷ []) role_r (world_of empty_db))).db ≡ empty_db
add_filter_adds_nothing_example =
    add_filter_adds_nothing calm_env false (b'p' ∷ []) role_r (world_of empty_db)

-- A sig that everybody may join.
abbrev open_sig : RoleRow
open_sig = record pilot_role { sig = true; joinable = true }

abbrev sig_world : World
sig_world = world_of (record empty_db { roles = open_sig ∷ [] })

abbrev filter_p : Str
filter_p = b'p' ∷ []

join_adds_to_any_sig_example :
    (ps : List MemberPayload) × Ends
      (check (new calm_env nine filter_p nine) (λ e. pure []) (join calm_env list_sets) sig_world)
      (record sig_world.db { filter_membership = record { filter = 1; user_id = 9 } ∷ [] })
      ([] ++ ps)
    × All (λ p. (p.action ≡ Action.upsert) × (p.member_id ≡ nine)) ps
    × (any (λ p. p.role_id == (b'7' ∷ b'7' ∷ [])) ps ≡ (
        not ((b'7' ∷ b'7' ∷ []) == zero_id)
        && (holds 9
              (record sig_world.db { filter_membership = record { filter = 1; user_id = 9 } ∷ [] })
              (b'7' ∷ b'7' ∷ [])
            && not (holds 9 sig_world.db (b'7' ∷ b'7' ∷ [])))))
unfolding bytes_beq atoi digits_value insert_into_filter_membership
join_adds_to_any_sig_example =
    join_adds_to_any_sig calm_env list_sets (λ e. pure []) nine filter_p (false, 9) 9 sig_world
      open_sig [] pilots []
      (record sig_world.db { filter_membership = record { filter = 1; user_id = 9 } ∷ [] })
      (b'7' ∷ b'7' ∷ []) list_sets-IsLawful calm_env-IsCalm refl refl refl refl refl refl
