-- ===== src/Commands/RoleRefusals.antt =====
-- What the commands `!role` and `!sig` do for an author whom CanPerform refuses.
use chremoas_ng.Base.{Bool, bytes_eq, List, [], ◌∷◌}
use chremoas_ng.Base.Text.{Str}
use chremoas_ng.Common.Keeps.{extract_user_id-Keeps}
use chremoas_ng.Common.StringSets.{StringSets}
use chremoas_ng.Database.{Db}
use chremoas_ng.World.{Env, World, M, MessageSend}
use chremoas_ng.World.Keeps.{Keeps, keeps_rules}
use chremoas_ng.Roles.Keeps.{
  list-Keeps, list_members-Keeps, list_user_roles-Keeps, info-Keeps, list_filters-Keeps,
}
use chremoas_ng.Sigs as Sigs
use chremoas_ng.Sigs.Keeps as SigsKeeps
use chremoas_ng.Commands.Role.{membership_of, members_of}

module _ {I : Db → Type 0} (env : Env) where
  membership_of-Keeps :
      (sig : Bool) (author : Str) (args : List Str) → Keeps I (membership_of env sig author args)
  unfolding membership_of
  membership_of-Keeps sig author [] = list_user_roles-Keeps env sig author
  membership_of-Keeps sig author (user ∷ args) =
      search (keeps_rules, extract_user_id-Keeps, list_user_roles-Keeps) depth 7

  members_of-Keeps :
      (sig : Bool) (help : M (List MessageSend)) (args : List Str)
      → Keeps I help
      → Keeps I (members_of env sig help args)
  unfolding members_of
  members_of-Keeps sig help [] k = k
  members_of-Keeps sig help (name ∷ args) k = list_members-Keeps env sig name

ruleset role_commands_rules =
    (keeps_rules, membership_of-Keeps, members_of-Keeps, list-Keeps, info-Keeps, list_filters-Keeps)
