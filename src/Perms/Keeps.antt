-- ===== src/Perms/Keeps.antt =====
-- The commands of internal/perms that list keep whatever holds of the tables, and so do those that
-- change permissions, for an author whom CanPerform refuses.
use chremoas_ng.Base.{ℕ, List, [], ◌∷◌}
use chremoas_ng.Base.Text.{Str, decimal}
use chremoas_ng.Database.{Db}
use chremoas_ng.World.{Env, M, MessageSend}
use chremoas_ng.World.Keeps.{Keeps, Keeps-pure, Keeps-bind, Keeps-if, keeps_rules}
use chremoas_ng.Common.Keeps.{extract_user_id-Keeps, get_username-Keeps, send_chunked_message-Keeps}
use chremoas_ng.Storage.Keeps.{
  get_permission-Keeps, get_permissions-Keeps, list_permission_members-Keeps,
  get_user_permissions-Keeps, get_permission_count-Keeps,
}
use chremoas_ng.Perms.Refusal.{IsRefused, Keeps-refused}
use chremoas_ng.Perms.{
  server_admins, no_rights, not_permitted, can_perform, send_list, list, guarded, add, delete,
  member_lines, show_members, list_members, add_member, remove_member, user_perms,
}

ruleset perms_rules = (
  keeps_rules, extract_user_id-Keeps, get_username-Keeps, send_chunked_message-Keeps,
  get_permission-Keeps, get_permissions-Keeps, list_permission_members-Keeps,
  get_user_permissions-Keeps, get_permission_count-Keeps,
)

module _ {I : Db → Type 0} (env : Env) where
  can_perform-Keeps : (author_id permission : Str) → Keeps I (can_perform env author_id permission)
  unfolding can_perform
  can_perform-Keeps author_id permission = search perms_rules depth 8

  guarded-Keeps :
      (permission author : Str) (next : M (List MessageSend))
      → IsRefused author server_admins I
      → Keeps I (guarded env permission author next)
  unfolding guarded no_rights not_permitted
  guarded-Keeps permission author next r =
      Keeps-if _ _ _ (Keeps-pure _)
        (Keeps-refused env author server_admins _ _ r (λ e. Keeps-pure _))

  pub add-Keeps :
      (permission description author : Str)
      → IsRefused author server_admins I
      → Keeps I (add env permission description author)
  unfolding add
  add-Keeps permission description author r = guarded-Keeps permission author _ r

  pub delete-Keeps :
      (permission author : Str)
      → IsRefused author server_admins I
      → Keeps I (delete env permission author)
  unfolding delete
  delete-Keeps permission author r = guarded-Keeps permission author _ r

  send_list-Keeps : (channel : Str) (ps : List Str) → Keeps I (send_list env channel ps)
  unfolding send_list
  send_list-Keeps channel [] = search perms_rules
  send_list-Keeps channel (p ∷ ps) = search perms_rules

  pub list-Keeps : (channel_id : Str) → Keeps I (list env channel_id)
  unfolding list
  list-Keeps channel_id = search (perms_rules, send_list-Keeps) depth 7

  member_lines-Keeps : (us : List ℕ) → Keeps I (member_lines env us)
  unfolding member_lines
  member_lines-Keeps [] = Keeps-pure []
  member_lines-Keeps (u ∷ us) =
      Keeps-bind _ _ (get_username-Keeps env (decimal u))
        (λ name. Keeps-bind _ _ (member_lines-Keeps us) (λ rest. Keeps-pure _))

  show_members-Keeps : (permission : Str) (us : List ℕ) → Keeps I (show_members env permission us)
  unfolding show_members
  show_members-Keeps permission [] = Keeps-pure _
  show_members-Keeps permission (u ∷ us) =
      Keeps-bind _ _ (member_lines-Keeps (u ∷ us)) (λ buffer. Keeps-pure _)

  pub list_members-Keeps : (permission : Str) → Keeps I (list_members env permission)
  unfolding list_members
  list_members-Keeps permission = search (perms_rules, show_members-Keeps) depth 7

  pub add_member-Keeps :
      (user permission author : Str)
      → IsRefused author server_admins I
      → Keeps I (add_member env user permission author)
  unfolding add_member
  add_member-Keeps user permission author r = guarded-Keeps permission author _ r

  pub remove_member-Keeps :
      (user permission author : Str)
      → IsRefused author server_admins I
      → Keeps I (remove_member env user permission author)
  unfolding remove_member
  remove_member-Keeps user permission author r = guarded-Keeps permission author _ r

  pub user_perms-Keeps : (user : Str) → Keeps I (user_perms env user)
  unfolding user_perms
  user_perms-Keeps user = search perms_rules depth 12
