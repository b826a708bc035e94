-- ===== src/Storage/UserLaws.antt =====
-- What DeleteDiscordUser (internal/storage/user.go) leaves behind.
use chremoas_ng.Base.{
  arith, ◌≡◌, refl, ap, ◌∙◌, Bool, List, [], ◌∷◌, map, keep, drop_all, ◌==◌, bytes_eq,
}
use chremoas_ng.Base.Text.{Str}
use chremoas_ng.Database.{delete_from_user_character_map}
use chremoas_ng.World.{World, Env, done, pure, tick, ok, execute}
use chremoas_ng.World.Runs.{IsCalm, query-rows, query-select, check-ok}
use chremoas_ng.Storage.Users.{
  mapped_character, get_discord_characters, delete_characters, delete_discord_user,
}

keep-drop_all {ℓ} : {A : Type ℓ} (p : A → Bool) (xs : List A) → keep p (drop_all p xs) ≡ []
keep-drop_all p [] = refl
keep-drop_all p (x ∷ xs) = ground (arith, keep-drop_all p xs)

-- Without faults, DeleteDiscordUser deletes the mappings of the user and nothing else: it looks
-- for the user's characters among the mappings that it has just deleted, so that the characters
-- and their authentication codes, which it is to clean up, stay.
pub delete_discord_user_leaves_characters :
    (env : Env) (chat_id : Str) (w : World)
    → IsCalm env
    → delete_discord_user env chat_id w
      ≡ done (ok tt) (record (tick (tick w)) {
        db = delete_from_user_character_map (λ m. m.chat_id == chat_id) w.db;
      })
unfolding delete_discord_user get_discord_characters delete_characters pure
    delete_from_user_character_map
delete_discord_user_leaves_characters env chat_id w calm =
    let after : World = record (tick w) {
      db = delete_from_user_character_map (λ m. m.chat_id == chat_id) w.db;
    } in
    check-ok _ _ _ w after tt (
      query-rows env (execute (delete_from_user_character_map (λ m. m.chat_id == chat_id))) w tt _
        calm refl)
    ∙ check-ok _ _ _ after (tick after) [] (
        query-select env
          (λ db. map mapped_character (keep (λ m. m.chat_id == chat_id) db.auth.user_character_map))
          after calm
        ∙ ap (λ ms. done (ok (map mapped_character ms)) (tick after))
            (keep-drop_all (λ m. m.chat_id == chat_id) w.db.auth.user_character_map))
