-- ===== src/EsiPoller/Characters.antt =====
-- internal/esi-poller/character.go
use chremoas_ng.Base.{
  ℕ, suc, Bool, true, false, Option, none, some, List, [], ◌∷◌, ◌==◌, nat_eq, if◌then◌else◌,
}
use chremoas_ng.Base.Text.{Str, lit}
use chremoas_ng.Payloads.{Action, Corporation, Character}
use chremoas_ng.Common.CheckAndDelete.{check_and_delete}
use chremoas_ng.Common.Membership.{get_membership}
use chremoas_ng.Common.Session.{guild_member}
use chremoas_ng.Common.StringSets.{StringSets}
use chremoas_ng.Filters.Members.{add_member, remove_member}
use chremoas_ng.Filters.Queue.{queue_updates}
use chremoas_ng.Storage.Alliances.{get_alliance}
use chremoas_ng.Storage.Corporations.{get_corporation}
use chremoas_ng.Storage.Characters.{get_characters, upsert_character, delete_character}
use chremoas_ng.Storage.Users.{get_discord_user}
use chremoas_ng.World.{
  Env, EsiCharacter, Member, Error, message, wrapped, is_no_discord_user, done, tick, M, pure,
  ◌>>=◌, ◌>>◌, check, Result, ok, err,
}
use chremoas_ng.EsiPoller.Corporations.{int32, update_corporation}

-- Equality of two sql.NullInt32.
unfoldable pub same_null : Option ℕ → Option ℕ → Bool
same_null none none = true
same_null (some a) (some b) = a == b
same_null none (some b) = false
same_null (some a) none = false

module _ (env : Env) (lib : StringSets) where
  -- `esiClient.ESI.CharacterApi.GetCharactersCharacterId`
  unfoldable pub ask_character : ℕ → M (EsiCharacter × Option Error)
  ask_character id w = done (env.esi_character w.clock id) (tick w)

  -- The user leaves the old alliance's filter, then joins the new one's.
  unfoldable pub change_alliance : Str → Corporation → Corporation → M (Result Unit)
  unfolding int32 same_null
  change_alliance discord_id old new =
      if same_null new.alliance_id old.alliance_id
      then pure (ok tt)
      else check (get_alliance env (int32 old.alliance_id))
          (λ e. pure (err (wrapped (lit "error getting old alliance ticker: ") e)))
          (λ old_alliance. remove_member env lib discord_id old_alliance.ticker >>= λ _.
            check (get_alliance env (int32 new.alliance_id))
              (λ e. pure (err (wrapped (lit "error getting new alliance ticker: ") e)))
              (λ new_alliance.
                add_member env lib discord_id new_alliance.ticker >>= λ _. pure (ok tt)))

  -- What follows once the old corporation is known.
  unfoldable pub leave_corporation : Character → EsiCharacter → Corporation → M (Result Unit)
  unfolding change_alliance
  leave_corporation character response old =
      check
        (upsert_character env character.id response.corporation_id response.name character.token)
        (λ e. pure (err e))
        (λ _.
          check (get_corporation env response.corporation_id) (λ e. pure (err e))
            (λ new.
              check (get_discord_user env character.id) (λ e. pure (err e))
                (λ discord_id. remove_member env lib discord_id old.ticker >>= λ _.
                  add_member env lib discord_id new.ticker >>= λ _.
                  change_alliance discord_id old new)))

  unfoldable pub change_corporation : Character → EsiCharacter → M (Result Unit)
  unfolding leave_corporation
  change_corporation character response =
      if character.corporation_id == response.corporation_id
      then pure (ok tt)
      else check
          (update_corporation env lib
            (record { id = response.corporation_id; name = []; ticker = []; alliance_id = none }))
          (λ e. pure (err e))
          (λ _.
            check (get_corporation env character.corporation_id) (λ e. pure (err e))
              (λ old. leave_corporation character response old))

  -- The roles of the member in Discord follow the tables: what is missing is queued, then what is
  -- too much.
  unfoldable pub follow_membership : Str → Member → M (Result Unit)
  follow_membership chat_id member =
      let have = lib.from_slice member.roles lib.new in
      check (get_membership lib env chat_id) (λ e. pure (err e))
        (λ roles.
          queue_updates env Action.add chat_id (lib.to_slice (lib.difference roles have))
          >> (queue_updates env Action.delete chat_id (lib.to_slice (lib.difference have roles))
              >> pure (ok tt)))

  -- A user whom Discord does not know is forgotten; any other error is returned.
  unfoldable pub missing_member : ℕ → Error → M (Result Unit)
  missing_member id e =
      check (get_discord_user env id) (λ d. pure (err d))
        (λ discord_id. check_and_delete env discord_id e >>= λ handled.
          if handled.0 then pure (ok tt) else pure (err e))

  unfoldable pub update_member : Character → M (Result Unit)
  unfolding follow_membership missing_member
  update_member character =
      check (get_discord_user env character.id) (λ e. pure (err e))
        (λ chat_id.
          check (guild_member env chat_id) (missing_member character.id)
            (follow_membership chat_id))

  unfoldable pub follow_character : Character → EsiCharacter × Option Error → M (Result Unit)
  unfolding change_corporation update_member
  follow_character character (response, some e) = pure (err e)
  follow_character character (response, none) =
      if response.corporation_id == 0
      then pure (err (message (lit "CorpID is 0: ESI error most likely, probably transient")))
      else check (change_corporation character response) (λ e. pure (err e))
          (λ _. update_member character)

  unfoldable pub update_character : Character → M (Result Unit)
  unfolding ask_character follow_character
  update_character character = ask_character character.id >>= follow_character character

  -- `CheckAndDelete` of an error that may be nil.
  unfoldable pub check_user : Str → Option Error → M Bool
  check_user discord_id none = pure false
  check_user discord_id (some e) = check_and_delete env discord_id e >>= λ handled. pure handled.0

  -- A character without a user is deleted. The error of the update is shadowed by that of the search
  -- for the user, which is what CheckAndDelete gets; the answer is whether that has handled it.
  unfoldable pub after_failure : ℕ → M Bool
  unfolding check_user
  after_failure id =
      check (get_discord_user env id)
        (λ e.
          if is_no_discord_user e
          then check (delete_character env id) (λ d. check_user [] (some d))
              (λ _. check_user [] none)
          else check_user [] (some e))
        (λ discord_id. check_user discord_id none)

  unfoldable pub update_each_character : List Character → ℕ × ℕ → M (Result (ℕ × ℕ))
  unfolding update_character after_failure
  update_each_character [] counts = pure (ok counts)
  update_each_character (c ∷ characters) counts =
      check (update_character c)
        (λ e. after_failure c.id >>= λ handled.
          update_each_character characters (counts.0, if handled then counts.1 else suc counts.1))
        (λ _. update_each_character characters (suc counts.0, counts.1))

  unfoldable pub update_characters : M (Result (ℕ × ℕ))
  unfolding update_each_character
  update_characters =
      check (get_characters env) (λ e. pure (err e))
        (λ characters. update_each_character characters (0, 0))
