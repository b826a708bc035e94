-- ===== src/Common/Keeps.antt =====
-- Rules for internal/common: a call of Discord or of a queue leaves the tables alone.
use chremoas_ng.Base.{
  ℕ, ◌+◌, Bool, true, false, Option, none, some, List, [], ◌∷◌, ◌++◌, ltb, length, if◌then◌else◌,
}
use chremoas_ng.Base.Text.{Str, atoi}
use chremoas_ng.Payloads.{MemberPayload, RolePayload}
use chremoas_ng.Database.{Db}
use chremoas_ng.Common.Embed.{Embed, embed_limit_description}
use chremoas_ng.Common.Mention.{is_discord_user, submatch, extract_user_id}
use chremoas_ng.Common.Session.{
  get_username, publish_member, send_embed, publish_role, guild_roles, guild_member, ask,
  guild_role_create,
}
use chremoas_ng.Common.StringSets.{StringSets}
use chremoas_ng.Common.Membership.{user_id_or, get_user_roles, get_membership}
use chremoas_ng.Common.Chunks.{chunk_loop, send_chunked_message}
use chremoas_ng.Storage.Keeps.{get_member_roles-Keeps}
use chremoas_ng.World.{
  World, Env, Error, Result, Request, role_create, M, ◌>>=◌, tick, pure, done, panic, ok, err,
}
use chremoas_ng.World.Keeps.{
  final, Keeps, Keeps-pure, Keeps-if, Keeps-bind, Keeps-check, keeps_rules,
}

module _ {I : Db → Type 0} where
  pub extract_user_id-Keeps : (user : Str) → Keeps I (extract_user_id user)
  unfolding extract_user_id pure
  extract_user_id-Keeps user = record { at = λ w h. after_match (submatch user) w h }
    where
      after_match :
          (o : Option Str) (w : World)
          → I w.db
          → I (final (elim o [ none ↦ panic w | some d ↦ pure d w ])).db
      after_match none w h = h
      after_match (some d) w h = h

  pub user_id_or-Keeps :
      {A : Type 0} (refused : M A) (user : Str) (next : Str → M A)
      → Keeps I refused
      → ((id : Str) → Keeps I (next id))
      → Keeps I (user_id_or refused user next)
  unfolding user_id_or
  user_id_or-Keeps refused user next kr kn = by_number (atoi user)
    where
      by_number :
          (o : Option (Bool × ℕ))
          → Keeps I (elim o [
            | some n ↦ next user
            | none ↦ if is_discord_user user then extract_user_id user >>= next else refused
          ])
      by_number (some n) = kn user
      by_number none =
          Keeps-if (is_discord_user user) _ _ (Keeps-bind _ _ (extract_user_id-Keeps user) kn) kr

module _ {I : Db → Type 0} (env : Env) where
  pub get_username-Keeps : (user_id : Str) → Keeps I (get_username env user_id)
  unfolding get_username
  get_username-Keeps user_id = record { at = λ w h. h }

  pub publish_member-Keeps : (payload : MemberPayload) → Keeps I (publish_member env payload)
  unfolding publish_member
  publish_member-Keeps payload = record { at = λ w h. after_fault (env.publish_fault w.clock) w h }
    where
      after_fault :
          (o : Option Error) (w : World)
          → I w.db
          → I
              (final {A = Result Unit} (elim o [
                | some e ↦ done (err e) (tick w)
                | none ↦
                    done
                      (ok tt)
                      (record (tick w) { members_queue = w.members_queue ++ (payload ∷ []) })
              ])).db
      after_fault none w h = h
      after_fault (some e) w h = h

  pub send_embed-Keeps : (channel : Str) (e : Embed) → Keeps I (send_embed env channel e)
  unfolding send_embed
  send_embed-Keeps channel e = record { at = λ w h. after_fault (env.send_fault w.clock) w h }
    where
      after_fault :
          (o : Option Error) (w : World)
          → I w.db
          → I
              (final {A = Result Unit} (elim o [
                | some f ↦ done (err f) (tick w)
                | none ↦ done (ok tt) (record (tick w) { sent = w.sent ++ ((channel, e) ∷ []) })
              ])).db
      after_fault none w h = h
      after_fault (some f) w h = h

  pub publish_role-Keeps : (payload : RolePayload) → Keeps I (publish_role env payload)
  unfolding publish_role
  publish_role-Keeps payload = record { at = λ w h. after_fault (env.publish_fault w.clock) w h }
    where
      after_fault :
          (o : Option Error) (w : World)
          → I w.db
          → I
              (final {A = Result Unit} (elim o [
                | some e ↦ done (err e) (tick w)
                | none ↦
                    done (ok tt) (record (tick w) { roles_queue = w.roles_queue ++ (payload ∷ []) })
              ])).db
      after_fault none w h = h
      after_fault (some e) w h = h

  pub guild_member-Keeps : (user_id : Str) → Keeps I (guild_member env user_id)
  unfolding guild_member
  guild_member-Keeps user_id = record { at = λ w h. h }

  pub guild_roles-Keeps : Keeps I (guild_roles env)
  unfolding guild_roles
  guild_roles-Keeps = record { at = λ w h. h }

  pub ask-Keeps : (request : Request) → Keeps I (ask env request)
  unfolding ask
  ask-Keeps request = record { at = λ w h. after_fault (env.rest_fault w.clock) w h }
    where
      after_fault :
          (o : Option Error) (w : World)
          → I w.db
          → I
              (final {A = Result Unit} (elim o [
                | some e ↦ done (err e) (tick w)
                | none ↦ done (ok tt) (record (tick w) { requests = w.requests ++ (request ∷ []) })
              ])).db
      after_fault none w h = h
      after_fault (some e) w h = h

  pub guild_role_create-Keeps : (guild : Str) → Keeps I (guild_role_create env guild)
  unfolding guild_role_create
  guild_role_create-Keeps guild = record { at = λ w h. after_fault (env.rest_fault w.clock) w h }
    where
      after_fault :
          (o : Option Error) (w : World)
          → I w.db
          → I
              (final {A = Result Str} (elim o [
                | some e ↦ done (err e) (tick w)
                | none ↦
                    done
                      (ok (env.created_id w.clock))
                      (record (tick w) { requests = w.requests ++ (role_create guild ∷ []) })
              ])).db
      after_fault none w h = h
      after_fault (some e) w h = h

  chunk_loop-Keeps :
      (channel title : Str) (message : List Str) (buffer : Str) (first : Bool)
      → Keeps I (chunk_loop env channel title message buffer first)
  unfolding chunk_loop
  chunk_loop-Keeps channel title [] buffer first = search (keeps_rules, send_embed-Keeps)
  chunk_loop-Keeps channel title (m ∷ message) buffer first =
      Keeps-if (ltb embed_limit_description (length buffer + length m + 2)) _ _
        (Keeps-check _ _ _ (send_embed-Keeps channel _) (λ e. Keeps-pure (err e))
          (λ _. chunk_loop-Keeps channel title message _ false))
        (chunk_loop-Keeps channel title message _ first)

  pub send_chunked_message-Keeps :
      (channel title : Str) (message : List Str)
      → Keeps I (send_chunked_message env channel title message)
  unfolding send_chunked_message
  send_chunked_message-Keeps channel title message = chunk_loop-Keeps channel title message [] true

module _ {I : Db → Type 0} (env : Env) where
  pub get_user_roles-Keeps : (sig : Bool) (user_id : Str) → Keeps I (get_user_roles env sig user_id)
  unfolding get_user_roles
  get_user_roles-Keeps sig user_id =
      user_id_or-Keeps _ user_id _ (Keeps-pure _) (λ id. get_member_roles-Keeps env id sig)

  pub get_membership-Keeps :
      (lib : StringSets) (user_id : Str) → Keeps I (get_membership lib env user_id)
  unfolding get_membership
  get_membership-Keeps lib user_id = search (keeps_rules, get_user_roles-Keeps) depth 7
