-- ===== src/Consumers/RolesAnswers.antt =====
-- How the roles handler answers its deliveries.
use chremoas_ng.Base.{
  ℕ, ◌≡◌, refl, Option, none, some, List, [], ◌∷◌, nat_eq, length, All, bytes_eq,
}
use chremoas_ng.Base.Text.{Str}
use chremoas_ng.Payloads.{Action, RolePayload}
use chremoas_ng.Common.CheckAndDelete.{status_of}
use chremoas_ng.World.{Env, Run, done, panic, Error, Result, M, ok, err}
use chremoas_ng.World.Gives.{
  Returns, Gives, Anything, IfOk, Gives-pure, Gives-if, Gives-bind, Gives-check,
}
use chremoas_ng.Consumers.Answers.{Answer}
use chremoas_ng.Consumers.Giving.{
  IfError, get_role-Gives, update_role-Gives, ask-Gives, guild_role_create-Gives, guild_roles-Gives,
  EachAnswered, handle_messages-Gives,
}
use chremoas_ng.Consumers.Roles.{
  exists, edit_role, create_role, upsert, after_delete, delete, change_role, handle_payload,
  handle_decoded, handle_message, handle_role_messages,
}

-- An answer of Discord's REST interface, with its status.
abbrev pub HasStatus : Error → Type 0
HasStatus e = (status : ℕ) × (status_of e ≡ some status)

abbrev AnsweredOnce : List Answer → Type 0
AnsweredOnce answers = length answers ≡ 1

-- Anything that ends without a panic.
weaken :
    {A : Type 0} {P : Error → Type 0} {m : M (Result A)} → Gives (IfError P) m → Gives Anything m
weaken {A} {P} {m} g = record { at = λ w. drop_condition (m w) (g.at w) }
  where
    drop_condition : (r : Run (Result A)) → Returns (IfError P) r → Returns Anything r
    drop_condition (done a w) h = tt
    drop_condition (panic w) h = h

module _ (env : Env) (errors : (n : ℕ) (e : Error) → env.rest_fault n ≡ some e → HasStatus e) where
  exists-Gives : (name : Str) → Gives Anything (exists env name)
  unfolding exists
  exists-Gives name =
      Gives-check (IfError Anything) Anything _ _ _
        (guild_roles-Gives env Anything (λ n. no_condition (env.guild_roles n)))
        (λ e h. Gives-pure _ _ tt) (λ roles h. Gives-pure _ _ tt)
    where
      no_condition : {A : Type 0} (r : Result A) → IfError Anything r
      no_condition (ok a) = tt
      no_condition (err e) = tt

  edit_role-Gives : (payload : RolePayload) (id : Str) → Gives Anything (edit_role env payload id)
  unfolding edit_role
  edit_role-Gives payload id = weaken (ask-Gives env HasStatus errors _)

  create_role-Gives : (payload : RolePayload) → Gives Anything (create_role env payload)
  unfolding create_role
  create_role-Gives payload =
      Gives-check (IfError HasStatus) Anything _ _ _
        (guild_role_create-Gives env HasStatus errors _) (λ e h. Gives-pure _ _ tt)
        (λ id h.
          Gives-bind (IfOk Anything) Anything _ _ (update_role-Gives env id payload.role.name)
            (λ r k. edit_role-Gives payload id))

  upsert-Gives : (payload : RolePayload) → Gives Anything (upsert env payload)
  unfolding upsert
  upsert-Gives payload =
      Gives-check (IfOk Anything) Anything _ _ _
        (get_role-Gives env payload.role.name payload.role.short_name none)
        (λ e h. Gives-pure _ _ tt)
        (λ role h. Gives-if _ _ _ _ (Gives-pure _ _ tt) (
          Gives-bind Anything Anything _ _ (exists-Gives payload.role.name) (λ found k.
            Gives-if _ _ _ _
              (Gives-if _ _ _ _ (Gives-pure _ _ tt) (edit_role-Gives payload payload.role.id))
              (create_role-Gives payload))))

  after_delete-Gives : (e : Error) → HasStatus e → Gives Anything (after_delete env e)
  unfolding after_delete
  after_delete-Gives e (status, known) =
      rw (after_delete, known) (Gives-if _ _ _ _ (Gives-pure _ _ tt) (Gives-pure _ _ tt))

  delete-Gives : (payload : RolePayload) → Gives Anything (delete env payload)
  unfolding delete
  delete-Gives payload =
      Gives-check (IfError HasStatus) Anything _ _ _ (ask-Gives env HasStatus errors _)
        after_delete-Gives (λ a h. Gives-pure _ _ tt)

  module _ (decode : Str → Option RolePayload) where
    change_role-Gives :
        (body : RolePayload) (action : Action) → Gives Anything (change_role env decode body action)
    unfolding change_role
    change_role-Gives body Action.upsert = upsert-Gives body
    change_role-Gives body Action.delete = delete-Gives body
    change_role-Gives body Action.add = Gives-pure _ _ tt
    change_role-Gives body (Action.unknown text) = Gives-pure _ _ tt

    decoded-Gives : (o : Option RolePayload) → Gives AnsweredOnce (handle_decoded env decode o)
    unfolding handle_decoded handle_payload
    decoded-Gives none = Gives-pure _ _ refl
    decoded-Gives (some body) = Gives-if _ _ _ _ (Gives-pure _ _ refl) (
        Gives-check Anything AnsweredOnce _ _ _ (change_role-Gives body body.action)
          (λ e h. Gives-pure _ _ refl) (λ a h. Gives-pure _ _ refl))

    handle_message-Gives : (body : Str) → Gives AnsweredOnce (handle_message env decode body)
    unfolding handle_message
    handle_message-Gives body = Gives-if _ _ _ _ (Gives-pure _ _ refl) (decoded-Gives (decode body))

All-Anything : (bodies : List Str) → All (Anything {A = Str}) bodies
All-Anything [] = tt
All-Anything (body ∷ bodies) = (tt, All-Anything bodies)

-- Where every failure of Discord is an answer of its REST interface, the roles handler, whatever
-- the database does, goes through any deliveries without a panic, and answers each exactly once.
pub role_deliveries_answered_once :
    (env : Env) (decode : Str → Option RolePayload) (bodies : List Str)
    → ((n : ℕ) (e : Error) → env.rest_fault n ≡ some e → HasStatus e)
    → Gives
        (EachAnswered (λ answers. length answers ≡ 1) bodies)
        (handle_role_messages env decode bodies)
unfolding handle_role_messages
role_deliveries_answered_once env decode bodies errors =
    handle_messages-Gives _ Anything _ bodies
      (λ body h. handle_message-Gives env errors decode body) (All-Anything bodies)
