-- ===== src/Consumers/MembersAnswers.antt =====
-- How the members handler answers its deliveries.
use chremoas_ng.Base.{
  ℕ, ◌≡◌, refl, sym, ◌∙◌, ◌⊎◌, inl, inr, true, false, Option, none, some, List, [], ◌∷◌, bytes_eq,
  length, All,
}
use chremoas_ng.Base.Text.{Str, is_empty}
use chremoas_ng.Payloads.{Action, MemberPayload}
use chremoas_ng.Common.CheckAndDelete.{is_not_found, check_and_delete}
use chremoas_ng.Common.Session.{ask}
use chremoas_ng.World.{Env, Error, pure, check, Request}
use chremoas_ng.World.Gives.{Gives, Anything, IfOk, Gives-pure, Gives-if, Gives-bind, Gives-check}
use chremoas_ng.Consumers.Answers.{Answer, acked, rejected}
use chremoas_ng.Consumers.Giving.{
  IfError, get_role_by_chat_id-Gives, ask-Gives, guild_roles-Gives, EachAnswered,
  handle_messages-Gives,
}
use chremoas_ng.Consumers.Members.{
  failed, change_member, handle_payload, handle_decoded, handle_message, handle_member_messages,
}

abbrev pub Impossible : Error → Type 0
Impossible e = ⊥

-- `Answers` holds of the three single answers, of requeueing where Discord can fail; Discord
-- never says that a user is gone, and always tells its roles.
module _ (env : Env) (decode : Str → Option MemberPayload) (Answers : List Answer → Type 0)
    (ack : Answers (acked ∷ [])) (drop : Answers (rejected false ∷ []))
    (known : (n : ℕ) → IfError Impossible (env.guild_roles n))
    (errors : (n : ℕ) (e : Error)
      → env.rest_fault n ≡ some e
      → (is_not_found e ≡ false) × Answers (rejected true ∷ [])) where
  abbrev Retried : Error → Type 0
  Retried e = (is_not_found e ≡ false) × Answers (rejected true ∷ [])

  failed-Gives : (member : Str) (e : Error) → Retried e → Gives Answers (failed env decode member e)
  unfolding failed check_and_delete
  failed-Gives member e retried =
      Gives-bind (λ h. h.0 ≡ false) Answers _ _
        (rw (check_and_delete, retried.0) (Gives-pure _ _ refl))
        (λ h unhandled. rw unhandled (Gives-pure _ _ retried.1))

  request-Gives :
      (member : Str) (request : Request)
      → Gives Answers (check (ask env request) (failed env decode member) (λ _. pure (acked ∷ [])))
  request-Gives member request =
      Gives-check (IfError Retried) Answers _ _ _ (ask-Gives env Retried errors request)
        (failed-Gives member) (λ a h. Gives-pure _ _ ack)

  change_member-Gives :
      (body : MemberPayload) (action : Action)
      → Gives Answers (change_member env decode body action)
  unfolding change_member
  change_member-Gives body Action.delete = request-Gives body.member_id _
  change_member-Gives body (Action.unknown text) = Gives-pure _ _ ack
  change_member-Gives body Action.add =
      Gives-check (IfOk Anything) Answers _ _ _ (get_role_by_chat_id-Gives env body.role_id)
        (λ e h. Gives-pure _ _ drop)
        (λ role h. Gives-if _ _ _ _ (Gives-pure _ _ drop) (request-Gives body.member_id _))
  change_member-Gives body Action.upsert =
      Gives-check (IfOk Anything) Answers _ _ _ (get_role_by_chat_id-Gives env body.role_id)
        (λ e h. Gives-pure _ _ drop)
        (λ role h. Gives-if _ _ _ _ (Gives-pure _ _ drop) (request-Gives body.member_id _))

  handle_payload-Gives : (body : MemberPayload) → Gives Answers (handle_payload env decode body)
  unfolding handle_payload
  handle_payload-Gives body = Gives-if _ _ _ _ (Gives-pure _ _ drop) (
      Gives-check (IfError Impossible) Answers _ _ _ (guild_roles-Gives env Impossible known)
        (λ e h. absurd h)
        (λ roles h. Gives-if _ _ _ _ (Gives-pure _ _ drop) (change_member-Gives body body.action)))

  handle_decoded-Gives : (o : Option MemberPayload) → Gives Answers (handle_decoded env decode o)
  unfolding handle_decoded
  handle_decoded-Gives none = Gives-pure _ _ drop
  handle_decoded-Gives (some body) = handle_payload-Gives body

  handle_message-Gives :
      (body : Str) → is_empty body ≡ false → Gives Answers (handle_message env decode body)
  unfolding handle_message
  handle_message-Gives body e = rw (handle_message, e) (handle_decoded-Gives (decode body))

  handle_member_messages-Gives :
      (bodies : List Str)
      → All (λ body. is_empty body ≡ false) bodies
      → Gives (EachAnswered Answers bodies) (handle_member_messages env decode bodies)
  unfolding handle_member_messages
  handle_member_messages-Gives bodies full =
      handle_messages-Gives Answers _ _ bodies handle_message-Gives full

-- Where Discord always tells its roles, and never says of a request that the user is gone, the
-- members handler goes through any deliveries that are not empty without a panic, and answers each
-- of them exactly once.
pub member_deliveries_answered_once :
    (env : Env) (decode : Str → Option MemberPayload) (bodies : List Str)
    → ((n : ℕ) → IfError Impossible (env.guild_roles n))
    → ((n : ℕ) (e : Error) → env.rest_fault n ≡ some e → is_not_found e ≡ false)
    → All (λ body. is_empty body ≡ false) bodies
    → Gives
        (EachAnswered (λ answers. length answers ≡ 1) bodies)
        (handle_member_messages env decode bodies)
member_deliveries_answered_once env decode bodies known found full =
    handle_member_messages-Gives env decode (λ answers. length answers ≡ 1) refl refl known
      (λ n e failing. (found n e failing, refl)) bodies full

-- An answer after which the delivery does not come again.
abbrev pub IsFinal : List Answer → Type 0
IsFinal answers = (answers ≡ acked ∷ []) ⊎ (answers ≡ rejected false ∷ [])

-- Where Discord tells its roles and does what it is asked for, the members handler, whatever the
-- database does, goes through any deliveries that are not empty without a panic, and each of them
-- is acknowledged or dropped, never requeued.
pub member_deliveries_settled :
    (env : Env) (decode : Str → Option MemberPayload) (bodies : List Str)
    → ((n : ℕ) → IfError Impossible (env.guild_roles n))
    → ((n : ℕ) → env.rest_fault n ≡ none)
    → All (λ body. is_empty body ≡ false) bodies
    → Gives (EachAnswered IsFinal bodies) (handle_member_messages env decode bodies)
member_deliveries_settled env decode bodies known faultless full =
    handle_member_messages-Gives env decode IsFinal (inl refl) (inr refl) known
      (λ n e failing. absurd (none_is_some e (sym (faultless n) ∙ failing))) bodies full
  where
    none_is_some : (e : Error) → none ≡ some e → ⊥
    none_is_some e h = cc
