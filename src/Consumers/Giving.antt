-- ===== src/Consumers/Giving.antt =====
-- What the calls of the handlers give, and what the loop over the deliveries gives.
use chremoas_ng.Base.{
  ℕ, suc, ◌≡◌, refl, ap, Bool, Option, none, some, List, [], ◌∷◌, ◌++◌, length, All,
}
use chremoas_ng.Base.Text.{Str}
use chremoas_ng.Common.Session.{guild_roles, ask, guild_role_create}
use chremoas_ng.Storage.Roles.{get_role, get_role_by_chat_id, update_role}
use chremoas_ng.World.{World, Env, Request, role_create, M, done, tick, Error, Result, ok, err}
use chremoas_ng.World.Gives.{
  Returns, Gives, Anything, IfOk, Gives-pure, Gives-if, Gives-query, Gives-bind, Gives-check,
}
use chremoas_ng.Consumers.Answers.{Answer, handle_messages}

-- An error is one of some kind.
abbrev pub IfError : {A : Type 0} → (Error → Type 0) → Result A → Type 0
IfError P (ok a) = Unit
IfError P (err e) = P e

anything : {A : Type 0} (r : Result A) → IfOk Anything r
anything (ok a) = tt
anything (err e) = tt

module _ (env : Env) where
  pub get_role_by_chat_id-Gives : (id : Str) → Gives (IfOk Anything) (get_role_by_chat_id env id)
  unfolding get_role_by_chat_id
  get_role_by_chat_id-Gives id =
      Gives-check (IfOk Anything) (IfOk Anything) _ _ _ (Gives-query env _)
        (λ e h. Gives-pure _ _ tt) (λ found h. Gives-pure _ _ (anything _))

  pub get_role-Gives :
      (name ticker : Str) (sig : Option Bool) → Gives (IfOk Anything) (get_role env name ticker sig)
  unfolding get_role
  get_role-Gives name ticker sig =
      Gives-check (IfOk Anything) (IfOk Anything) _ _ _ (search Gives-query)
        (λ e h. Gives-pure _ _ tt) (λ found h. Gives-pure _ _ (anything _))

  pub update_role-Gives :
      (chat_id name : Str) → Gives (IfOk Anything) (update_role env chat_id name [])
  unfolding update_role
  update_role-Gives chat_id name = Gives-if _ _ _ _ (Gives-pure _ _ tt) (Gives-query env _)

  -- The kind of error with which Discord can answer.
  module _ (P : Error → Type 0)
      (errors : (n : ℕ) (e : Error) → env.rest_fault n ≡ some e → P e) where
    pub ask-Gives : (request : Request) → Gives (IfError P) (ask env request)
    unfolding ask
    ask-Gives request = record { at = λ w. by_fault w (env.rest_fault w.clock) (errors w.clock) }
      where
        by_fault :
            (w : World) (o : Option Error)
            → ((e : Error) → o ≡ some e → P e)
            → Returns (IfError {A = Unit} P) (elim o [
              | some e ↦ done (err e) (tick w)
              | none ↦ done (ok tt) (record (tick w) { requests = w.requests ++ (request ∷ []) })
            ])
        by_fault w none given = tt
        by_fault w (some e) given = given e refl

    pub guild_role_create-Gives : (guild : Str) → Gives (IfError P) (guild_role_create env guild)
    unfolding guild_role_create
    guild_role_create-Gives guild = record {
      at = λ w. by_fault w (env.rest_fault w.clock) (errors w.clock);
    }
      where
        by_fault :
            (w : World) (o : Option Error)
            → ((e : Error) → o ≡ some e → P e)
            → Returns (IfError {A = Str} P) (elim o [
              | some e ↦ done (err e) (tick w)
              | none ↦
                  done
                    (ok (env.created_id w.clock))
                    (record (tick w) { requests = w.requests ++ (role_create guild ∷ []) })
            ])
        by_fault w none given = tt
        by_fault w (some e) given = given e refl

  -- The kind of error with which the list of roles can fail.
  pub guild_roles-Gives :
      (P : Error → Type 0)
      → ((n : ℕ) → IfError P (env.guild_roles n))
      → Gives (IfError P) (guild_roles env)
  unfolding guild_roles
  guild_roles-Gives P known = record { at = λ w. known w.clock }

-- One list of answers for each delivery, each as one delivery is answered.
abbrev pub EachAnswered : (List Answer → Type 0) → List Str → List (List Answer) → Type 0
EachAnswered P bodies answers = (length answers ≡ length bodies) × All P answers

pub handle_messages-Gives :
    (P : List Answer → Type 0) (Q : Str → Type 0) (handle : Str → M (List Answer))
    (bodies : List Str)
    → ((body : Str) → Q body → Gives P (handle body))
    → All Q bodies
    → Gives (EachAnswered P bodies) (handle_messages handle bodies)
unfolding handle_messages
handle_messages-Gives P Q handle [] gives given = Gives-pure _ _ (refl, tt)
handle_messages-Gives P Q handle (body ∷ bodies) gives given =
    Gives-bind P _ _ _ (gives body given.0) λ answers h.
      Gives-bind (EachAnswered P bodies) _ _ _
        (handle_messages-Gives P Q handle bodies gives given.1)
        (λ rest r. Gives-pure _ _ (ap suc r.0, (h, r.1)))
