-- ===== src/Sigs/Keeps.antt =====
-- New (internal/sigs/sigs.go) keeps whatever holds of the tables, and so do Add and Remove, for an author
-- whom CanPerform refuses.
use chremoas_ng.Base.{
  ℕ, ◌≡◌, refl, Bool, true, Option, none, some, List, [], ◌∷◌, Bool-cases, inl, inr, if◌then◌else◌,
}
use chremoas_ng.Base.Text.{Str, lit, atoi}
use chremoas_ng.Payloads.{Role}
use chremoas_ng.Common.Mention.{is_discord_user, extract_user_id}
use chremoas_ng.Common.Membership.{user_id_or}
use chremoas_ng.Storage.Roles.{get_roles_by_type}
use chremoas_ng.World.Gives.{IfOk}
use chremoas_ng.World.Yields.{Yields, Yields-pure, Yields-bind, Yields-check}
use chremoas_ng.Common.Keeps.{user_id_or-Keeps}
use chremoas_ng.Common.StringSets.{StringSets}
use chremoas_ng.Database.{Db}
use chremoas_ng.Perms.Refusal.{IsRefused, Keeps-refused}
use chremoas_ng.Storage.Keeps.{get_roles_by_type-Keeps}
use chremoas_ng.World.{Env, pure, ◌>>=◌, check, err, message}
use chremoas_ng.World.Keeps.{Keeps, Keeps-pure, keeps_rules}
use chremoas_ng.Sigs.{Sig, first_sig, new, as_sig_admin, add, remove}

module _ {I : Db → Type 0} (env : Env) where
  pub new-Keeps : (member sig author : Str) → Keeps I (new env member sig author)
  unfolding new
  new-Keeps member sig author =
      search (keeps_rules, user_id_or-Keeps, get_roles_by_type-Keeps) depth 9

-- The sig that New returns is asked for by its author.
abbrev IsOf : Str → Sig → Type 0
IsOf author s = s.author ≡ author

first_sig-IsOf :
    (member sig author : Str) (rs : List Role) → IfOk (IsOf author) (first_sig member sig author rs)
unfolding first_sig
first_sig-IsOf member sig author [] = tt
first_sig-IsOf member sig author (r ∷ rs) = elim (Bool-cases r.sig) [
  | inl is ↦ rw is refl
  | inr other ↦ rw other tt
]

new_by_id-Yields :
    (env : Env) (sig author id : Str)
    → Yields (IsOf author) (
        check
          (get_roles_by_type env true)
          (λ e. pure (err e))
          (λ roles. pure (first_sig id sig author roles)))
new_by_id-Yields env sig author id =
    Yields-check _ _ _ (λ e. Yields-pure _ tt)
      (λ roles. Yields-pure _ (first_sig-IsOf id sig author roles))

pub new-Yields :
    (env : Env) (member sig author : Str)
    → Yields (λ s. s.author ≡ author) (new env member sig author)
unfolding new user_id_or
new-Yields env member sig author = by_number (atoi member)
  where
    by_number :
        (o : Option (Bool × ℕ))
        → Yields (IsOf author) (elim o [
          | some n ↦
              check
                (get_roles_by_type env true)
                (λ e. pure (err e))
                (λ roles. pure (first_sig member sig author roles))
          | none ↦
              if is_discord_user member
              then extract_user_id member >>= (λ id.
                check
                  (get_roles_by_type env true)
                  (λ e. pure (err e))
                  (λ roles. pure (first_sig id sig author roles)))
              else pure (err (message (lit "second argument must be a discord user")))
        ])
    by_number (some n) = new_by_id-Yields env sig author member
    by_number none = elim (Bool-cases (is_discord_user member)) [
      | inl is ↦ rw is (Yields-bind _ _ (new_by_id-Yields env sig author))
      | inr other ↦ rw other (Yields-pure _ tt)
    ]

module _ {I : Db → Type 0} (env : Env) (lib : StringSets) (s : Sig)
    (r : IsRefused s.author (lit "sig_admins") I) where
  pub add-Keeps : Keeps I (add env lib s)
  unfolding add as_sig_admin
  add-Keeps = Keeps-refused env s.author (lit "sig_admins") _ _ r (λ e. Keeps-pure _)

  pub remove-Keeps : Keeps I (remove env lib s)
  unfolding remove as_sig_admin
  remove-Keeps = Keeps-refused env s.author (lit "sig_admins") _ _ r (λ e. Keeps-pure _)
