-- ===== src/Auth.antt =====
-- internal/auth/auth.go: a character of the game gets a code, with which a Discord user claims it.
pub mod Confirm
pub mod Keeps
pub mod Claims
pub mod Joins
pub mod Requests
use chremoas_ng.Base.{
  ℕ, ◌+◌, ◌-◌, ◌/◌, ◌%◌, Bool, true, false, Option, none, some, List, [], ◌∷◌, ◌++◌, ◌==◌, nat_eq,
  if◌then◌else◌, ltb,
}
use chremoas_ng.Base.Text.{Str, lit}
use chremoas_ng.Payloads.{Alliance, Corporation, Character, CreateRequest}
use chremoas_ng.Roles.Changes
use chremoas_ng.Storage.Alliances.{get_alliance_count, upsert_alliance}
use chremoas_ng.Storage.Corporations.{get_corporation_count, upsert_corporation}
use chremoas_ng.Storage.Characters.{get_character_count, upsert_character}
use chremoas_ng.Storage.Codes.{insert_auth_code}
use chremoas_ng.Storage.Roles.{get_role_by_type}
use chremoas_ng.World.{Env, M, pure, panic, done, tick, ◌>>=◌, check, Result, ok, err}

hex_char : ℕ → ℕ
hex_char d = if ltb d 10 then b'0' + d else b'a' + d - 10

-- `hex.EncodeToString`
unfoldable pub hex_encode : List ℕ → Str
unfolding hex_char
hex_encode [] = []
hex_encode (b ∷ bs) = hex_char (b / 16) ∷ hex_char (b % 16) ∷ hex_encode bs

module _ (env : Env) where
  -- `rand.Read` of six bytes, encoded.
  unfoldable pub random_code : M (Result Str)
  unfolding hex_encode
  random_code w = elim (env.random w.clock) [
    | err e ↦ done (err e) (tick w)
    | ok bytes ↦ done (ok (hex_encode bytes)) (tick w)
  ]

  -- The role of an alliance or a corporation: what GetRoleByType returns is not used, but its error
  -- ends the request; the replies of roles.Add are dropped.
  unfoldable pub add_role : Str → Str → M (Result Unit)
  add_role ticker name =
      check (get_role_by_type env false ticker) (λ e. pure (err e))
        λ _. Changes.add env false false ticker name (lit "discord") >>= λ _. pure (ok tt)

  unfoldable pub register_alliance : Option Alliance → M (Result Unit)
  register_alliance none = pure (ok tt)
  register_alliance (some a) =
      check (get_alliance_count env a.id) (λ e. pure (err e))
        λ count.
          check (if count == 0 then upsert_alliance env a.id a.name a.ticker else pure (ok tt))
            (λ e. pure (err e)) (λ _. add_role a.ticker a.name)

  -- `request.Alliance.ID` panics without an alliance; an error is logged only.
  unfoldable pub insert_corporation : Option Alliance → Corporation → M Unit
  insert_corporation none c = λ w. panic w
  insert_corporation (some a) c =
      check (upsert_corporation env c.id a.id c.name c.ticker) (λ e. pure tt) (λ _. pure tt)

  unfoldable pub register_corporation : Option Alliance → Corporation → M (Result Unit)
  unfolding insert_corporation
  register_corporation alliance c =
      check (get_corporation_count env c.id) (λ e. pure (err e))
        λ count. (if count == 0 then insert_corporation alliance c else pure tt) >>= λ _.
          add_role c.ticker c.name

  -- A count that could not be read is -1, so that the character is taken to be there.
  unfoldable pub register_character : Str → Corporation → Character → M (Result Unit)
  register_character token corporation c =
      check (get_character_count env c.id) (λ e. pure (ok tt))
        (λ count.
          if count == 0
          then check (upsert_character env c.id corporation.id c.name token) (λ e. pure (err e))
              (λ _. pure (ok tt))
          else pure (ok tt))

  unfoldable pub create : CreateRequest → M (Result Str)
  unfolding random_code
  create request =
      check (register_alliance request.alliance) (λ e. pure (err e))
        λ _.
          check (register_corporation request.alliance request.corporation) (λ e. pure (err e))
            λ _.
              check (register_character request.token request.corporation request.character)
                (λ e. pure (err e))
                λ _.
                  check random_code (λ e. pure (err e))
                    λ code.
                      check (insert_auth_code env request.character.id code) (λ e. pure (err e))
                        (λ _. pure (ok code))
