-- ===== src/Storage/RoleValues.antt =====
-- internal/storage/roles.go: GetRolesBySync and UpdateRoleValues.
use chremoas_ng.Base.{
  ℕ, ◌+◌, ◌-◌, ◌*◌, Bool, true, false, ◌&&◌, ◌||◌, not, Option, none, some, List, [], ◌∷◌, map,
  ◌==◌, nat_eq, bytes_eq, bool_eq, if◌then◌else◌, keep, leb, ltb, contains,
}
use chremoas_ng.Base.Text.{Str, lit, decimal}
use chremoas_ng.Payloads.{Role, zero_role}
use chremoas_ng.Database.{RoleRow, assignments, set_columns}
use chremoas_ng.World.{Env, M, pure, panic, check, ◌>>=◌, query, select, Result, ok, err, message}

-- The chat id is scanned into the id.
role_to_sync : RoleRow → Role
role_to_sync r = record zero_role {
  id = decimal r.chat_id;
  name = r.name;
  managed = r.managed;
  mentionable = r.mentionable;
  hoist = r.hoist;
  color = r.color;
  position = r.position;
  permissions = r.permissions;
}

-- `strings.ToLower`; the bytes beyond ASCII, which no column has, are kept.
unfoldable pub to_lower : Str → Str
to_lower s = map (λ c. if leb b'A' c && leb c b'Z' then c + 32 else c) s

-- The value of a hexadecimal digit.
hex_digit : ℕ → Option ℕ
hex_digit c =
    if leb b'0' c && leb c b'9'
    then some (c - b'0')
    else if leb b'a' c && leb c b'f'
    then some (c - b'a' + 10)
    else if leb b'A' c && leb c b'F'
    then some (c - b'A' + 10)
    else none

-- The digits from the left, until one is none or the number leaves 64 bits.
hex_value : Str → ℕ → Option ℕ
unfolding hex_digit
hex_value [] acc = some acc
hex_value (c ∷ s) acc = elim (hex_digit c) [
  | none ↦ none
  | some d ↦
      let rest = hex_value s (acc * 16 + d) in
      if leb 1152921504606846976 acc then some 18446744073709551615 else rest
]

-- The digits of `strconv.ParseInt(s, 16, 64)` behind a sign, printed. The error is not looked at:
-- the number is 0 for a text that is none, and the nearest int64 for one that is too large.
hex_text : Bool → Str → Str
unfolding hex_value
hex_text negative [] = decimal 0
hex_text negative (c ∷ s) = elim (hex_value (c ∷ s) 0) [
  | none ↦ decimal 0
  | some n ↦
      if negative && not (n == 0)
      then b'-' ∷ decimal (if leb n 9223372036854775808 then n else 9223372036854775808)
      else decimal (if ltb n 9223372036854775808 then n else 9223372036854775807)
]

-- What follows the `#` of a colour, as a decimal number.
unfoldable pub color_number : Str → Str
unfolding hex_digit hex_value hex_text
color_number [] = decimal 0
color_number (c ∷ s) =
    if c == b'-'
    then hex_text true s
    else if c == b'+'
    then hex_text false s
    else hex_text false (c ∷ s)

-- `v[0]` panics on an empty text.
unfoldable pub color_value : Str → M Str
unfolding color_number
color_value [] = λ w. panic w
color_value (c ∷ v) = pure (if c == b'#' then color_number v else c ∷ v)

-- Whether `strconv.ParseBool` reads the text.
unfoldable pub parse_bool : Str → Option Bool
parse_bool v =
    if contains (lit "1" ∷ lit "t" ∷ lit "T" ∷ lit "TRUE" ∷ lit "true" ∷ lit "True" ∷ []) v
    then some true
    else if contains (lit "0" ∷ lit "f" ∷ lit "F" ∷ lit "FALSE" ∷ lit "false" ∷ lit "False" ∷ []) v
    then some false
    else none

read_sync : Option Bool → Result {0} Unit
read_sync none = err (message (lit "strconv.ParseBool: invalid syntax"))
read_sync (some b) = ok tt

-- A value of `sync` has to be a Boolean for Go too.
sync_value : Str → Str → Result {0} Unit
unfolding parse_bool
sync_value key v = if key == lit "sync" then read_sync (parse_bool v) else ok tt

-- The loop over the map, whose entries come in some order: the columns and their texts.
unfoldable pub prepare_values : List (Str × Str) → M (Result (List (Str × Str)))
unfolding to_lower color_value read_sync sync_value
prepare_values [] = pure (ok [])
prepare_values ((k, v) ∷ values) =
    (if to_lower k == lit "color" then color_value v else pure v) >>= λ text.
    check (pure (sync_value (to_lower k) text)) (λ e. pure (err e))
      λ _.
        check (prepare_values values) (λ e. pure (err e))
          (λ rest. pure (ok ((to_lower k, text) ∷ rest)))

module _ (env : Env) where
  unfoldable pub get_roles_by_sync : Bool → M (Result (List Role))
  unfolding role_to_sync query
  get_roles_by_sync sync_only =
      query env (select (λ db. map role_to_sync (keep (λ r. not sync_only || r.sync) db.roles)))

  -- The rows are found by their name, to which the callers pass a ticker.
  unfoldable pub set_values : Bool → Str → List (Str × Str) → M (Result Unit)
  unfolding query
  set_values sig name [] =
      pure (err (message (lit "update statements must have at least one Set clause")))
  set_values sig name (c ∷ columns) = query env (
      set_columns (assignments env.int env.bigint env.bool (c ∷ columns))
        (λ r. r.name == name && r.sig == sig))

  unfoldable pub update_role_values : Bool → Str → List (Str × Str) → M (Result Unit)
  unfolding prepare_values set_values
  update_role_values sig name values =
      check (prepare_values values) (λ e. pure (err e)) (set_values sig name)
