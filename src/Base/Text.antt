-- ===== src/Base/Text.antt =====
-- Go strings as lists of bytes: literals, `strconv.Atoi`, `%d`, and the lengths that SQL counts.
use Prim.Native.Char.{code}
use chremoas_ng.Base.{
  ℕ, zero, suc, ◌+◌, ◌-◌, ◌*◌, ◌/◌, ◌%◌, String, Bool, true, false, ◌&&◌, Option, none, some, List,
  [], ◌∷◌, ltb, leb, ◌==◌, nat_eq, if◌then◌else◌, drop_all, length,
}

abbrev pub Str : Type 0
Str = List ℕ

-- The bytes of an ASCII literal. Shut, so that proofs do not walk through texts.
unfoldable pub lit : String → Str
lit String.[] = []
lit (String.◌∷◌ c s) = code c ∷ lit s

abbrev pub is_empty : Str → Bool
is_empty [] = true
is_empty (c ∷ s) = false

abbrev pub is_digit : ℕ → Bool
is_digit c = leb b'0' c && leb c b'9'

-- The value of a non-empty run of decimal digits.
unfoldable pub digits_value : Str → ℕ → Option ℕ
digits_value [] acc = some acc
digits_value (c ∷ s) acc =
    let rest = digits_value s (acc * 10 + (c - b'0')) in if is_digit c then rest else none

-- A signed number: true for a minus sign, and the magnitude.
in_int_range : Bool → ℕ → Option (Bool × ℕ)
in_int_range false n = if ltb n 9223372036854775808 then some (false, n) else none
in_int_range true n = if leb n 9223372036854775808 then some (true, n) else none

unsigned_part : Bool → Str → Option (Bool × ℕ)
unsigned_part sign [] = none
unsigned_part sign (c ∷ s) = elim (digits_value (c ∷ s) 0) [
  | none ↦ none
  | some n ↦ in_int_range sign n
]

-- `strconv.Atoi` on a 64-bit machine: an optional sign, decimal digits, the range of an int.
unfoldable pub atoi : Str → Option (Bool × ℕ)
unfolding digits_value in_int_range unsigned_part
atoi [] = none
atoi (c ∷ s) =
    if c == b'-'
    then unsigned_part true s
    else if c == b'+'
    then unsigned_part false s
    else unsigned_part false (c ∷ s)

decimal_from : ℕ → ℕ → Str → Str
decimal_from zero n acc = acc
decimal_from (suc fuel) n acc =
    let shorter = decimal_from fuel (n / 10) ((b'0' + n % 10) ∷ acc) in
    if ltb n 10 then (b'0' + n) ∷ acc else shorter

-- `%d`. A number has no more digits than its successor.
unfoldable pub decimal : ℕ → Str
unfolding decimal_from
decimal n = decimal_from (suc n) n []

-- The characters of a UTF-8 text, which VARCHAR(n) counts: all bytes but continuation bytes.
unfoldable pub char_count : Str → ℕ
char_count s = length (drop_all (λ c. leb 128 c && ltb c 192) s)
