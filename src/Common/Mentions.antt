-- ===== src/Common/Mentions.antt =====
-- Mentions, as Discord writes them, are recognised and read back.
use chremoas_ng.Base.{ℕ, ◌≡◌, refl, arith, Bool, true, false, some, [], ◌∷◌, ◌++◌, nat_eq, All}
use chremoas_ng.Base.Text.{Str, is_digit}
use chremoas_ng.Common.Mention.{
  mention_body, mention_end, is_discord_user, user_digits, submatch, extract_user_id, skip_bang,
  mention_here,
}
use chremoas_ng.World.{World, done, pure}

-- `<@…>` and `<@!…>`
abbrev pub mention_of : Bool → Str → Str
mention_of false id = b'<' ∷ b'@' ∷ (id ++ b'>' ∷ [])
mention_of true id = b'<' ∷ b'@' ∷ b'!' ∷ (id ++ b'>' ∷ [])

mention_end-digits :
    (id : Str) → All (λ c. is_digit c ≡ true) id → mention_end (id ++ b'>' ∷ []) ≡ true
unfolding mention_end
mention_end-digits [] h = refl
mention_end-digits (c ∷ id) h = rw (h.0) (mention_end-digits id h.1)

user_digits-digits :
    (id : Str) → All (λ c. is_digit c ≡ true) id → user_digits (id ++ b'>' ∷ []) ≡ some id
unfolding user_digits
user_digits-digits [] h = refl
user_digits-digits (c ∷ id) h = rw (h.0, user_digits-digits id h.1) refl

skip_bang-digit : (c : ℕ) (s : Str) → is_digit c ≡ true → skip_bang (c ∷ s) ≡ c ∷ s
skip_bang-digit c s h = ground arith

mention_body-mention_of :
    (bang : Bool) (c : ℕ) (id : Str)
    → is_digit c ≡ true
    → mention_body (mention_of bang (c ∷ id)) ≡ some (c ∷ id ++ b'>' ∷ [])
unfolding mention_body
mention_body-mention_of true c id h = refl
mention_body-mention_of false c id h = rw (skip_bang-digit c (id ++ b'>' ∷ []) h) refl

submatch-mention_of :
    (bang : Bool) (c : ℕ) (id : Str)
    → All (λ d. is_digit d ≡ true) (c ∷ id)
    → submatch (mention_of bang (c ∷ id)) ≡ some (c ∷ id)
unfolding submatch
submatch-mention_of bang c id h =
    rw (submatch, mention_body-mention_of bang c id h.0, user_digits-digits (c ∷ id) h) refl

mention_here-mention_of :
    (bang : Bool) (c : ℕ) (id : Str)
    → All (λ d. is_digit d ≡ true) (c ∷ id)
    → mention_here (mention_of bang (c ∷ id)) ≡ true
mention_here-mention_of bang c id h =
    rw (mention_here, mention_body-mention_of bang c id h.0) (mention_end-digits (c ∷ id) h)

is_discord_user-here :
    (c : ℕ) (s : Str) → mention_here (c ∷ s) ≡ true → is_discord_user (c ∷ s) ≡ true
unfolding is_discord_user
is_discord_user-here c s h = rw (h) refl

-- A mention with a non-empty run of digits, with or without `!`, is a Discord user to the
-- commands, and ExtractUserId returns its digits without a panic.
pub extract_user_id-mention_of :
    (bang : Bool) (c : ℕ) (id : Str) (w : World)
    → All (λ d. is_digit d ≡ true) (c ∷ id)
    → (is_discord_user (mention_of bang (c ∷ id)) ≡ true)
      × (extract_user_id (mention_of bang (c ∷ id)) w ≡ done (c ∷ id) w)
unfolding extract_user_id pure
extract_user_id-mention_of true c id w h = (
  is_discord_user-here _ _ (mention_here-mention_of true c id h),
  rw (extract_user_id, submatch-mention_of true c id h) refl,
)
extract_user_id-mention_of false c id w h = (
  is_discord_user-here _ _ (mention_here-mention_of false c id h),
  rw (extract_user_id, submatch-mention_of false c id h) refl,
)
