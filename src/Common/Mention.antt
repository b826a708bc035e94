-- ===== src/Common/Mention.antt =====
-- internal/common/data.go: mentions of Discord users. The regular expressions are read as
-- recognisers over bytes: in both, what may follow each part decides the match.
use chremoas_ng.Base.{
  Bool, false, ◌&&◌, ◌||◌, not, Option, none, some, [], ◌∷◌, ◌==◌, nat_eq, if◌then◌else◌, any,
}
use chremoas_ng.Base.Text.{Str, is_digit}
use chremoas_ng.World.{M, pure, panic}

-- `!?`
abbrev pub skip_bang : Str → Str
skip_bang [] = []
skip_bang (c ∷ s) = if c == b'!' then s else c ∷ s

-- `<@!?`, and what follows it.
unfoldable pub mention_body : Str → Option Str
mention_body (c ∷ d ∷ s) = if c == b'<' && d == b'@' then some (skip_bang s) else none
mention_body _ = none

-- `\d*>`
unfoldable pub mention_end : Str → Bool
mention_end [] = false
mention_end (c ∷ s) = let rest = mention_end s in if is_digit c then rest else c == b'>'

abbrev pub mention_here : Str → Bool
mention_here s = elim (mention_body s) [ none ↦ false | some t ↦ mention_end t ]

-- `<@!?\d*>` anywhere in the text
unfoldable pub is_discord_user : Str → Bool
unfolding mention_body mention_end
is_discord_user [] = false
is_discord_user (c ∷ s) = mention_here (c ∷ s) || is_discord_user s

-- `(\d+)>.*$` after a mention's beginning: the digits, if there are any and no line ends.
unfoldable pub user_digits : Str → Option Str
user_digits [] = none
user_digits (c ∷ s) =
    let rest : Option Str = elim (user_digits s) [ none ↦ none | some d ↦ some (c ∷ d) ] in
    if is_digit c then rest else if c == b'>' && not (any (λ x. x == 10) s) then some [] else none

-- `^<@!?(\d+)>.*$`: the first group. Go indexes a missing match, which panics.
unfoldable pub submatch : Str → Option Str
unfolding mention_body user_digits
submatch user = elim (mention_body user) [
  | none ↦ none
  | some t ↦ elim (user_digits t) [ none ↦ none | some [] ↦ none | some (c ∷ d) ↦ some (c ∷ d) ]
]

unfoldable pub extract_user_id : Str → M Str
unfolding submatch
extract_user_id user w = elim (submatch user) [ none ↦ panic w | some d ↦ pure d w ]
