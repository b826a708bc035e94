-- ===== src/Commands/Help.antt =====
-- internal/commands/commands.go (getHelp), and the strings functions that the commands call.
use chremoas_ng.Base.{List, [], ◌∷◌, ◌++◌, ◌==◌, nat_eq, if◌then◌else◌}
use chremoas_ng.Base.Text.{Str, lit, is_empty}
use chremoas_ng.Common.Embed.{new_embed, set_title, add_field}
use chremoas_ng.World.{MessageSend, embed}

unfoldable pub get_help : Str → Str → Str → List MessageSend
get_help title usage sub_commands =
    let e = add_field (lit "Usage") usage (set_title title new_embed) in
    embed (if is_empty sub_commands then e else add_field (lit "Subcommands") sub_commands e) ∷ []

-- The first part of the rest gains a byte.
abbrev pub before_first : Str → List Str → List Str
before_first s [] = s ∷ []
before_first s (p ∷ ps) = (s ++ p) ∷ ps

-- `strings.Split(s, " ")`
unfoldable pub split_spaces : Str → List Str
split_spaces [] = [] ∷ []
split_spaces (c ∷ s) =
    let rest = split_spaces s in if c == 32 then [] ∷ rest else before_first (c ∷ []) rest

-- `strings.Join(parts, " ")`
unfoldable pub join_spaces : List Str → Str
join_spaces [] = []
join_spaces (p ∷ []) = p
join_spaces (p ∷ q ∷ ps) = p ++ (32 ∷ join_spaces (q ∷ ps))
