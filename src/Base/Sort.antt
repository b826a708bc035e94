-- ===== src/Base/Sort.antt =====
-- `sort.Strings`: strings in the order of their bytes. Equal strings are the same, so every sorted
-- order is one list.
use chremoas_ng.Base.{Bool, true, false, ◌&&◌, ◌||◌, List, [], ◌∷◌, ltb, ◌==◌, nat_eq}
use chremoas_ng.Base.{if◌then◌else◌}
use chremoas_ng.Base.Text.{Str}

unfoldable pub bytes_leb : Str → Str → Bool
bytes_leb [] t = true
bytes_leb (a ∷ s) [] = false
bytes_leb (a ∷ s) (b ∷ t) = ltb a b || a == b && bytes_leb s t

unfoldable pub insert_string : Str → List Str → List Str
unfolding bytes_leb
insert_string s [] = s ∷ []
insert_string s (t ∷ ts) = if bytes_leb s t then s ∷ t ∷ ts else t ∷ insert_string s ts

unfoldable pub sort_strings : List Str → List Str
unfolding insert_string
sort_strings [] = []
sort_strings (s ∷ ss) = insert_string s (sort_strings ss)
