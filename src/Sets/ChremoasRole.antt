-- ===== src/Sets/ChremoasRole.antt =====
-- internal/sets/chremoasRole.go: roles by their chat id. The map is a list of its entries; Go goes
-- through a map in no particular order, here in the list's.
use chremoas_ng.Base.{
  ℕ, Bool, false, ◌&&◌, not, List, [], ◌∷◌, ◌==◌, nat_eq, bytes_eq, bool_eq, if◌then◌else◌, any,
  drop_all, length, map,
}
use chremoas_ng.Payloads.{Role}

pub record ChremoasRoleSet : Type 0 where
  pub set : List (ℕ × Role)

abbrev pub has_key : ℕ → List (ℕ × Role) → Bool
has_key k s = any (λ e. e.0 == k) s

-- `m[k] = r`
unfoldable pub put : ℕ → Role → List (ℕ × Role) → List (ℕ × Role)
put k r [] = (k, r) ∷ []
put k r ((j, q) ∷ s) = let rest = put k r s in if j == k then (k, r) ∷ s else (j, q) ∷ rest

-- `s == (payloads.Role{})`
unfoldable pub is_zero : Role → Bool
is_zero r =
    r.id == []
    && r.name == []
    && r.managed == false
    && r.mentionable == false
    && r.hoist == false
    && r.color == 0
    && r.position == 0
    && r.permissions == 0
    && r.chat_id == 0
    && r.joinable == false
    && r.short_name == []
    && r.sig == false
    && r.sync == false
    && r.chat_type == []

unfoldable pub new_set : ChremoasRoleSet
new_set = record { set = [] }

-- The set after `Add`, and what it returns.
unfoldable pub add : Role → ChremoasRoleSet → ChremoasRoleSet × Bool
add r s =
    if is_zero r
    then (s, false)
    else (record { set = put r.chat_id r s.set }, not (has_key r.chat_id s.set))

unfoldable pub remove : Role → ChremoasRoleSet → ChremoasRoleSet
remove r s = record { set = drop_all (λ e. e.0 == r.chat_id) s.set }

unfoldable pub contains_role : Role → ChremoasRoleSet → Bool
contains_role r s = has_key r.chat_id s.set

unfoldable pub len : ChremoasRoleSet → ℕ
len s = length s.set

unfoldable pub from_slice : List Role → ChremoasRoleSet → ChremoasRoleSet
unfolding add
from_slice [] s = s
from_slice (r ∷ slice) s = from_slice slice (add r s).0

unfoldable pub to_slice : ChremoasRoleSet → List Role
to_slice s = map (λ e. e.1) s.set

-- `set.Merge(newSet)`
unfoldable pub merge : ChremoasRoleSet → ChremoasRoleSet → ChremoasRoleSet
merge s new = from_slice (to_slice new) s

-- The loop of Intersection and Difference: add what passes a test.
unfoldable pub add_if : (Role → Bool) → List (ℕ × Role) → ChremoasRoleSet → ChremoasRoleSet
unfolding add
add_if p [] output = output
add_if p ((k, r) ∷ s) output = add_if p s (if p r then (add r output).0 else output)

unfoldable pub intersection : ChremoasRoleSet → ChremoasRoleSet → ChremoasRoleSet
intersection s s1 = add_if (λ r. contains_role r s1) s.set new_set

unfoldable pub difference : ChremoasRoleSet → ChremoasRoleSet → ChremoasRoleSet
difference s s1 = add_if (λ r. not (contains_role r s1)) s.set new_set
