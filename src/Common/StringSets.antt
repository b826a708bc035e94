-- ===== src/Common/StringSets.antt =====
-- The string sets of github.com/bhechinger/go-sets, which the program only calls: their operations,
-- and what each does to membership. The empty string is never a member.
use chremoas_ng.Base.{ℕ, ◌≡◌, ◌↔◌, Bool, false, ◌&&◌, ◌||◌, not, List, [], ◌==◌, bytes_eq}
use chremoas_ng.Base.{contains, Unique}
use chremoas_ng.Base.Text.{Str, is_empty}

pub record StringSets : Type 1 where
  pub StringSet : Type 0
  pub new : StringSet
  pub add : Str → StringSet → StringSet
  -- `FromSlice`
  pub from_slice : List Str → StringSet → StringSet
  pub merge : StringSet → StringSet → StringSet
  pub difference : StringSet → StringSet → StringSet
  pub len : StringSet → ℕ
  pub to_slice : StringSet → List Str
  -- `Contains`
  pub has : StringSet → Str → Bool

pub record IsLawful (lib : StringSets) : Type 0 where
  pub has-new : (x : Str) → lib.has lib.new x ≡ false
  pub has-add :
      (x y : Str) (s : lib.StringSet)
      → lib.has (lib.add x s) y ≡ (not (is_empty x) && x == y || lib.has s y)
  pub has-from_slice :
      (slice : List Str) (s : lib.StringSet) (y : Str)
      → lib.has (lib.from_slice slice s) y ≡ (not (is_empty y) && contains slice y || lib.has s y)
  pub has-merge :
      (s t : lib.StringSet) (x : Str) → lib.has (lib.merge s t) x ≡ (lib.has s x || lib.has t x)
  pub has-difference :
      (s t : lib.StringSet) (x : Str)
      → lib.has (lib.difference s t) x ≡ (lib.has s x && not (lib.has t x))
  pub contains-to_slice : (s : lib.StringSet) (x : Str) → contains (lib.to_slice s) x ≡ lib.has s x
  pub to_slice-Unique : (s : lib.StringSet) → Unique (λ x y. x == y) (lib.to_slice s)
  pub len-eq-zero : (s : lib.StringSet) → (lib.len s ≡ 0) ↔ (lib.to_slice s ≡ [])
