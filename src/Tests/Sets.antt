-- ===== src/Tests/Sets.antt =====
-- String sets as lists, with every law that the program relies on.
use chremoas_ng.Base.{
  ◌≡◌, refl, sym, ap, ◌∙◌, true, ◌&&◌, ◌||◌, not, List, [], ◌∷◌, ◌++◌, ◌==◌, bytes_eq,
  bytes_beq_iff, if◌then◌else◌, contains, keep, Unique, length, arith, Bool-cases, inl, inr,
}
use chremoas_ng.Base.Search.{any-congr}
use chremoas_ng.Base.Text.{Str, is_empty}
use chremoas_ng.Common.StringSets.{StringSets, IsLawful}

abbrev dedup : List Str → List Str
dedup [] = []
dedup (x ∷ xs) = let rest = dedup xs in if contains rest x then rest else x ∷ rest

same_sym : (x y : Str) → (x == y) ≡ (y == x)
same_sym x y = elim (Bool-cases (x == y)) [
  | inl e ↦ e ∙ sym ((bytes_beq_iff y x).1 (sym ((bytes_beq_iff x y).0 e)))
  | inr e ↦ elim (Bool-cases (y == x)) [
    | inl e' ↦ (bytes_beq_iff x y).1 (sym ((bytes_beq_iff y x).0 e')) ∙ sym e'
    | inr e' ↦ e ∙ sym e'
  ]
]

contains-dedup : (xs : List Str) (y : Str) → contains (dedup xs) y ≡ contains xs y
contains-dedup [] y = refl
contains-dedup (x ∷ xs) y = elim (Bool-cases (contains (dedup xs) x)) [
  | inl held ↦ elim (Bool-cases (x == y)) [
    | inl same ↦
        rw (held, same) (ap (contains (dedup xs)) (sym ((bytes_beq_iff x y).0 same)) ∙ held)
    | inr other ↦ rw (held, other, contains-dedup xs y) refl
  ]
  | inr new ↦ rw (new, contains-dedup xs y) refl
]

dedup-Unique : (xs : List Str) → Unique (λ x y. x == y) (dedup xs)
dedup-Unique [] = tt
dedup-Unique (x ∷ xs) = elim (Bool-cases (contains (dedup xs) x)) [
  | inl held ↦ rw (held) (dedup-Unique xs)
  | inr new ↦ rw (new) (any-congr _ _ (dedup xs) (same_sym x) ∙ new, dedup-Unique xs)
]

abbrev add : Str → List Str → List Str
add x s = if is_empty x then s else x ∷ s

abbrev from_slice : List Str → List Str → List Str
from_slice [] s = s
from_slice (x ∷ slice) s = add x (from_slice slice s)

abbrev difference : List Str → List Str → List Str
difference s t = keep (λ x. not (contains t x)) s

abbrev pub list_sets : StringSets
list_sets = record {
  StringSet = List Str;
  new = [];
  add = add;
  from_slice = from_slice;
  merge = λ s t. s ++ t;
  difference = difference;
  len = λ s. length (dedup s);
  to_slice = dedup;
  has = contains;
}

has-add :
    (x y : Str) (s : List Str) → contains (add x s) y ≡ (not (is_empty x) && x == y || contains s y)
has-add [] y s = refl
has-add (c ∷ x) y s = refl

has-from_slice :
    (slice : List Str) (s : List Str) (y : Str)
    → contains (from_slice slice s) y ≡ (not (is_empty y) && contains slice y || contains s y)
has-from_slice [] s y = ground arith
has-from_slice (x ∷ slice) s y =
    has-add x y (from_slice slice s)
    ∙ rw (has-from_slice slice s y) (elim (Bool-cases (x == y)) [
      | inl same ↦ rw (sym (ap is_empty ((bytes_beq_iff x y).0 same))) (rw same (ground arith))
      | inr other ↦ rw other (ground arith)
    ])

has-merge : (s t : List Str) (x : Str) → contains (s ++ t) x ≡ (contains s x || contains t x)
has-merge [] t x = refl
has-merge (y ∷ s) t x = rw (has-merge s t x) (ground arith)

same_member : (y x : Str) (t : List Str) → (y == x) ≡ true → contains t x ≡ contains t y
same_member y x t e = ap (contains t) (sym ((bytes_beq_iff y x).0 e))

has-difference :
    (s t : List Str) (x : Str) → contains (difference s t) x ≡ (contains s x && not (contains t x))
has-difference [] t x = refl
has-difference (y ∷ s) t x = elim (Bool-cases (contains t y)) [
  | inl gone ↦ elim (Bool-cases (y == x)) [
    | inl same ↦ rw (gone, has-difference s t x, same, same_member y x t same, gone) (ground arith)
    | inr other ↦ rw (gone, other, has-difference s t x) refl
  ]
  | inr kept ↦ elim (Bool-cases (y == x)) [
    | inl same ↦ rw (kept, same, same_member y x t same, kept) refl
    | inr other ↦ rw (kept, other, has-difference s t x) refl
  ]
]

empty_of_length : (s : List Str) → length s ≡ 0 → s ≡ []
empty_of_length [] h = refl
empty_of_length (x ∷ s) h = let never : ⊥ = omega arith in absurd never

empty-dedup : (s : List Str) → (length (dedup s) ≡ 0) → dedup s ≡ []
empty-dedup s h = empty_of_length (dedup s) h

pub list_sets-IsLawful : IsLawful list_sets
list_sets-IsLawful = record {
  has-new = λ x. refl;
  has-add = has-add;
  has-from_slice = has-from_slice;
  has-merge = has-merge;
  has-difference = has-difference;
  contains-to_slice = contains-dedup;
  to_slice-Unique = dedup-Unique;
  len-eq-zero = λ s. (empty-dedup s, λ e. ap length e);
}
