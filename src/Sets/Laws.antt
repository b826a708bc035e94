-- ===== src/Sets/Laws.antt =====
-- What the operations of internal/sets/chremoasRole.go do to membership.
use chremoas_ng.Base.{
  ℕ, arith, ◌≡◌, refl, sym, ap, ◌∙◌, Bool, false, ◌&&◌, ◌||◌, not, List, [], ◌∷◌, ◌==◌, nat_eq,
  nat_beq_iff, any, All, Unique, map, Bool-cases, inl, inr,
}
use chremoas_ng.Base.Search.{any_mono}
use chremoas_ng.Payloads.{Role}
use chremoas_ng.Sets.ChremoasRole.{
  ChremoasRoleSet, has_key, put, is_zero, new_set, add, contains_role, from_slice, to_slice, merge,
  add_if, intersection, difference,
}

-- An entry stands under its role's chat id, and the zero role has none.
abbrev pub IsEntry : ℕ × Role → Type 0
IsEntry e = (e.0 ≡ e.1.chat_id) × (is_zero e.1 ≡ false)

-- What the operations build and rely on.
pub record IsRoleSet (s : ChremoasRoleSet) : Type 0 where
  pub entries : All IsEntry s.set
  pub keys : Unique (λ x y. x.0 == y.0) s.set

has_key-put :
    (k j : ℕ) (r : Role) (s : List (ℕ × Role)) → has_key k (put j r s) ≡ (j == k || has_key k s)
unfolding put
has_key-put k j r [] = refl
has_key-put k j r ((i, q) ∷ s) = ground (arith, has_key-put k j r s)

put-IsEntry :
    (j : ℕ) (r : Role) (s : List (ℕ × Role))
    → IsEntry (j, r)
    → All IsEntry s
    → All IsEntry (put j r s)
unfolding put
put-IsEntry j r [] h hs = (h, tt)
put-IsEntry j r ((i, q) ∷ s) h hs = elim (Bool-cases (i == j)) [
  | inl same ↦ rw (same) (h, hs.1)
  | inr other ↦ rw (other) (hs.0, put-IsEntry j r s h hs.1)
]

fresh-put :
    (i j : ℕ) (r : Role) (s : List (ℕ × Role))
    → (i == j) ≡ false
    → any (λ y. i == y.0) s ≡ false
    → any (λ y. i == y.0) (put j r s) ≡ false
unfolding put
fresh-put i j r [] apart h = rw (apart) refl
fresh-put i j r ((k, q) ∷ s) apart h = ground (arith, fresh-put i j r s)

put-keys :
    (j : ℕ) (r : Role) (s : List (ℕ × Role))
    → Unique (λ x y. x.0 == y.0) s
    → Unique (λ x y. x.0 == y.0) (put j r s)
unfolding put
put-keys j r [] h = (refl, tt)
put-keys j r ((i, q) ∷ s) h = elim (Bool-cases (i == j)) [
  | inl same ↦ rw (same) (any_mono (λ y. j == y.0) (λ y. i == y.0) s (λ y e. ground arith) h.0, h.1)
  | inr other ↦ rw (other) (fresh-put i j r s other h.0, put-keys j r s h.1)
]

add-IsRoleSet : (r : Role) (s : ChremoasRoleSet) → IsRoleSet s → IsRoleSet (add r s).0
unfolding add
add-IsRoleSet r s h = elim (Bool-cases (is_zero r)) [
  | inl zero ↦ rw (zero) h
  | inr known ↦ rw (known) (record {
    entries = put-IsEntry r.chat_id r s.set (refl, known) h.entries;
    keys = put-keys r.chat_id r s.set h.keys;
  })
]

-- What an entry adds.
has_key-add :
    (k j : ℕ) (r : Role) (s : ChremoasRoleSet)
    → IsEntry (j, r)
    → has_key k (add r s).0.set ≡ (j == k || has_key k s.set)
unfolding add
has_key-add k j r s h = rw (h.1, h.0) (has_key-put k r.chat_id r s.set)

has_key-add_if :
    (k : ℕ) (p : Role → Bool) (s : List (ℕ × Role)) (output : ChremoasRoleSet)
    → All IsEntry s
    → has_key k (add_if p s output).set ≡ (any (λ e. p e.1 && e.0 == k) s || has_key k output.set)
unfolding add_if
has_key-add_if k p [] output h = refl
has_key-add_if k p ((j, r) ∷ s) output h = elim (Bool-cases (p r)) [
  | inl passes ↦
      rw (add_if, passes)
        (has_key-add_if k p s (add r output).0 h.1
          ∙ rw (has_key-add k j r output h.0) (ground arith))
  | inr fails ↦ rw (add_if, fails) (has_key-add_if k p s output h.1)
]

add_if-IsRoleSet :
    (p : Role → Bool) (s : List (ℕ × Role)) (output : ChremoasRoleSet)
    → IsRoleSet output
    → IsRoleSet (add_if p s output)
unfolding add_if
add_if-IsRoleSet p [] output h = h
add_if-IsRoleSet p ((j, r) ∷ s) output h = elim (Bool-cases (p r)) [
  | inl passes ↦ rw (passes) (add_if-IsRoleSet p s (add r output).0 (add-IsRoleSet r output h))
  | inr fails ↦ rw (fails) (add_if-IsRoleSet p s output h)
]

new_set-IsRoleSet : IsRoleSet new_set
unfolding new_set
new_set-IsRoleSet = record { entries = tt; keys = tt }

has_key-from_slice :
    (k : ℕ) (new : List (ℕ × Role)) (s : ChremoasRoleSet)
    → All IsEntry new
    → has_key k (from_slice (map (λ e. e.1) new) s).set ≡ (has_key k new || has_key k s.set)
unfolding from_slice
has_key-from_slice k [] s h = refl
has_key-from_slice k ((j, r) ∷ new) s h =
    rw (has_key-from_slice k new (add r s).0 h.1, has_key-add k j r s h.0) (ground arith)

from_slice-IsRoleSet :
    (rs : List Role) (s : ChremoasRoleSet) → IsRoleSet s → IsRoleSet (from_slice rs s)
unfolding from_slice
from_slice-IsRoleSet [] s h = h
from_slice-IsRoleSet (r ∷ rs) s h = from_slice-IsRoleSet rs (add r s).0 (add-IsRoleSet r s h)

-- A test of the role under a key, for the key that is looked up.
entries_with :
    (k : ℕ) (b : ℕ → Bool) (s : List (ℕ × Role))
    → All IsEntry s
    → any (λ e. b e.1.chat_id && e.0 == k) s ≡ (has_key k s && b k)
entries_with k b [] h = refl
entries_with k b ((j, r) ∷ s) h = elim (Bool-cases (j == k)) [
  | inl same ↦
      let found : b r.chat_id ≡ b k = ap b (sym h.0.0 ∙ (nat_beq_iff j k).0 same) in
      rw (same, found, entries_with k b s h.1) (ground arith)
  | inr other ↦ rw (other, entries_with k b s h.1) (ground arith)
]

-- On sets whose entries stand under the chat ids of their roles, none twice and none for the zero
-- role, the intersection, the difference and the merged set are again such sets, and membership in
-- them is the conjunction, the conjunction with the negation, and the disjunction of memberships.
pub membership_laws :
    (s t : ChremoasRoleSet) (r : Role)
    → IsRoleSet s
    → IsRoleSet t
    → (IsRoleSet (intersection s t) × IsRoleSet (difference s t) × IsRoleSet (merge s t))
      × (contains_role r (intersection s t) ≡ (contains_role r s && contains_role r t))
      × (contains_role r (difference s t) ≡ (contains_role r s && not (contains_role r t)))
      × (contains_role r (merge s t) ≡ (contains_role r t || contains_role r s))
unfolding intersection difference merge to_slice contains_role new_set
membership_laws s t r hs ht = (
  (
    add_if-IsRoleSet _ s.set new_set new_set-IsRoleSet,
    add_if-IsRoleSet _ s.set new_set new_set-IsRoleSet,
    from_slice-IsRoleSet (to_slice t) s hs,
  ),
  has_key-add_if r.chat_id _ s.set new_set hs.entries
      ∙ rw (entries_with r.chat_id (λ k. has_key k t.set) s.set hs.entries) (ground arith),
  has_key-add_if r.chat_id _ s.set new_set hs.entries
      ∙ rw (entries_with r.chat_id (λ k. not (has_key k t.set)) s.set hs.entries) (ground arith),
  has_key-from_slice r.chat_id t.set s ht.entries,
)
