-- ===== src/Base/Search.antt =====
-- Laws of searching, filtering and counting lists by Boolean tests.
use chremoas_ng.Base.{
  ◌+◌, ◌≤◌, ◌≡◌, refl, Bool, true, false, ◌&&◌, ◌||◌, not, List, [], ◌∷◌, arith, Bool-cases, inl,
  inr, if◌then◌else◌, any, keep, map, drop_all, count, All, Unique,
}

module _ {ℓ} {A : Type ℓ} where
  pub any-keep : (p q : A → Bool) (xs : List A) → any p (keep q xs) ≡ any (λ x. q x && p x) xs
  any-keep p q [] = refl
  any-keep p q (x ∷ xs) = ground (arith, any-keep p q xs)

  -- What a part of a list lacks.
  pub any-keep-eq-false :
      (p q : A → Bool) (xs : List A) → any p xs ≡ false → any p (keep q xs) ≡ false
  any-keep-eq-false p q [] h = refl
  any-keep-eq-false p q (x ∷ xs) h = ground (arith, any-keep-eq-false p q xs)

  -- What is found, but not among the elements taken out, is found among the others.
  pub any-drop_all :
      (p q : A → Bool) (xs : List A)
      → any p xs ≡ true
      → any (λ x. q x && p x) xs ≡ false
      → any p (drop_all q xs) ≡ true
  any-drop_all p q [] h n = h
  any-drop_all p q (x ∷ xs) h n = ground (arith, any-drop_all p q xs)

  pub any_mono :
      (p q : A → Bool) (xs : List A)
      → ((x : A) → p x ≡ true → q x ≡ true)
      → any q xs ≡ false
      → any p xs ≡ false
  any_mono p q [] sub h = refl
  any_mono p q (x ∷ xs) sub h = ground (arith, any_mono p q xs sub, sub x)

  pub any-congr : (p q : A → Bool) (xs : List A) → ((x : A) → p x ≡ q x) → any p xs ≡ any q xs
  any-congr p q [] same = refl
  any-congr p q (x ∷ xs) same = ground (arith, any-congr p q xs same, same x)

  pub keep-Unique :
      (same : A → A → Bool) (p : A → Bool) (xs : List A) → Unique same xs → Unique same (keep p xs)
  keep-Unique same p [] u = tt
  keep-Unique same p (x ∷ xs) u =
      ground (arith, keep-Unique same p xs u.1, any-keep-eq-false (same x) p xs u.0)

  pub keep-passes : (p : A → Bool) (xs : List A) → All (λ x. p x ≡ true) (keep p xs)
  keep-passes p [] = tt
  keep-passes p (x ∷ xs) = elim (Bool-cases (p x)) [
    | inl is ↦ rw is (is, keep-passes p xs)
    | inr out ↦ rw out (keep-passes p xs)
  ]

  pub keep-map :
      {B : Type ℓ} (p : A → Bool) (f : B → A) (xs : List B)
      → keep p (map f xs) ≡ map f (keep (λ x. p (f x)) xs)
  keep-map p f [] = refl
  keep-map p f (x ∷ xs) = elim (Bool-cases (p (f x))) [
    | inl is ↦ rw (is, keep-map p f xs) refl
    | inr out ↦ rw (out, keep-map p f xs) refl
  ]

  pub keep-All {κ} : (P : A → Type κ) (p : A → Bool) (xs : List A) → All P xs → All P (keep p xs)
  keep-All P p [] h = tt
  keep-All P p (x ∷ xs) h = elim (Bool-cases (p x)) [
    | inl is ↦ rw is (h.0, keep-All P p xs h.1)
    | inr out ↦ rw out (keep-All P p xs h.1)
  ]

  pub count-congr : (p q : A → Bool) (xs : List A) → ((x : A) → p x ≡ q x) → count p xs ≡ count q xs
  count-congr p q [] same = refl
  count-congr p q (x ∷ xs) same = ground (arith, count-congr p q xs same, same x)

  -- Two tests that never pass together.
  pub count-or :
      (p q : A → Bool) (xs : List A)
      → ((x : A) → p x ≡ true → q x ≡ false)
      → count (λ x. p x || q x) xs ≡ count p xs + count q xs
  count-or p q [] apart = refl
  count-or p q (x ∷ xs) apart = ground (arith, count-or p q xs apart, apart x)

  pub count-eq-zero : (p : A → Bool) (xs : List A) → any p xs ≡ false → count p xs ≡ 0
  count-eq-zero p [] h = refl
  count-eq-zero p (x ∷ xs) h = ground (arith, count-eq-zero p xs)

  pub count_never : (xs : List A) → count (λ x. false) xs ≡ 0
  count_never [] = refl
  count_never (x ∷ xs) = omega (arith, count_never xs)

  -- A test that only one element of a list can pass.
  pub count-Unique :
      (same : A → A → Bool) (p : A → Bool) (xs : List A)
      → Unique same xs
      → ((x y : A) → p x ≡ true → p y ≡ true → same x y ≡ true)
      → count p xs ≡ (if any p xs then 1 else 0)
  count-Unique same p [] u one = refl
  count-Unique same p (x ∷ xs) u one = elim (Bool-cases (p x)) [
    | inl is ↦
        let alone : any p xs ≡ false = any_mono p (same x) xs (λ y py. one x y is py) u.0 in
        rw is (omega (arith, count-eq-zero p xs alone))
    | inr out ↦ rw out (ground (arith, count-Unique same p xs u.1 one))
  ]

  pub count-and-le : (p q : A → Bool) (xs : List A) → count (λ x. p x && q x) xs ≤ count p xs
  count-and-le p q [] = omega arith
  count-and-le p q (x ∷ xs) = ground (arith, count-and-le p q xs)

  -- A second test passes all of those that pass the first exactly where the counts agree.
  pub count-and-eq :
      (p q : A → Bool) (xs : List A)
      → any (λ x. p x && not (q x)) xs ≡ false
      → count (λ x. p x && q x) xs ≡ count p xs
  count-and-eq p q [] h = refl
  count-and-eq p q (x ∷ xs) h = ground (arith, count-and-eq p q xs)

  pub count-and-lt :
      (p q : A → Bool) (xs : List A)
      → any (λ x. p x && not (q x)) xs ≡ true
      → count (λ x. p x && q x) xs + 1 ≤ count p xs
  count-and-lt p q [] h = cc
  count-and-lt p q (x ∷ xs) h = ground (arith, count-and-lt p q xs, count-and-le p q xs)

  pub count-pos : (p : A → Bool) (xs : List A) → any p xs ≡ true → 1 ≤ count p xs
  count-pos p [] h = cc
  count-pos p (x ∷ xs) h = ground (arith, count-pos p xs)
