-- ===== src/Chain/Bound.antt =====
-- A list of different objects that are numbered below a bound is no longer than the bound, so a
-- loop along it ends within as many rounds.
use ece_354_real_time_operat.Base.{
  ℕ, zero, suc, ◌<◌, ◌≤◌, ◌≡◌, refl, inl, inr, Bool-cases, true, false, List, [], ◌∷◌, arith, ◌==◌,
}
use ece_354_real_time_operat.Chain.{
  Ptr, null, Chain-live, has, length, Chain, erase, has-erase, has-erase_ne,
}

abbrev Distinct : List Ptr → Type 0
Distinct [] = Unit {0}
Distinct (x ∷ xs) = (has x xs ≡ false) × Distinct xs

Chain-Distinct : (next : Ptr → Ptr) (p : Ptr) (xs : List Ptr) → Chain next p xs → Distinct xs
Chain-Distinct next p [] c = tt
Chain-Distinct next p (x ∷ xs) c = (c.2, Chain-Distinct next (next x) xs c.3)

erase-Distinct :
    (a : Ptr) (xs : List Ptr) → Distinct xs → Distinct (erase a xs) × (has a (erase a xs) ≡ false)
unfolding erase
erase-Distinct a [] d = (tt, refl)
erase-Distinct a (x ∷ xs) d = elim (Bool-cases (a == x)) [
  | inl hit ↦ rw hit (d.1, ground arith)
  | inr miss ↦
      let rest = erase-Distinct a xs d.1 in
      rw miss ((ground (arith, has-erase_ne x a xs), rest.0), ground (arith, rest.1))
]

pub length-erase :
    (a : Ptr) (xs : List Ptr) → has a xs ≡ true → length xs ≡ suc (length (erase a xs))
unfolding erase
length-erase a [] i = cc
length-erase a (x ∷ xs) i = ground (arith, length-erase a xs)

length_bound :
    (n : ℕ) (xs : List Ptr) → Distinct xs → ((a : Ptr) → has a xs ≡ true → a < n) → length xs ≤ n
length_bound zero [] d small = omega arith
length_bound zero (x ∷ xs) d small = absurd (ground (arith, small x))
length_bound (suc n) xs d small = elim (Bool-cases (has n xs)) [
  | inl i ↦
      let e = length-erase n xs i in
      let d' = erase-Distinct n xs d in
      let shorter =
        length_bound n (erase n xs) d'.0 λ a h. ground (arith, small a, has-erase a n xs, d'.1) in
      omega arith
  | inr o ↦ let shorter = length_bound n xs d λ a h. ground (arith, small a) in omega arith
]

pub Chain-bound :
    (n : ℕ) (next : Ptr → Ptr) (p : Ptr) (xs : List Ptr)
    → Chain next p xs
    → ((a : Ptr) → has a xs ≡ true → a < n)
    → length xs ≤ n
Chain-bound n next p xs c small = length_bound n xs (Chain-Distinct next p xs c) small

pub has-erase_self :
    (next : Ptr → Ptr) (p a : Ptr) (xs : List Ptr) → Chain next p xs → has a (erase a xs) ≡ false
has-erase_self next p a xs c = (erase-Distinct a xs (Chain-Distinct next p xs c)).1

-- NULL is one of the numbers below the bound, and stands in no list.
pub Chain-below :
    (n : ℕ) (next : Ptr → Ptr) (p : Ptr) (xs : List Ptr)
    → Chain next p xs
    → 0 < n
    → ((a : Ptr) → has a xs ≡ true → a < n)
    → length xs < n
Chain-below n next p xs c pos small =
    length_bound n (null ∷ xs) (Chain-live next p xs c, Chain-Distinct next p xs c)
      λ a h. ground (arith, small a)
