-- ===== src/Chain/Find.antt =====
-- The walks of core/core.c and mm/mem.c along a list up to the first object that passes a test.
use ece_354_real_time_operat.Base.{
  ℕ, zero, suc, ◌<◌, ◌≡◌, refl, sym, subst, ◌≢◌, Bool, true, false, List, [], ◌∷◌, arith, inl, inr,
  Bool-cases, ◌==◌, if◌then◌else◌, Option, none, some,
}
use ece_354_real_time_operat.Chain.{Ptr, null, has, length, Chain}

-- The first object of the list from `p` that passes the test; NULL if there is none.
unfoldable pub find : ℕ → (Ptr → Ptr) → (Ptr → Bool) → Ptr → Option Ptr
find zero next test p = none
find (suc fuel) next test p =
    let rest = find fuel next test (next p) in
    if p == null then some null else if test p then some p else rest

unfoldable pub find_first : (Ptr → Bool) → List Ptr → Ptr
find_first test [] = null
find_first test (x ∷ xs) = if test x then x else find_first test xs

pub find-Chain :
    (fuel : ℕ) (next : Ptr → Ptr) (test : Ptr → Bool) (p : Ptr) (xs : List Ptr)
    → Chain next p xs
    → length xs < fuel
    → find fuel next test p ≡ some (find_first test xs)
unfolding find find_first
find-Chain zero next test p xs c enough = absurd (omega arith)
find-Chain (suc fuel) next test p [] c enough = rw c
find-Chain (suc fuel) next test p (x ∷ xs) c enough =
    let live : (x == null) ≡ false = ground arith in
    rw (c.0, live, find-Chain fuel next test (next x) xs c.3 (omega arith)) (ground arith)

find_first-hit :
    (test : Ptr → Bool) (x : Ptr) (xs : List Ptr) → test x ≡ true → find_first test (x ∷ xs) ≡ x
unfolding find_first
find_first-hit test x xs e = rw e

find_first-miss :
    (test : Ptr → Bool) (x : Ptr) (xs : List Ptr)
    → test x ≡ false
    → find_first test (x ∷ xs) ≡ find_first test xs
unfolding find_first
find_first-miss test x xs e = rw e

find_first-nil : (test : Ptr → Bool) → find_first test [] ≡ null
unfolding find_first
find_first-nil test = refl

pub find_first-passes :
    (test : Ptr → Bool) (xs : List Ptr)
    → find_first test xs ≢ null
    → (has (find_first test xs) xs ≡ true) × (test (find_first test xs) ≡ true)
find_first-passes test [] h = absurd (h (find_first-nil test))
find_first-passes test (x ∷ xs) h = elim (Bool-cases (test x)) [
  | inl e ↦ rw (find_first-hit test x xs e) (ground arith, e)
  | inr e ↦
      let rest = find_first-passes test xs (rw (find_first-miss test x xs e) at h) in
      subst (λ z. (has z (x ∷ xs) ≡ true) × (test z ≡ true)) (sym (find_first-miss test x xs e))
        (ground (arith, rest.0), rest.1)
]

pub find_first-null :
    (test : Ptr → Bool) (xs : List Ptr) (a : Ptr)
    → find_first test xs ≡ null
    → has null xs ≡ false
    → has a xs ≡ true
    → test a ≡ false
unfolding find_first
find_first-null test [] a e live i = cc
find_first-null test (x ∷ xs) a e live i = ground (arith, find_first-null test xs a)
