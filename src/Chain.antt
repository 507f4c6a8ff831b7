-- ===== src/Chain.antt =====
-- Singly linked lists, as core/core.c and mm/mem.c keep them: a `next` field for every object, and
-- NULL at the end. `Chain next p xs` says that the list from `p` runs through the objects `xs`.
pub mod Bound
pub mod Find
pub mod Seek
use ece_354_real_time_operat.Base.{
  ℕ, zero, suc, ◌≤◌, ◌<◌, ◌≡◌, refl, sym, subst, ◌∙◌, ◌≢◌, Bool, true, false, ◌||◌, List, [], ◌∷◌,
  ◌++◌, arith, inl, inr, Bool-cases, ◌==◌, if◌then◌else◌, update, Option, none, some, Returns,
  returns, mono,
}

abbrev pub Ptr : Type 0
Ptr = ℕ

abbrev pub null : Ptr
null = 0

abbrev pub has : Ptr → List Ptr → Bool
has a [] = false
has a (x ∷ xs) = (a == x) || has a xs

abbrev pub length : List Ptr → ℕ
length [] = 0
length (x ∷ xs) = suc (length xs)

abbrev pub Chain : (Ptr → Ptr) → Ptr → List Ptr → Type 0
Chain next p [] = p ≡ null
Chain next p (x ∷ xs) = (p ≡ x) × (x ≢ null) × (has x xs ≡ false) × Chain next (next x) xs

-- The last object of the list from `p`.
unfoldable pub last : ℕ → (Ptr → Ptr) → Ptr → Option Ptr
last zero next p = none
last (suc fuel) next p =
    let rest = last fuel next (next p) in if next p == null then some p else rest

-- The object before `target` in the list from `p`; NULL if there is none.
unfoldable pub before : ℕ → (Ptr → Ptr) → Ptr → Ptr → Option Ptr
before zero next target p = none
before (suc fuel) next target p =
    let rest = before fuel next target (next p) in
    if p == null then some null else if next p == target then some p else rest

pub has-append : (a : Ptr) (xs ys : List Ptr) → has a (xs ++ ys) ≡ (has a xs || has a ys)
has-append a [] ys = refl
has-append a (x ∷ xs) ys = ground (arith, has-append a xs ys)

-- A write to an object outside of the list leaves the list.
pub frame :
    (next : Ptr → Ptr) (a v p : Ptr) (xs : List Ptr)
    → Chain next p xs
    → has a xs ≡ false
    → Chain (update next a v) p xs
frame next a v p [] c out = c
frame next a v p (x ∷ xs) c out = (c.0, c.1, c.2, ground (arith, frame next a v (next x) xs))

-- The list without the first occurrence of `a`.
unfoldable pub erase : Ptr → List Ptr → List Ptr
erase a [] = []
erase a (x ∷ xs) = if a == x then xs else x ∷ erase a xs

pub has-erase : (b a : Ptr) (xs : List Ptr) → has b (erase a xs) ≡ true → has b xs ≡ true
unfolding erase
has-erase b a [] h = h
has-erase b a (x ∷ xs) h = ground (arith, has-erase b a xs)

pub has-erase_ne : (b a : Ptr) (xs : List Ptr) → b ≢ a → has b (erase a xs) ≡ has b xs
unfolding erase
has-erase_ne b a [] ne = refl
has-erase_ne b a (x ∷ xs) ne = ground (arith, has-erase_ne b a xs ne)

pub erase-head : (x : Ptr) (xs : List Ptr) → erase x (x ∷ xs) ≡ xs
unfolding erase
erase-head x xs = ground arith

pub Chain-nil : (next : Ptr → Ptr) (p : Ptr) (xs : List Ptr) → Chain next p xs → p ≡ null → xs ≡ []
Chain-nil next p [] c e = refl
Chain-nil next p (x ∷ xs) c e = absurd (c.1 (sym c.0 ∙ e))

-- The first object of a list that is not empty is the one that its head points to.
pub Chain-head :
    (next : Ptr → Ptr) (p : Ptr) (xs : List Ptr)
    → Chain next p xs
    → p ≢ null
    → (rest : List Ptr) × (xs ≡ p ∷ rest) × (has p rest ≡ false) × Chain next (next p) rest
Chain-head next p [] c ne = absurd (ne c)
Chain-head next p (x ∷ xs) c ne = (xs, ground arith, ground arith, ground arith)

-- Linking a new object behind the last one puts it at the end of the list.
pub last-Chain :
    (fuel : ℕ) (next : Ptr → Ptr) (y p x : Ptr) (xs : List Ptr)
    → Chain next p (x ∷ xs)
    → has y (x ∷ xs) ≡ false
    → y ≢ null
    → length (x ∷ xs) ≤ fuel
    → Returns
        (λ z.
          Chain (update (update next z y) y null) p ((x ∷ xs) ++ (y ∷ []))
          × (has z (x ∷ xs) ≡ true))
        (last fuel next p)
unfolding last
last-Chain zero next y p x xs c out ne enough = absurd (omega arith)
last-Chain (suc fuel) next y p x [] c out ne enough =
    rw (c.0, c.3) (returns (ground arith, ground arith))
last-Chain (suc fuel) next y p x (x' ∷ xs) c out ne enough =
    let more : (next x == null) ≡ false = ground arith in
    rw (c.0, more)
      (mono (last-Chain fuel next y (next x) x' xs c.3 (ground arith) ne (omega arith))
        λ z (tail, inside).
          let z_ne : x ≢ z = ground arith in
          let outside : has x (xs ++ (y ∷ [])) ≡ false = rw has-append (ground arith) in
          let here : update (update next z y) y null x ≡ x' = ground arith in
          ((refl, c.1, ground arith, (here, tail.1, tail.2, tail.3)), ground arith))

before_step :
    (next : Ptr → Ptr) (t z x x' : Ptr) (xs : List Ptr)
    → Chain next x (x ∷ x' ∷ xs)
    → (t == x) ≡ false
    → (t == x') ≡ false
    → (z ≢ null)
      × Chain (update (update next z (next t)) t null) (next x) (erase t (x' ∷ xs))
      × (has z (erase t (x' ∷ xs)) ≡ true)
    → (z ≢ null)
      × Chain (update (update next z (next t)) t null) x (x ∷ erase t (x' ∷ xs))
      × (has z (x ∷ erase t (x' ∷ xs)) ≡ true)
unfolding erase
before_step next t z x x' xs c skip other (live, tail, inside) =
    let outside : has x (erase t (x' ∷ xs)) ≡ false = ground (arith, has-erase_ne x t (x' ∷ xs)) in
    let here : update (update next z (next t)) t null x ≡ next x = ground arith in
    (live, (refl, c.1, outside, rw here tail), ground arith)

-- Unlinking the object behind the one that `before` finds takes it out of the list.
pub before-Chain :
    (fuel : ℕ) (next : Ptr → Ptr) (t p : Ptr) (xs : List Ptr)
    → Chain next p xs
    → has t xs ≡ true
    → p ≢ t
    → length xs ≤ fuel
    → Returns
        (λ z.
          (z ≢ null)
          × Chain (update (update next z (next t)) t null) p (erase t xs)
          × (has z (erase t xs) ≡ true))
        (before fuel next t p)
unfolding before erase
before-Chain zero next t p [] c i ne enough = cc
before-Chain zero next t p (x ∷ xs) c i ne enough = absurd (omega arith)
before-Chain (suc fuel) next t p [] c i ne enough = cc
before-Chain (suc fuel) next t p (x ∷ []) c i ne enough = absurd (ground arith)
before-Chain (suc fuel) next t p (x ∷ x' ∷ xs) c i ne enough =
    let live : (x == null) ≡ false = ground arith in
    let skip : (t == x) ≡ false = ground arith in
    elim (Bool-cases (next x == t)) [
      | inl hit ↦
          let found : (t == x') ≡ true = ground arith in
          let next' = update (update next x (next t)) t null in
          let here : next' x ≡ next x' = ground arith in
          let tail : Chain next' (next x') xs =
            frame (update next x (next t)) t null (next x') xs
              (frame next x (next t) (next x') xs c.3.3 (ground arith)) (ground arith) in
          rw (c.0, live, hit, skip, found)
            (returns (ground arith, (refl, c.1, ground arith, rw here tail), ground arith))
      | inr miss ↦
          let other : (t == x') ≡ false = ground arith in
          rw (c.0, live, miss, skip)
            (mono
              (before-Chain fuel next t (next x) (x' ∷ xs) c.3 (ground arith) (ground arith)
                (omega arith))
              λ z r. before_step next t z x x' xs (refl, c.1, c.2, c.3) skip other r)
    ]

pub Chain-live :
    (next : Ptr → Ptr) (p : Ptr) (xs : List Ptr) → Chain next p xs → has null xs ≡ false
Chain-live next p [] c = refl
Chain-live next p (x ∷ xs) c = ground (arith, Chain-live next (next x) xs c.3)
