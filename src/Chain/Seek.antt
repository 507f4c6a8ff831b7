-- ===== src/Chain/Seek.antt =====
-- The walk of remove_mem_block (mm/mem.c), which carries the object before the current one along.
use ece_354_real_time_operat.Base.{
  ℕ, zero, suc, ◌<◌, ◌≡◌, refl, ◌≢◌, ◌⊎◌, inl, inr, Bool, true, false, List, [], ◌∷◌, Option, none,
  some, arith, ◌==◌, if◌then◌else◌, update, Bool-cases, Returns, returns, mono,
}
use ece_354_real_time_operat.Chain.{Ptr, null, has, length, Chain, frame, erase, has-erase_ne}

-- `for (cur = *queue; cur != NULL; cur = cur->next) { if (cur == target) …; prev = cur; }`: whether
-- the target is met, and what `prev` is then.
unfoldable pub seek : ℕ → (Ptr → Ptr) → Ptr → Ptr → Ptr → Option (Bool × Ptr)
seek zero next target prev cur = none
seek (suc fuel) next target prev cur =
    let rest = seek fuel next target cur (next cur) in
    if cur == null then some (false, prev) else if cur == target then some (true, prev) else rest

-- Where the walk ends: at the head, with the `prev` that it started from, or behind an object `z`
-- that stays in the list.
abbrev pub Met : (Ptr → Ptr) → Ptr → Ptr → Ptr → List Ptr → Ptr → Type 0
Met next t prev cur xs z =
    ((cur ≡ t) × (z ≡ prev))
    ⊎ ((cur ≢ t)
        × (z ≢ null)
        × (has z (erase t xs) ≡ true)
        × Chain (update next z (next t)) cur (erase t xs))

abbrev pub Sought : (Ptr → Ptr) → Ptr → Ptr → Ptr → List Ptr → Bool × Ptr → Type 0
Sought next t prev cur xs r = (r.0 ≡ has t xs) × (r.0 ≡ true → Met next t prev cur xs r.1)

Met-cons :
    (next : Ptr → Ptr) (t prev x z : Ptr) (xs : List Ptr)
    → Chain next x (x ∷ xs)
    → (x == t) ≡ false
    → has t xs ≡ true
    → Met next t x (next x) xs z
    → Met next t prev x (x ∷ xs) z
unfolding erase
Met-cons next t prev x z [] c miss i m = cc
Met-cons next t prev x z (x' ∷ xs) c miss i (inl (e, e')) =
    let hit : (t == x') ≡ true = ground arith in
    let other : (t == x) ≡ false = ground arith in
    let here : update next z (next t) x ≡ next x' = ground arith in
    inr (
      ground arith,
      ground arith,
      rw (other, hit) (ground arith),
      rw (other, hit)
          (
            refl,
            c.1,
            ground arith,
            rw here (frame next z (next t) (next x') xs c.3.3 (ground arith)),
          ),
    )
Met-cons next t prev x z (x' ∷ xs) c miss i (inr (ne, live, inside, chain)) =
    let other : (t == x) ≡ false = ground arith in
    let outside : has x (erase t (x' ∷ xs)) ≡ false = ground (arith, has-erase_ne x t (x' ∷ xs)) in
    let here : update next z (next t) x ≡ next x = ground arith in
    inr (ground arith, live, rw other (ground arith), rw other (refl, c.1, outside, rw here chain))

pub seek-Sought :
    (fuel : ℕ) (next : Ptr → Ptr) (t prev cur : Ptr) (xs : List Ptr)
    → Chain next cur xs
    → length xs < fuel
    → Returns (Sought next t prev cur xs) (seek fuel next t prev cur)
unfolding seek
seek-Sought zero next t prev cur xs c enough = absurd (omega arith)
seek-Sought (suc fuel) next t prev cur [] c enough = rw c (returns (refl, λ e. cc))
seek-Sought (suc fuel) next t prev cur (x ∷ xs) c enough =
    let live : (x == null) ≡ false = ground arith in
    elim (Bool-cases (x == t)) [
      | inl hit ↦ rw (c.0, live, hit) (returns (ground arith, λ e. inl (ground arith, refl)))
      | inr miss ↦
          let other : (t == x) ≡ false = ground arith in
          rw (c.0, live, miss)
            (mono (seek-Sought fuel next t x (next x) xs c.3 (omega arith)) λ r (e, met). (
              ground arith,
              λ e'.
                  Met-cons next t prev x r.1 xs (refl, c.1, c.2, c.3) miss (ground arith) (met e'),
            ))
    ]
