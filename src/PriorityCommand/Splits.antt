-- ===== src/PriorityCommand/Splits.antt =====
-- The two numbers of a command, once the blank between them is NUL.
use ece_354_real_time_operat.Base.{
  ℕ, zero, suc, ◌+◌, ◌<◌, ◌≡◌, refl, some, false, List, [], ◌∷◌, arith, ◌==◌, update,
}
use ece_354_real_time_operat.Chain.{length}
use ece_354_real_time_operat.Strings.Reads.{Digits}
use ece_354_real_time_operat.PriorityCommand.{split_from}

pub Digits-shift :
    (n i : ℕ) (msg : ℕ → ℕ) (ds : List ℕ) (last : ℕ)
    → Digits msg (n + i) ds last
    → Digits (λ j. msg (n + j)) i ds last
Digits-shift n i msg [] last v = v
Digits-shift n i msg (d ∷ ds) last (low, at, more) =
    let e : n + i + 1 ≡ n + (i + 1) = omega arith in
    (low, at, Digits-shift n (i + 1) msg ds last (rw e at more))

-- A write before the number is not seen in it.
pub Digits-update :
    (p v i : ℕ) (msg : ℕ → ℕ) (ds : List ℕ) (last : ℕ)
    → p < i
    → Digits msg i ds last
    → Digits (update msg p v) i ds last
Digits-update p v i msg [] last h e = ground arith
Digits-update p v i msg (d ∷ ds) last h (low, at, more) =
    (low, ground arith, Digits-update p v (i + 1) msg ds last (omega arith) more)

pub split_from-Digits :
    (fuel i : ℕ) (msg : ℕ → ℕ) (ds : List ℕ)
    → Digits msg i ds 0x20
    → length ds < fuel
    → split_from fuel i msg ≡ some (i + length ds, update msg (i + length ds) 0)
unfolding split_from
split_from-Digits zero i msg ds v enough = absurd (omega arith)
split_from-Digits (suc fuel) i msg [] v enough = let e : i + 0 ≡ i = omega arith in rw (v, e) refl
split_from-Digits (suc fuel) i msg (d ∷ ds) (low, at, more) enough =
    let live : (d + 0x30 == 0) ≡ false = ground arith in
    let digit : (d + 0x30 == 0x20) ≡ false = ground arith in
    let e : i + 1 + length ds ≡ i + length (d ∷ ds) = omega arith in
    rw (at, live, digit) (rw e at (split_from-Digits fuel (i + 1) msg ds more (omega arith)))

-- The blank behind the first number is its end now.
pub Digits-end :
    (i : ℕ) (msg : ℕ → ℕ) (ds : List ℕ) (last : ℕ)
    → Digits msg i ds last
    → Digits (update msg (i + length ds) 0) i ds 0
Digits-end i msg [] last v = ground arith
Digits-end i msg (d ∷ ds) last (low, at, more) =
    let e : i + 1 + length ds ≡ i + length (d ∷ ds) = omega arith in
    (low, ground arith, rw e at (Digits-end (i + 1) msg ds last more))
