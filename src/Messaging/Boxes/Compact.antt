-- ===== src/Messaging/Boxes/Compact.antt =====
-- A mailbox without gaps: putting an envelope in appends it, and the shift closes a gap.
use ece_354_real_time_operat.Base.{
  ℕ, zero, suc, ◌+◌, ◌≤◌, ◌<◌, ◌≡◌, refl, sym, ap, subst, ◌∙◌, ◌≢◌, true, false, List, [], ◌∷◌,
  ◌++◌, arith, ◌==◌, update, inl, inr, Bool-cases,
}
use ece_354_real_time_operat.Chain.{length}
use ece_354_real_time_operat.Messaging.Boxes.{Box, put_from, shift_from}

-- From the place `i` on, the array holds the envelopes `xs` in order, and nothing behind them.
abbrev pub Compact : Box → ℕ → List ℕ → Type 0
Compact box i [] = (j : ℕ) → i ≤ j → box j ≡ 0
Compact box i (x ∷ xs) = (box i ≡ x) × (x ≢ 0) × Compact box (suc i) xs

-- A write before the place `i` is not seen from there on.
pub Compact-update :
    (box : Box) (i j v : ℕ) (xs : List ℕ) → j < i → Compact box i xs → Compact (update box j v) i xs
Compact-update box i j v [] h c = λ k h'. let e = c k h' in ground arith
Compact-update box i j v (x ∷ xs) h (at, live, rest) =
    (ground arith, live, Compact-update box (suc i) j v xs (omega arith) rest)

put_from_step :
    (rounds i envelope : ℕ) (box : Box)
    → (box i == 0) ≡ false
    → put_from (suc rounds) i envelope box ≡ put_from rounds (suc i) envelope box
unfolding put_from
put_from_step rounds i envelope box e = let next : i + 1 ≡ suc i = omega arith in rw (e, next) refl

-- What the search for an empty place gives.
abbrev pub Put : Box → ℕ → ℕ → List ℕ → ℕ × Box → Type 0
Put box i envelope xs r =
    Compact r.1 i (xs ++ (envelope ∷ []))
    × (r.0 ≡ i + length xs)
    × ((j : ℕ) → j < i → r.1 j ≡ box j)

pub put_from-Put :
    (rounds i envelope : ℕ) (box : Box) (xs : List ℕ)
    → Compact box i xs
    → envelope ≢ 0
    → length xs < rounds
    → Put box i envelope xs (put_from rounds i envelope box)
unfolding put_from
put_from-Put zero i envelope box xs c live room = absurd (omega arith)
put_from-Put (suc rounds) i envelope box [] c live room =
    let empty : (box i == 0) ≡ true = let e = c i (omega arith) in ground arith in
    rw empty (
      (ground arith, live, λ j h. let e = c j (omega arith) in ground arith),
      omega arith,
      λ j h. ground arith,
    )
put_from-Put (suc rounds) i envelope box (x ∷ xs) (at, full, rest) live room =
    let taken : (box i == 0) ≡ false = ground arith in
    let (c, place, below) = put_from-Put rounds (suc i) envelope box xs rest live (omega arith) in
    subst (Put box i envelope (x ∷ xs)) (sym (put_from_step rounds i envelope box taken))
      ((below i (omega arith) ∙ at, full, c), place ∙ omega arith, λ j h. below j (omega arith))

-- A full array stays as it is.
pub put_from_full :
    (rounds i envelope : ℕ) (box : Box) (xs : List ℕ)
    → Compact box i xs
    → rounds ≤ length xs
    → put_from rounds i envelope box ≡ (i + rounds, box)
unfolding put_from
put_from_full zero i envelope box xs c full = let e : i + 0 ≡ i = omega arith in rw e refl
put_from_full (suc rounds) i envelope box [] c full = absurd (omega arith)
put_from_full (suc rounds) i envelope box (x ∷ xs) (at, live, rest) full =
    let there : suc i + rounds ≡ i + suc rounds = omega arith in
    put_from_step rounds i envelope box (ground arith)
    ∙ (put_from_full rounds (suc i) envelope box xs rest (omega arith) ∙ ap (λ n. (n, box)) there)

abbrev moved : ℕ → Box → Box
moved hole box = update (update box hole (box (suc hole))) (suc hole) 0

shift_from_step :
    (rounds hole : ℕ) (box : Box)
    → (box (suc hole) == 0) ≡ false
    → shift_from (suc rounds) hole box ≡ shift_from rounds (suc hole) (moved hole box)
unfolding shift_from
shift_from_step rounds hole box e =
    let next : hole + 1 ≡ suc hole = omega arith in rw (next, e) refl

-- What the shift gives.
abbrev pub Shifted : Box → ℕ → List ℕ → ℕ × Box → Type 0
Shifted box hole xs r =
    Compact r.1 hole xs × (r.0 ≡ hole + 1 + length xs) × ((j : ℕ) → j < hole → r.1 j ≡ box j)

-- The gap is at the end already.
shifted_end :
    (hole : ℕ) (box : Box) → box hole ≡ 0 → Compact box (suc hole) [] → Compact box hole []
shifted_end hole box gap c = λ j h. elim (Bool-cases (hole == j)) [
  | inl e ↦ let e' : hole ≡ j = ground arith in rw (← e') gap
  | inr e ↦ c j (ground arith)
]

pub shift_from-Shifted :
    (rounds hole : ℕ) (box : Box) (xs : List ℕ)
    → box hole ≡ 0
    → Compact box (suc hole) xs
    → length xs ≤ rounds
    → Shifted box hole xs (shift_from rounds hole box)
unfolding shift_from
shift_from-Shifted zero hole box [] gap c room =
    (shifted_end hole box gap c, omega arith, λ j h. refl)
shift_from-Shifted zero hole box (x ∷ xs) gap c room = absurd (omega arith)
shift_from-Shifted (suc rounds) hole box [] gap c room =
    let empty : (box (hole + 1) == 0) ≡ true = let e = c (hole + 1) (omega arith) in ground arith in
    rw empty (shifted_end hole box gap c, omega arith, λ j h. refl)
shift_from-Shifted (suc rounds) hole box (x ∷ xs) gap (at, live, rest) room =
    let first = update box hole (box (suc hole)) in
    let rest' =
      Compact-update first (suc (suc hole)) (suc hole) 0 xs (omega arith)
        (Compact-update box (suc (suc hole)) hole (box (suc hole)) xs (omega arith) rest) in
    let (c, place, below) =
      shift_from-Shifted rounds (suc hole) (moved hole box) xs (ground arith) rest' (omega arith) in
    subst (Shifted box hole (x ∷ xs)) (sym (shift_from_step rounds hole box (ground arith))) (
      (below hole (omega arith) ∙ ground arith, live, c),
      place ∙ omega arith,
      λ j h. below j (omega arith) ∙ ground arith,
    )
