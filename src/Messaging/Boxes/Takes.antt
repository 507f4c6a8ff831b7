-- ===== src/Messaging/Boxes/Takes.antt =====
-- receive_message_handler takes the first envelope that passes the test, and leaves no gap.
use ece_354_real_time_operat.Base.{
  ℕ, zero, suc, ◌+◌, ◌≤◌, ◌<◌, ◌≡◌, refl, sym, subst, ◌∙◌, Bool, true, false, List, [], ◌∷◌, arith,
  ◌==◌, if◌then◌else◌, update, inl, inr, Bool-cases,
}
use ece_354_real_time_operat.Chain.{length}
use ece_354_real_time_operat.Chain.Find.{find_first}
use ece_354_real_time_operat.Messaging.Boxes.{Box, shift_from, take_from}
use ece_354_real_time_operat.Messaging.Boxes.Compact.{Compact, Compact-update, shift_from-Shifted}

-- The list without the first envelope that passes the test.
unfoldable pub drop_first : (ℕ → Bool) → List ℕ → List ℕ
drop_first test [] = []
drop_first test (x ∷ xs) = if test x then xs else x ∷ drop_first test xs

take_from_step :
    (rounds i : ℕ) (test : ℕ → Bool) (box : Box)
    → (box i == 0) ≡ false
    → test (box i) ≡ false
    → take_from (suc rounds) i test box ≡ take_from rounds (suc i) test box
unfolding take_from
take_from_step rounds i test box full miss =
    let next : i + 1 ≡ suc i = omega arith in rw (full, miss, next) refl

take_from_hit :
    (rounds i : ℕ) (test : ℕ → Bool) (box : Box)
    → (box i == 0) ≡ false
    → test (box i) ≡ true
    → take_from (suc rounds) i test box ≡ (box i, (shift_from rounds i (update box i 0)).1)
unfolding take_from
take_from_hit rounds i test box full hit = rw (full, hit) refl

-- What the search for an envelope gives: the first that passes the test, and the others.
abbrev pub Taken : Box → ℕ → (ℕ → Bool) → List ℕ → ℕ × Box → Type 0
Taken box i test xs r =
    (r.0 ≡ find_first test xs)
    × Compact r.1 i (drop_first test xs)
    × ((j : ℕ) → j < i → r.1 j ≡ box j)

pub take_from-Taken :
    (rounds i : ℕ) (test : ℕ → Bool) (box : Box) (xs : List ℕ)
    → Compact box i xs
    → length xs ≤ rounds
    → Taken box i test xs (take_from rounds i test box)
unfolding take_from drop_first find_first
take_from-Taken zero i test box [] c room = (refl, c, λ j h. refl)
take_from-Taken zero i test box (x ∷ xs) c room = absurd (omega arith)
take_from-Taken (suc rounds) i test box [] c room =
    let empty : (box i == 0) ≡ true = let e = c i (omega arith) in ground arith in
    rw empty (refl, c, λ j h. refl)
take_from-Taken (suc rounds) i test box (x ∷ xs) (at, live, rest) room =
    let full : (box i == 0) ≡ false = ground arith in
    elim (Bool-cases (test x)) [
      | inl hit ↦
          let (c, place, below) =
            shift_from-Shifted rounds i (update box i 0) xs (ground arith)
              (Compact-update box (suc i) i 0 xs (omega arith) rest) (omega arith) in
          subst (Taken box i test (x ∷ xs)) (sym (take_from_hit rounds i test box full (rw at hit)))
            (rw hit (at, c, λ j h. below j h ∙ ground arith))
      | inr miss ↦
          let (e, c, below) = take_from-Taken rounds (suc i) test box xs rest (omega arith) in
          subst (Taken box i test (x ∷ xs))
            (sym (take_from_step rounds i test box full (rw at miss)))
            (rw miss (e, (below i (omega arith) ∙ at, live, c), λ j h. below j (omega arith)))
    ]
