-- ===== src/Strings/Tests.antt =====
-- The texts `42`, `4x` and a destination full of 9, and the theorems of this component there.
use ece_354_real_time_operat.Base.{
  false, ℕ, ◌≡◌, refl, some, [], ◌∷◌, arith, ◌==◌, ltb, if◌then◌else◌, Returns,
}
use ece_354_real_time_operat.Core.State.{minus_one, is_negative}
use ece_354_real_time_operat.Strings.{str_copy, ascii_to_int}
use ece_354_real_time_operat.Strings.Copies.{IsEnd, str_copy_lem}
use ece_354_real_time_operat.Strings.Reads.{decimal, ascii_to_int-Digits, ascii_to_int-minus_one}

abbrev number : ℕ → ℕ
number i = if i == 0 then 52 else if i == 1 then 50 else 0

abbrev word : ℕ → ℕ
word i = if i == 0 then 52 else if i == 1 then 120 else 0

number-IsEnd : IsEnd number 2
number-IsEnd = record { nul = refl; before = λ i h. ground arith }

str_copy_lem_example :
    Returns (λ r. (j : ℕ) → r j ≡ (if ltb j 2 then number j else 9)) (str_copy 5 number (λ j. 9))
str_copy_lem_example = str_copy_lem 5 2 number (λ j. 9) number-IsEnd (omega arith)

ascii_to_int-Digits_example :
    (ascii_to_int 5 number ≡ some (decimal (4 ∷ 2 ∷ []) 0))
    × (is_negative (decimal (4 ∷ 2 ∷ []) 0) ≡ false)
unfolding decimal
ascii_to_int-Digits_example =
    ascii_to_int-Digits 5 4 number (2 ∷ []) (omega arith, refl, (omega arith, refl, refl))
      (omega arith) (omega arith)

ascii_to_int-minus_one_example : ascii_to_int 5 word ≡ some minus_one
ascii_to_int-minus_one_example =
    ascii_to_int-minus_one 5 120 word (4 ∷ []) (omega arith, refl, refl) (ground arith) refl
      (omega arith)
