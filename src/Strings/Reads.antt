-- ===== src/Strings/Reads.antt =====
-- ascii_to_int reads the decimal numbers, and answers -1 on any other text.
use ece_354_real_time_operat.Base.{
  ℕ, zero, suc, ◌+◌, ◌-◌, ◌*◌, ◌%◌, ◌^◌, ◌<◌, ◌≤◌, ◌≡◌, refl, ◌≢◌, inl, inr, true, false, List, [],
  ◌∷◌, some, arith, ◌==◌, ltb, ◌||◌, Bool-cases,
}
use ece_354_real_time_operat.Chain.{length}
use ece_354_real_time_operat.Core.State.{minus_one, is_negative}
use ece_354_real_time_operat.Strings.{read_from, ascii_to_int}

-- The number with these decimal digits, behind those of `value`.
unfoldable pub decimal : List ℕ → ℕ → ℕ
decimal [] value = value
decimal (d ∷ ds) value = decimal ds (value * 10 + d)

-- From the place `i` on, the text has the digits `ds` and then the character `last`.
abbrev pub Digits : (ℕ → ℕ) → ℕ → List ℕ → ℕ → Type 0
Digits string i [] last = string i ≡ last
Digits string i (d ∷ ds) last = (d < 10) × (string i ≡ d + 0x30) × Digits string (i + 1) ds last

decimal_grows : (ds : List ℕ) (value : ℕ) → value ≤ decimal ds value
unfolding decimal
decimal_grows [] value = omega arith
decimal_grows (d ∷ ds) value = omega (arith, decimal_grows ds (value * 10 + d))

read_from_number :
    (fuel i value : ℕ) (string : ℕ → ℕ) (ds : List ℕ)
    → Digits string i ds 0
    → decimal ds value < 2 ^ 32
    → length ds < fuel
    → read_from fuel i value string ≡ some (decimal ds value)
unfolding read_from decimal
read_from_number zero i value string ds v small enough = absurd (omega arith)
read_from_number (suc fuel) i value string [] v small enough = rw v refl
read_from_number (suc fuel) i value string (d ∷ ds) (low, at, more) small enough =
    let live : (d + 0x30 == 0) ≡ false = ground arith in
    let digit : (ltb (d + 0x30) 0x30 || ltb 0x39 (d + 0x30)) ≡ false = ground arith in
    let grows = decimal_grows ds (value * 10 + d) in
    let next : (value * 10 + (d + 0x30 - 0x30)) % 2 ^ 32 ≡ value * 10 + d = omega arith in
    rw (at, live, digit, next)
      (read_from_number fuel (i + 1) (value * 10 + d) string ds more small (omega arith))

read_from_other :
    (fuel i value : ℕ) (string : ℕ → ℕ) (ds : List ℕ) (c : ℕ)
    → Digits string i ds c
    → c ≢ 0
    → (ltb c 0x30 || ltb 0x39 c) ≡ true
    → length ds < fuel
    → read_from fuel i value string ≡ some minus_one
unfolding read_from
read_from_other zero i value string ds c v live bad enough = absurd (omega arith)
read_from_other (suc fuel) i value string [] c v live bad enough =
    let e : (c == 0) ≡ false = ground arith in rw (v, e, bad) refl
read_from_other (suc fuel) i value string (d ∷ ds) c (low, at, more) live bad enough =
    let some_digit : (d + 0x30 == 0) ≡ false = ground arith in
    let digit : (ltb (d + 0x30) 0x30 || ltb 0x39 (d + 0x30)) ≡ false = ground arith in
    rw (at, some_digit, digit)
      (read_from_other fuel (i + 1) _ string ds c more live bad (omega arith))

-- The word that the loop leaves for a number of 32 bits.
pub ascii_to_int_word :
    (fuel d : ℕ) (string : ℕ → ℕ) (ds : List ℕ)
    → Digits string 0 (d ∷ ds) 0
    → decimal (d ∷ ds) 0 < 2 ^ 32
    → length (d ∷ ds) < fuel
    → ascii_to_int fuel string ≡ some (decimal (d ∷ ds) 0)
unfolding ascii_to_int
ascii_to_int_word fuel d string ds v small enough =
    let live : (string 0 == 0) ≡ false = let at = v.1 in ground arith in
    rw live (read_from_number fuel 0 0 string (d ∷ ds) v small enough)

-- With more rounds of fuel than there are digits, ascii_to_int returns the number that the digits
-- of a text stand for, which is not negative, if there is a digit and the number is below 2 ^ 31,
-- so that it is a SINT32.
pub ascii_to_int-Digits :
    (fuel d : ℕ) (string : ℕ → ℕ) (ds : List ℕ)
    → Digits string 0 (d ∷ ds) 0
    → decimal (d ∷ ds) 0 < 2 ^ 31
    → length (d ∷ ds) < fuel
    → (ascii_to_int fuel string ≡ some (decimal (d ∷ ds) 0))
      × (is_negative (decimal (d ∷ ds) 0) ≡ false)
ascii_to_int-Digits fuel d string ds v small enough =
    (ascii_to_int_word fuel d string ds v (omega arith) enough, ground arith)

-- With more rounds of fuel than there are digits, ascii_to_int returns -1 if a character that is
-- neither a digit nor NUL follows the first digits.
pub ascii_to_int-minus_one :
    (fuel c : ℕ) (string : ℕ → ℕ) (ds : List ℕ)
    → Digits string 0 ds c
    → c ≢ 0
    → (ltb c 0x30 || ltb 0x39 c) ≡ true
    → length ds < fuel
    → ascii_to_int fuel string ≡ some minus_one
unfolding ascii_to_int
ascii_to_int-minus_one fuel c string ds v live bad enough = elim (Bool-cases (string 0 == 0)) [
  | inl e ↦ rw e refl
  | inr e ↦ rw e (read_from_other fuel 0 0 string ds c v live bad enough)
]
