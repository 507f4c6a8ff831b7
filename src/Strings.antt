-- ===== src/Strings.antt =====
-- shared/rtx_util.c: copying a text and reading a number. A text is an array of character codes, and
-- `none` is a loop that does not end within its fuel.
pub mod Copies
pub mod Reads
pub mod Texts
mod Tests
use ece_354_real_time_operat.Base.{
  ℕ, zero, suc, ◌+◌, ◌-◌, ◌*◌, ◌%◌, ◌^◌, ◌||◌, List, [], ◌∷◌, Option, none, some, ◌==◌, ltb,
  if◌then◌else◌, update,
}
use ece_354_real_time_operat.Core.State.{minus_one}

-- A text given by its characters, with NUL behind them.
abbrev pub text : List ℕ → ℕ → ℕ
text [] i = 0
text (c ∷ cs) zero = c
text (c ∷ cs) (suc i) = text cs i

-- The loop from the place `i` on. The NUL that ends the text is not copied.
unfoldable pub copy_from : ℕ → ℕ → (ℕ → ℕ) → (ℕ → ℕ) → Option (ℕ → ℕ)
copy_from zero i from to = none
copy_from (suc fuel) i from to =
    let rest = copy_from fuel (i + 1) from (update to i (from i)) in
    if from i == 0 then some to else rest

unfoldable pub str_copy : ℕ → (ℕ → ℕ) → (ℕ → ℕ) → Option (ℕ → ℕ)
str_copy fuel from to = copy_from fuel 0 from to

-- The loop from the place `i` on. `value` is the 32-bit word of a SINT32, and -1 the word `minus_one`.
-- C leaves open what an overflow of the SINT32 gives; here it wraps around, as on the processor.
unfoldable pub read_from : ℕ → ℕ → ℕ → (ℕ → ℕ) → Option ℕ
read_from zero i value string = none
read_from (suc fuel) i value string =
    let rest = read_from fuel (i + 1) ((value * 10 + (string i - 0x30)) % 2 ^ 32) string in
    if string i == 0
    then some value
    else if ltb (string i) 0x30 || ltb 0x39 (string i)
    then some minus_one
    else rest

unfoldable pub ascii_to_int : ℕ → (ℕ → ℕ) → Option ℕ
ascii_to_int fuel string = if string 0 == 0 then some minus_one else read_from fuel 0 0 string
