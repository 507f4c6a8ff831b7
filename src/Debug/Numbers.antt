-- ===== src/Debug/Numbers.antt =====
-- print_int writes the decimal digits of a number, and ascii_to_int reads them back.
use ece_354_real_time_operat.Base.{
  ℕ, zero, suc, ◌+◌, ◌*◌, ◌/◌, ◌%◌, ◌^◌, ◌≤◌, ◌<◌, ◌≡◌, refl, sym, ap, ◌∙◌, inl, inr, true, false,
  List, [], ◌∷◌, ◌++◌, append_assoc, some, arith, ◌==◌, Bool-cases, Returns, returns, bind, mono,
}
use ece_354_real_time_operat.Chain.{length}
use ece_354_real_time_operat.Memory.Pool.{length-append}
use ece_354_real_time_operat.Strings.{text, ascii_to_int}
use ece_354_real_time_operat.Strings.Reads.{decimal, Digits, ascii_to_int_word}
use ece_354_real_time_operat.Debug.{push_digits, pop_digits, print_int}

-- The characters of digits.
abbrev pub chars : List ℕ → List ℕ
chars [] = []
chars (d ∷ ds) = (0x30 + d) ∷ chars ds

chars-append : (ds es : List ℕ) → chars (ds ++ es) ≡ chars ds ++ chars es
chars-append [] es = refl
chars-append (d ∷ ds) es = ap (λ l. (0x30 + d) ∷ l) (chars-append ds es)

abbrev pub AreDigits : List ℕ → Type 0
AreDigits [] = 0 ≤ 0
AreDigits (d ∷ ds) = (d < 10) × AreDigits ds

AreDigits-append : (ds : List ℕ) (d : ℕ) → AreDigits ds → d < 10 → AreDigits (ds ++ (d ∷ []))
AreDigits-append [] d all low = (low, omega arith)
AreDigits-append (e ∷ ds) d all low = (all.0, AreDigits-append ds d all.1 low)

decimal-append :
    (ds : List ℕ) (d value : ℕ) → decimal (ds ++ (d ∷ [])) value ≡ decimal ds value * 10 + d
unfolding decimal
decimal-append [] d value = refl
decimal-append (e ∷ ds) d value = decimal-append ds d (value * 10 + e)

-- One more than the highest number with `n` digits and one more.
abbrev limit : ℕ → ℕ
limit zero = 10
limit (suc n) = 10 * limit n

-- What stands on the stack, above `stack`.
pub record Pushed (n value : ℕ) (stack : List ℕ) (stack' : List ℕ) : Type 0 where
  pub digits : List ℕ
  pub on_top : stack' ≡ chars digits ++ stack
  pub all : AreDigits digits
  pub number : decimal digits 0 ≡ value
  pub short : length digits ≤ suc n
  pub some_digit : 0 < length digits

-- The last digit.
Pushed-last :
    (n value : ℕ) (stack : List ℕ)
    → value / 10 ≡ 0
    → Pushed n value stack ((0x30 + value % 10) ∷ stack)
unfolding decimal
Pushed-last n value stack h = record {
  digits = value % 10 ∷ [];
  on_top = refl;
  all = (omega arith, omega arith);
  number = omega arith;
  short = omega arith;
  some_digit = omega arith;
}

-- The digits of the tenth part, and a digit.
Pushed-more :
    (n value : ℕ) (stack stack' : List ℕ)
    → Pushed n (value / 10) ((0x30 + value % 10) ∷ stack) stack'
    → Pushed (suc n) value stack stack'
Pushed-more n value stack stack' p = record {
  digits = p.digits ++ (value % 10 ∷ []);
  on_top =
      p.on_top
      ∙ (sym (append_assoc (chars p.digits) ((0x30 + value % 10) ∷ []) stack)
          ∙ ap (λ l. l ++ stack) (sym (chars-append p.digits (value % 10 ∷ []))));
  all = AreDigits-append p.digits (value % 10) p.all (omega arith);
  number =
      decimal-append p.digits (value % 10) 0
      ∙ (ap (λ x. x * 10 + value % 10) p.number ∙ omega arith);
  short = let h = p.short in omega (arith, length-append p.digits (value % 10 ∷ []));
  some_digit = omega (arith, length-append p.digits (value % 10 ∷ []));
}

push_digits-Pushed :
    (n value : ℕ) (stack : List ℕ)
    → value < limit n
    → Returns (Pushed n value stack) (push_digits (suc n) value stack)
unfolding push_digits
push_digits-Pushed zero value stack small =
    let h : value / 10 ≡ 0 = omega arith in
    let last : (value / 10 == 0) ≡ true = ground arith in
    rw last (returns (Pushed-last zero value stack h))
push_digits-Pushed (suc n) value stack small = elim (Bool-cases (value / 10 == 0)) [
  | inl last ↦ rw last (returns (Pushed-last (suc n) value stack (ground arith)))
  | inr more ↦ rw more (
      mono (push_digits-Pushed n (value / 10) ((0x30 + value % 10) ∷ stack) (omega arith))
        λ stack' p. Pushed-more n value stack stack' p)
]

pop_digits-chars :
    (ds : List ℕ) → AreDigits ds → pop_digits (chars ds ++ (0 ∷ [])) ≡ chars ds ++ (0 ∷ [])
unfolding pop_digits
pop_digits-chars [] all = refl
pop_digits-chars (d ∷ ds) all =
    let live : (0x30 + d == 0) ≡ false = ground arith in
    rw live (ap (λ l. (0x30 + d) ∷ l) (pop_digits-chars ds all.1))

Digits-chars :
    (string : ℕ → ℕ) (i : ℕ) (ds : List ℕ)
    → AreDigits ds
    → ((j : ℕ) → string (i + j) ≡ text (chars ds ++ (0 ∷ [])) j)
    → Digits string i ds 0
Digits-chars string i [] all same = let e : i + 0 ≡ i = omega arith in rw e at (same 0)
Digits-chars string i (d ∷ ds) all same = (
  all.0,
  let e : i + 0 ≡ i = omega arith in let at = rw e at (same 0) in at ∙ omega arith,
  Digits-chars string (i + 1) ds all.1
      λ j. let e : i + suc j ≡ i + 1 + j = omega arith in rw e at (same (suc j)),
)

-- What print_int writes for a number: its decimal digits, and NUL.
pub record Printed (value : ℕ) (out : List ℕ) : Type 0 where
  pub digits : List ℕ
  pub written : out ≡ chars digits ++ (0 ∷ [])
  pub all : AreDigits digits
  pub some_digit : 0 < length digits
  pub short : length digits ≤ 10
  pub number : decimal digits 0 ≡ value
  pub read_back : value < 2 ^ 31 → ascii_to_int 11 (text out) ≡ some value

-- For every 32-bit word, print_int returns, and writes at least one and at most ten decimal digits,
-- which stand for the word, then one NUL, and nothing else; if the word is below 2 ^ 31,
-- ascii_to_int reads it again.
pub print_int-ascii_to_int :
    (value : ℕ) → value < 2 ^ 32 → Returns (Printed value) (print_int value)
unfolding print_int
print_int-ascii_to_int value small =
    bind (push_digits-Pushed 9 value (0 ∷ []) (omega arith)) λ stack p. returns (
      rw (p.on_top, pop_digits-chars p.digits p.all)
        (record {
          digits = p.digits;
          written = refl;
          all = p.all;
          some_digit = p.some_digit;
          short = p.short;
          number = p.number;
          read_back = λ low. read p.digits p.all p.number p.short p.some_digit;
        }))
  where
    read :
        (ds : List ℕ)
        → AreDigits ds
        → decimal ds 0 ≡ value
        → length ds ≤ 10
        → 0 < length ds
        → ascii_to_int 11 (text (chars ds ++ (0 ∷ []))) ≡ some value
    read [] all number short nonempty = absurd (omega arith)
    read (d ∷ ds) all number short nonempty =
        ascii_to_int_word 11 d (text (chars (d ∷ ds) ++ (0 ∷ []))) ds
          (Digits-chars (text (chars (d ∷ ds) ++ (0 ∷ []))) 0 (d ∷ ds) all
            (λ j. let e' : 0 + j ≡ j = omega arith in rw e' refl))
          (rw number small) (omega arith)
        ∙ ap some number
