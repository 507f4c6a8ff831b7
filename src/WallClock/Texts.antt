-- ===== src/WallClock/Texts.antt =====
-- The time as a text: what the clock prints is what %WS reads.
use ece_354_real_time_operat.Base.{
  ℕ, ◌+◌, ◌-◌, ◌*◌, ◌/◌, ◌%◌, ◌<◌, ◌≡◌, refl, true, false, some, arith, ltb, ◌||◌,
}
use ece_354_real_time_operat.WallClock.{
  Text, Clock, is_digit, error_check, two_digits, convert_to_dec, convert_to_ascii,
}

tens : ℕ → ℕ
tens n = (n / 10 + 0x30) % 256

ones : ℕ → ℕ
ones n = (n % 10 + 0x30) % 256

digits : (n : ℕ) → n < 100 → (is_digit (tens n) ≡ true) × (is_digit (ones n) ≡ true)
unfolding tens ones is_digit
digits n small = (ground arith, ground arith)

digits_value : (n : ℕ) → n < 100 → (tens n - 0x30) * 10 + (ones n - 0x30) ≡ n
unfolding tens ones
digits_value n small = omega arith

-- A text of %WS that gives the time that convert_to_ascii has written to `out`.
pub record IsCommand (msg : Text) (out : Text) : Type 0 where
  pub space : msg 3 ≡ 32
  pub copied : (i : ℕ) → i < 8 → msg (i + 4) ≡ out i
  pub ended : msg 12 ≡ 0

-- The codes at the places of the digits.
record Codes (msg : Text) (h m s : ℕ) : Type 0 where
  h0 : msg 4 ≡ tens h
  h1 : msg 5 ≡ ones h
  colon0 : msg 6 ≡ 58
  m0 : msg 7 ≡ tens m
  m1 : msg 8 ≡ ones m
  colon1 : msg 9 ≡ 58
  s0 : msg 10 ≡ tens s
  s1 : msg 11 ≡ ones s

command-Codes :
    (msg out : Text) (h m s : ℕ) → IsCommand msg (convert_to_ascii h m s out) → Codes msg h m s
unfolding convert_to_ascii tens ones
command-Codes msg out h m s v = record {
  h0 = v.copied 0 (omega arith);
  h1 = v.copied 1 (omega arith);
  colon0 = v.copied 2 (omega arith);
  m0 = v.copied 3 (omega arith);
  m1 = v.copied 4 (omega arith);
  colon1 = v.copied 5 (omega arith);
  s0 = v.copied 6 (omega arith);
  s1 = v.copied 7 (omega arith);
}

-- A time of day that convert_to_ascii prints, put into a %WS command, passes error_check, and
-- convert_to_dec sets the clock to it.
pub convert_to_dec-convert_to_ascii :
    (h m s : ℕ) (out msg : Text) (c : Clock)
    → h < 24
    → m < 60
    → s < 60
    → IsCommand msg (convert_to_ascii h m s out)
    → (error_check msg ≡ true)
      × (convert_to_dec msg c ≡ some (record c { hour = h; min = m; sec = s }))
unfolding error_check convert_to_dec two_digits
convert_to_dec-convert_to_ascii h m s out msg c small small' small'' v =
    let k = command-Codes msg out h m s v in
    let (dh, dh') = digits h (omega arith) in
    let (dm, dm') = digits m (omega arith) in
    let (ds, ds') = digits s (omega arith) in
    let hours : ltb 23 h ≡ false = ground arith in
    let rest : (ltb 59 m || ltb 59 s) ≡ false = ground arith in
    (
      rw
          (
            v.space, v.ended, k.h0, k.h1, k.colon0, k.m0, k.m1, k.colon1, k.s0, k.s1, dh, dh', dm,
            dm', ds, ds',
          )
          (ground arith),
      rw
          (
            k.h0,
            k.h1,
            k.m0,
            k.m1,
            k.s0,
            k.s1,
            digits_value h (omega arith),
            digits_value m (omega arith),
            digits_value s (omega arith),
            hours,
            rest,
          )
          refl,
    )
