-- ===== src/Console/Typed.antt =====
-- The line %WS with a time as the clock shows it (wallclock/wallclock.c), and that KCD keeps all its
-- characters.
use ece_354_real_time_operat.Base.{
  ℕ, zero, suc, ◌+◌, ◌≤◌, ◌<◌, ◌≡◌, refl, true, List, [], ◌∷◌, arith,
}
use ece_354_real_time_operat.Strings.Texts.{all_live}
use ece_354_real_time_operat.Keyboard.{percent}
use ece_354_real_time_operat.Keyboard.Lines.{IsPlain}
use ece_354_real_time_operat.WallClock.{Text, convert_to_ascii}

-- The characters from the place `i` on.
abbrev pub places : ℕ → ℕ → Text → List ℕ
places zero i out = []
places (suc n) i out = out i ∷ places n (i + 1) out

-- "WS ", and the time as the clock shows it, which is in `out`.
abbrev pub ws_line : Text → List ℕ
ws_line out = 0x57 ∷ 0x53 ∷ 0x20 ∷ places 8 0 out

-- What convert_to_ascii writes are digits and colons.
pub ascii_high :
    (h m s : ℕ) (out0 : Text)
    → h < 24
    → m < 60
    → s < 60
    → (i : ℕ) → i < 8
    → 0x30 ≤ convert_to_ascii h m s out0 i
unfolding convert_to_ascii
ascii_high h m s out0 small small' small'' i low = ground arith

IsPlain-cons : (c : ℕ) (cs : List ℕ) → 0x30 ≤ c → IsPlain cs → IsPlain (c ∷ cs)
IsPlain-cons c cs h plain = (ground arith, ground arith, plain)

pub ws_line-IsPlain : (out : Text) → ((i : ℕ) → i < 8 → 0x30 ≤ out i) → IsPlain (ws_line out)
ws_line-IsPlain out high = (refl, refl, (refl, refl, (refl, refl, taken 8 0 (omega arith))))
  where
    taken : (n i : ℕ) → i + n ≤ 8 → IsPlain (places n i out)
    taken zero i h = omega arith
    taken (suc n) i h =
        IsPlain-cons (out i) (places n (i + 1) out) (high i (omega arith))
          (taken n (i + 1) (omega arith))

pub ws_line-live :
    (out : Text) → ((i : ℕ) → i < 8 → 0x30 ≤ out i) → all_live (percent ∷ ws_line out) ≡ true
ws_line-live out high =
    let h0 = high 0 (omega arith) in
    let h1 = high 1 (omega arith) in
    let h2 = high 2 (omega arith) in
    let h3 = high 3 (omega arith) in
    let h4 = high 4 (omega arith) in
    let h5 = high 5 (omega arith) in
    let h6 = high 6 (omega arith) in let h7 = high 7 (omega arith) in ground arith
