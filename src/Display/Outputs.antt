-- ===== src/Display/Outputs.antt =====
-- What appears on the display.
use ece_354_real_time_operat.Base.{
  ℕ, zero, suc, ◌+◌, ◌<◌, ◌≡◌, refl, ap, ◌≢◌, some, List, [], ◌∷◌, arith, ◌==◌, false, Returns,
  returns, bind, Returns-some,
}
use ece_354_real_time_operat.Chain.{length}
use ece_354_real_time_operat.Display.{crt_from, uart_rounds, written_out}

-- From the place `i` on, the text has the characters `cs` and then NUL.
abbrev pub Spells : (ℕ → ℕ) → ℕ → List ℕ → Type 0
Spells msg i [] = msg i ≡ 0
Spells msg i (c ∷ cs) = (msg i ≡ c) × (c ≢ 0) × Spells msg (i + 1) cs

crt_from-Spells :
    (fuel i : ℕ) (msg : ℕ → ℕ) (cs : List ℕ)
    → Spells msg i cs
    → length cs < fuel
    → Returns (λ ms. uart_rounds ms ≡ cs) (crt_from fuel i msg)
unfolding crt_from uart_rounds
crt_from-Spells zero i msg cs v enough = absurd (omega arith)
crt_from-Spells (suc fuel) i msg [] v enough = rw v (returns refl)
crt_from-Spells (suc fuel) i msg (c ∷ cs) (at, live, more) enough =
    let go_on : (c == 0) ≡ false = ground arith in
    rw (at, go_on)
      (bind (crt_from-Spells fuel (i + 1) msg cs more (omega arith))
        λ ms same. returns (ap (λ xs. c ∷ xs) same))

-- With more rounds of fuel than there are characters, the port gets the characters of a text before
-- its NUL, in order, and nothing else.
pub written_out-Spells :
    (fuel : ℕ) (msg : ℕ → ℕ) (cs : List ℕ)
    → Spells msg 0 cs
    → length cs < fuel
    → written_out fuel msg ≡ some cs
unfolding written_out
written_out-Spells fuel msg cs v enough =
    let (ms, e, same) = Returns-some (crt_from-Spells fuel 0 msg cs v enough) in rw e (ap some same)
