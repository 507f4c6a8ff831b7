-- ===== src/Display/Tests.antt =====
-- What kcd sends to the display for the return key.
use ece_354_real_time_operat.Base.{◌≡◌, refl, some, [], ◌∷◌, arith, update, Returns}
use ece_354_real_time_operat.Keyboard.{percent, return, kcd_rounds}
use ece_354_real_time_operat.Keyboard.Lines.{text_of, typed, line_of}
use ece_354_real_time_operat.Keyboard.Tests.{keyboard, keyboard-IsBuffered}
use ece_354_real_time_operat.Display.Echoes.{echo, kcd_rounds-echo}
use ece_354_real_time_operat.Display.{written_out}
use ece_354_real_time_operat.Display.Outputs.{written_out-Spells}

written_out_test : written_out 64 (update (text_of return) 1 0x0A) ≡ some (0x0D ∷ 0x0A ∷ [])
written_out_test =
    written_out-Spells 64 (update (text_of return) 1 0x0A) (0x0D ∷ 0x0A ∷ [])
      (refl, ground arith, (refl, ground arith, refl)) (omega arith)

-- "%W" and return.
kcd_rounds-echo_example :
    Returns
      (λ (calls, k'). echo 64 calls ≡ some (percent ∷ 0x57 ∷ 0x0D ∷ 0x0A ∷ []))
      (kcd_rounds 65 (typed percent ∷ line_of (0x57 ∷ [])) keyboard)
kcd_rounds-echo_example =
    kcd_rounds-echo 65 64 (0x57 ∷ []) keyboard keyboard-IsBuffered (omega arith)
      (refl, refl, omega arith) (ground arith, omega arith) (omega arith) (omega arith)
      (omega arith)
