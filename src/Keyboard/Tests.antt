-- ===== src/Keyboard/Tests.antt =====
-- The keyboard with the command %W registered, and lines that are typed there.
use ece_354_real_time_operat.Base.{
  ℕ, ◌≡◌, refl, Option, none, some, List, [], ◌∷◌, arith, ◌==◌, if◌then◌else◌, Returns,
}
use ece_354_real_time_operat.Strings.{copy_from, str_copy}
use ece_354_real_time_operat.Keyboard.{
  nul, percent, Kcd, RegCmd, Call, shown, sent, reset_from, reset_kcd_buffer, find_command,
  send_command, enter, collect, key, kcd_round, kcd_rounds,
}
use ece_354_real_time_operat.Keyboard.Commands.{AllText, Found, find_command-Found}
use ece_354_real_time_operat.Keyboard.Buffers.{IsBuffered}
use ece_354_real_time_operat.Keyboard.Rounds.{kcd_round-IsBuffered}
use ece_354_real_time_operat.Keyboard.Lines.{
  typed, line_of, text_of, written, Entered, kcd_rounds-Entered,
}

-- "%W"
abbrev wallclock_cmd : RegCmd
wallclock_cmd = record { pid = 60; cmd = λ i. if i == 0 then 0x25 else if i == 1 then 0x57 else 0 }

abbrev no_text : ℕ → ℕ
no_text i = nul

abbrev pub keyboard : Kcd
keyboard = record { buffer = no_text; kbuf_size = 0; cmds = wallclock_cmd ∷ [] }

keyboard-AllText : AllText (wallclock_cmd ∷ [])
keyboard-AllText = ((2, omega arith, omega arith, refl, λ i h h'. ground arith), omega arith)

pub keyboard-IsBuffered : IsBuffered no_text keyboard
keyboard-IsBuffered = record {
  within = omega arith;
  rest = λ i h h'. refl;
  behind = λ i h. refl;
  stop = refl;
  texts = keyboard-AllText;
}

find_command-Found_example :
    Returns
      (Found wallclock_cmd.cmd (wallclock_cmd ∷ []))
      (find_command 65 1 wallclock_cmd.cmd (wallclock_cmd ∷ []))
find_command-Found_example =
    find_command-Found wallclock_cmd.cmd (wallclock_cmd ∷ []) 65 keyboard-AllText (omega arith)

kcd_round-IsBuffered_example :
    Returns (λ (calls, k'). IsBuffered no_text k') (kcd_round 65 (typed percent) keyboard)
kcd_round-IsBuffered_example =
    kcd_round-IsBuffered 65 (typed percent) keyboard-IsBuffered (λ e. cc) (omega arith)
      (omega arith)

-- "%W" and return.
kcd_rounds-Entered_example :
    Returns
      (λ (calls, k').
        (rest : List Call) × (calls ≡ shown (text_of percent) ∷ rest)
        × Entered keyboard
            (written 0 (percent ∷ 0x57 ∷ []) (reset_kcd_buffer no_text))
            (0x57 ∷ [])
            (rest, k'))
      (kcd_rounds 65 (typed percent ∷ line_of (0x57 ∷ [])) keyboard)
kcd_rounds-Entered_example =
    kcd_rounds-Entered 65 (0x57 ∷ []) keyboard keyboard-IsBuffered (omega arith)
      (refl, refl, omega arith) (omega arith) (omega arith)

-- The process that the last call of a line goes to; 0 if the line is sent to none.
abbrev sent_to : List Call → ℕ
sent_to [] = 0
sent_to (sent pid text ∷ calls) = pid
sent_to (c ∷ calls) = sent_to calls

unfoldable receiver_of : Option (List Call × Kcd) → ℕ
receiver_of none = 99
receiver_of (some r) = sent_to r.0

-- %W goes to the wall clock, %X to none.
typed_test :
    (receiver_of (kcd_rounds 65 (typed percent ∷ line_of (0x57 ∷ [])) keyboard) ≡ 60)
    × (receiver_of (kcd_rounds 65 (typed percent ∷ line_of (0x58 ∷ [])) keyboard) ≡ 0)
unfolding kcd_rounds kcd_round receiver_of key enter collect find_command reset_from send_command
    str_copy copy_from
typed_test = (refl, refl)
