-- ===== src/Display/Echoes.antt =====
-- kcd and the display together: the typed characters appear.
use ece_354_real_time_operat.Base.{
  ℕ, ◌<◌, ◌≤◌, ◌≡◌, refl, ◌≢◌, Option, some, ◌>>=◌, List, [], ◌∷◌, ◌++◌, arith, update, Returns,
  mono,
}
use ece_354_real_time_operat.Chain.{length}
use ece_354_real_time_operat.Keyboard.{
  percent, return, kcd_buffer_size, RegCmd, Kcd, Call, released, shown, sent, kcd_rounds,
}
use ece_354_real_time_operat.Keyboard.Commands.{rounds_for}
use ece_354_real_time_operat.Keyboard.Buffers.{IsBuffered}
use ece_354_real_time_operat.Keyboard.Rounds.{Commanded, not_known, commanded}
use ece_354_real_time_operat.Keyboard.Lines.{
  text_of, typed, line_of, displayed, IsPlain, kcd_rounds-Entered,
}
use ece_354_real_time_operat.Display.{written_out}
use ece_354_real_time_operat.Display.Outputs.{written_out-Spells}

-- What the port gets for the messages that kcd sends on.
unfoldable pub echo : ℕ → List Call → Option (List ℕ)
echo fuel [] = some []
echo fuel (shown text ∷ calls) = do
  xs ← written_out fuel text
  ys ← echo fuel calls
  some (xs ++ ys)
echo fuel (released ∷ calls) = echo fuel calls
echo fuel (sent pid text ∷ calls) = echo fuel calls

abbrev pub IsLive : List ℕ → Type 0
IsLive [] = 0 ≤ 0
IsLive (c ∷ cs) = (c ≢ 0) × IsLive cs

echo_step :
    (fuel c : ℕ) (calls : List Call) (ys : List ℕ)
    → 1 < fuel
    → c ≢ 0
    → echo fuel calls ≡ some ys
    → echo fuel (shown (text_of c) ∷ calls) ≡ some (c ∷ ys)
unfolding echo
echo_step fuel c calls ys enough live rest =
    rw (written_out-Spells fuel (text_of c) (c ∷ []) (ground arith, live, refl) (omega arith), rest)
      refl

echo-Commanded :
    (fuel : ℕ) (buffer : ℕ → ℕ) (r : Option RegCmd) (calls : List Call)
    → Commanded buffer r calls
    → echo fuel calls ≡ some []
unfolding echo
echo-Commanded fuel buffer _ _ not_known = refl
echo-Commanded fuel buffer _ _ (commanded m ends same) = refl

echo-displayed :
    (fuel : ℕ) (cs : List ℕ) (calls : List Call)
    → 2 < fuel
    → IsLive cs
    → echo fuel calls ≡ some []
    → echo fuel (displayed cs calls) ≡ some (cs ++ (0x0D ∷ 0x0A ∷ []))
unfolding echo
echo-displayed fuel [] calls enough live rest =
    rw
      (
        written_out-Spells fuel (update (text_of return) 1 0x0A) (0x0D ∷ 0x0A ∷ [])
            (refl, ground arith, (refl, ground arith, refl)) enough,
        rest,
      )
      refl
echo-displayed fuel (c ∷ cs) calls enough (live, lives) rest =
    echo_step fuel c (displayed cs calls) (cs ++ (0x0D ∷ 0x0A ∷ [])) (omega arith) live
      (echo-displayed fuel cs calls enough lives rest)

-- Where the buffer of kcd is well formed, the 64 places behind its start and the commands are
-- within the fuel, and the line has less than 64 characters, none of them %, return or NUL: what
-- kcd sends on for %, the line and the return key, crt and uart write to the port as %, the line, a
-- carriage return and a newline, in order.
pub kcd_rounds-echo :
    (fuel fuel' : ℕ) (cs : List ℕ) (k : Kcd) {after : ℕ → ℕ}
    → IsBuffered after k
    → length cs < kcd_buffer_size
    → IsPlain cs
    → IsLive cs
    → kcd_buffer_size < fuel
    → rounds_for k.cmds ≤ fuel
    → 2 < fuel'
    → Returns
        (λ (calls, k'). echo fuel' calls ≡ some (percent ∷ cs ++ (0x0D ∷ 0x0A ∷ [])))
        (kcd_rounds fuel (typed percent ∷ line_of cs) k)
kcd_rounds-echo fuel fuel' cs k v short plain live enough enough' more =
    mono (kcd_rounds-Entered fuel cs k v short plain enough enough')
      λ (calls, k') (rest, e, (r, commands, found, c, same, same')).
        rw (e, same)
          (echo_step fuel' percent (displayed cs commands) (cs ++ (0x0D ∷ 0x0A ∷ [])) (omega arith)
            (ground arith)
            (echo-displayed fuel' cs commands more live (echo-Commanded fuel' _ r commands c)))
