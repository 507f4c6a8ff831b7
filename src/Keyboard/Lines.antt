-- ===== src/Keyboard/Lines.antt =====
-- A whole typed line, from the % to the return key.
use ece_354_real_time_operat.Base.{
  ℕ, ◌+◌, ◌≤◌, ◌<◌, ◌≡◌, refl, ap, ◌∙◌, true, false, Option, some, List, [], ◌∷◌, append-nil, arith,
  ◌==◌, leb, update, Returns, returns, bind,
}
use ece_354_real_time_operat.Chain.{length}
use ece_354_real_time_operat.Keyboard.{
  nul, percent, return, kcd_buffer_size, RegCmd, Kcd, reset_kcd_buffer, Message, Call, shown,
  collect, key, kcd_round, kcd_rounds,
}
use ece_354_real_time_operat.Keyboard.Commands.{rounds_for, Found}
use ece_354_real_time_operat.Keyboard.Buffers.{IsBuffered, collect-IsBuffered, start-IsBuffered}
use ece_354_real_time_operat.Keyboard.Rounds.{Commanded, enter-Commanded}

-- The message that a typed character comes in.
abbrev pub text_of : ℕ → ℕ → ℕ
text_of c = update (λ i. nul) 0 c

abbrev pub typed : ℕ → Message
typed c = record { type = 0; tx = 12; text = text_of c }

-- The characters of a line and the return key; what the display gets for them, and then `rest`.
abbrev pub line_of : List ℕ → List Message
line_of [] = typed return ∷ []
line_of (c ∷ cs) = typed c ∷ line_of cs

abbrev pub displayed : List ℕ → List Call → List Call
displayed [] rest = shown (update (text_of return) 1 0x0A) ∷ rest
displayed (c ∷ cs) rest = shown (text_of c) ∷ displayed cs rest

-- The characters in the buffer, from the place `i` on.
abbrev pub written : ℕ → List ℕ → (ℕ → ℕ) → ℕ → ℕ
written i [] buffer = buffer
written i (c ∷ cs) buffer = written (i + 1) cs (update buffer i c)

-- No character of the line starts or ends one.
abbrev pub IsPlain : List ℕ → Type 0
IsPlain [] = 0 ≤ 0
IsPlain (c ∷ cs) = ((c == percent) ≡ false) × ((c == return) ≡ false) × IsPlain cs

-- What the line comes to, with `buffer` as the buffer when the return key is read.
abbrev pub Entered : Kcd → (ℕ → ℕ) → List ℕ → List Call × Kcd → Type 0
Entered k buffer cs (calls, k') =
    (r : Option RegCmd) × (commands : List Call) × Found buffer k.cmds r
    × Commanded buffer r commands
    × (calls ≡ displayed cs commands)
    × (k' ≡ record k { buffer = reset_kcd_buffer buffer; kbuf_size = 0 })

collect_step :
    (fuel c : ℕ) (k : Kcd)
    → (c == percent) ≡ false
    → (c == return) ≡ false
    → kcd_round fuel (typed c) k ≡ some (shown (text_of c) ∷ [], collect c k)
unfolding kcd_round key
collect_step fuel c k e e' = rw (e, e') refl

collected :
    (c : ℕ) (k : Kcd)
    → k.kbuf_size < kcd_buffer_size
    → (k.buffer 0 == percent) ≡ true
    → collect c k ≡ record k { buffer = update k.buffer k.kbuf_size c; kbuf_size = k.kbuf_size + 1 }
unfolding collect
collected c k room line =
    let free : leb kcd_buffer_size k.kbuf_size ≡ false = ground arith in rw (free, line) refl

return_round :
    (fuel : ℕ) (k : Kcd) {after : ℕ → ℕ}
    → IsBuffered after k
    → (k.buffer 0 == percent) ≡ true
    → kcd_buffer_size < fuel
    → rounds_for k.cmds ≤ fuel
    → Returns (Entered k k.buffer []) (kcd_round fuel (typed return) k)
unfolding kcd_round key
return_round fuel k v line enough enough' =
    bind (enter-Commanded fuel k v line enough enough')
      λ (calls, k') ((r, found, c), e). returns (r, calls, found, c, refl, e)

rest_of_line :
    (fuel : ℕ) (cs : List ℕ) (k : Kcd) {after : ℕ → ℕ}
    → IsBuffered after k
    → (k.buffer 0 == percent) ≡ true
    → 1 ≤ k.kbuf_size
    → k.kbuf_size + length cs ≤ kcd_buffer_size
    → IsPlain cs
    → kcd_buffer_size < fuel
    → rounds_for k.cmds ≤ fuel
    → Returns (Entered k (written k.kbuf_size cs k.buffer) cs) (kcd_rounds fuel (line_of cs) k)
unfolding kcd_rounds
rest_of_line fuel [] k v line first room plain enough enough' =
    bind (return_round fuel k v line enough enough') λ (calls, k') (r, commands, found, c, e, e').
      returns (r, commands, found, c, append-nil calls ∙ e, e')
rest_of_line fuel (c ∷ cs) k {after} v line first room (e, e', plain) enough enough' =
    rw (collect_step fuel c k e e', collected c k (omega arith) line)
      (bind
        (rest_of_line fuel cs
          (record k { buffer = update k.buffer k.kbuf_size c; kbuf_size = k.kbuf_size + 1 })
          (rw (collected c k (omega arith) line) at
            (collect-IsBuffered {after = after} {k = k} c v))
          (ground arith) (omega arith) (omega arith) plain enough enough')
        λ (calls, k') (r, commands, found, d, same, same').
          returns (r, commands, found, d, ap (λ z. shown (text_of c) ∷ z) same, same'))

-- Where the buffer is well formed, the 64 places behind its start and the commands are within the
-- fuel, and the line has less than 64 characters, none of them % or return: the rounds of kcd for
-- %, the line and the return key send each character on to the display, and then the whole line to
-- the first process that has registered the command at its start, or to none if no process has; the
-- buffer is empty after it.
pub kcd_rounds-Entered :
    (fuel : ℕ) (cs : List ℕ) (k : Kcd) {after : ℕ → ℕ}
    → IsBuffered after k
    → length cs < kcd_buffer_size
    → IsPlain cs
    → kcd_buffer_size < fuel
    → rounds_for k.cmds ≤ fuel
    → Returns
        (λ (calls, k').
          (rest : List Call) × (calls ≡ shown (text_of percent) ∷ rest)
          × Entered k (written 0 (percent ∷ cs) (reset_kcd_buffer k.buffer)) cs (rest, k'))
        (kcd_rounds fuel (typed percent ∷ line_of cs) k)
unfolding kcd_rounds kcd_round key
kcd_rounds-Entered fuel cs k v short plain enough enough' =
    bind
      (rest_of_line fuel cs
        (record k { buffer = update (reset_kcd_buffer k.buffer) 0 percent; kbuf_size = 1 })
        (start-IsBuffered percent v) (ground arith) (omega arith) (omega arith) plain enough
        enough')
      λ (calls, k') r. returns (calls, refl, r)
