-- ===== src/Keyboard/Rounds.antt =====
-- A round of kcd: it returns, never writes behind its buffer, and knows only whole commands.
use ece_354_real_time_operat.Base.{
  ℕ, zero, suc, ◌≤◌, ◌<◌, ◌≡◌, refl, ◌∙◌, inl, inr, true, Option, none, some, List, [], ◌∷◌, ◌++◌,
  arith, ◌==◌, ltb, if◌then◌else◌, Bool-cases, Returns, returns, bind, mono,
}
use ece_354_real_time_operat.Strings.Copies.{IsEnd, str_copy_lem}
use ece_354_real_time_operat.Keyboard.{
  nul, percent, return, kcd_buffer_size, RegCmd, Kcd, register_command, reset_kcd_buffer, Message,
  Call, sent, type_register_cmd, is_clr, send_command, enter, key, kcd_round,
}
use ece_354_real_time_operat.Keyboard.Commands.{
  IsText, AllText, rounds_for, Found, find_command-Found,
}
use ece_354_real_time_operat.Keyboard.Buffers.{
  IsBuffered, collect-IsBuffered, reset-IsBuffered, start-IsBuffered, IsBuffered-IsEnd,
}

-- What send_command sends: the whole line, to the process of the command.
pub data Commanded (buffer : ℕ → ℕ) : Option RegCmd → List Call → Type 0 where
  not_known : Commanded buffer none []
  commanded :
      {c : RegCmd} {text : ℕ → ℕ} (m : ℕ)
      → IsEnd buffer m
      → ((j : ℕ) → text j ≡ (if ltb j m then buffer j else nul))
      → Commanded buffer (some c) (sent c.pid text ∷ [])

send_command-Commanded :
    (fuel m : ℕ) (buffer : ℕ → ℕ) (r : Option RegCmd)
    → IsEnd buffer m
    → m < fuel
    → Returns (Commanded buffer r) (send_command fuel buffer r)
unfolding send_command
send_command-Commanded fuel m buffer none v enough = returns not_known
send_command-Commanded fuel m buffer (some c) v enough =
    bind (str_copy_lem fuel m buffer (λ i. nul) v enough) λ text same. returns (commanded m v same)

-- What the return key gives, in a line that begins with %.
pub enter-Commanded :
    {after : ℕ → ℕ} (fuel : ℕ) (k : Kcd)
    → IsBuffered after k
    → (k.buffer 0 == percent) ≡ true
    → kcd_buffer_size < fuel
    → rounds_for k.cmds ≤ fuel
    → Returns
        (λ (calls, k').
          ((r : Option RegCmd) × Found k.buffer k.cmds r × Commanded k.buffer r calls)
          × (k' ≡ record k { buffer = reset_kcd_buffer k.buffer; kbuf_size = 0 }))
        (enter fuel k)
unfolding enter
enter-Commanded fuel k v line enough enough' =
    let (m, low, ends) = IsBuffered-IsEnd v in
    rw line (
      bind (find_command-Found k.buffer k.cmds fuel v.texts enough') λ r found.
        bind (send_command-Commanded fuel m k.buffer r ends (omega arith))
          λ calls c. returns ((r, found, c), refl))

AllText-end : (cs : List RegCmd) (c : RegCmd) → AllText cs → IsText c.cmd → AllText (cs ++ (c ∷ []))
AllText-end [] c texts text = (text, omega arith)
AllText-end (x ∷ xs) c (first, texts) text = (first, AllText-end xs c texts text)

not_empty : (n : ℕ) (cmd_str : ℕ → ℕ) → IsEnd cmd_str n → (cmd_str 0 == percent) ≡ true → 1 ≤ n
not_empty zero cmd_str ends whole = absurd (let e = ends.nul in ground arith)
not_empty (suc n) cmd_str ends whole = omega arith

register_command-IsBuffered :
    {after : ℕ → ℕ} {k : Kcd} (fuel n : ℕ) (cmd_str : ℕ → ℕ) (pid : ℕ)
    → IsBuffered after k
    → IsEnd cmd_str n
    → n < kcd_buffer_size
    → n < fuel
    → Returns (IsBuffered after) (register_command fuel cmd_str pid k)
unfolding register_command
register_command-IsBuffered {k = k} fuel n cmd_str pid v ends low enough =
    elim (Bool-cases (cmd_str 0 == percent)) [
      | inl whole ↦ rw whole (
          bind (str_copy_lem fuel n cmd_str (λ i. nul) ends enough) λ cmd same.
            let first : 1 ≤ n = not_empty n cmd_str ends whole in
            returns (record {
              within = v.within;
              rest = v.rest;
              behind = v.behind;
              stop = v.stop;
              texts =
                  AllText-end k.cmds (record { pid = pid; cmd = cmd }) v.texts
                    (
                      n,
                      first,
                      low,
                      same n ∙ ground arith,
                      λ i h h'. let e = same i in let e' = ends.before i h' in ground arith,
                    );
            }))
      | inr other ↦ rw other (returns v)
    ]

-- The messages that kcd expects: a command to register is a text that fits into a message.
abbrev pub IsKeyMessage : ℕ → Message → Type 0
IsKeyMessage fuel m =
    (m.type == type_register_cmd) ≡ true
    → (n : ℕ) × (n < kcd_buffer_size) × (n < fuel) × IsEnd m.text n

enter-IsBuffered :
    {after : ℕ → ℕ} {k : Kcd} (fuel : ℕ)
    → IsBuffered after k
    → kcd_buffer_size < fuel
    → rounds_for k.cmds ≤ fuel
    → Returns (λ (calls, k'). IsBuffered after k') (enter fuel k)
unfolding enter
enter-IsBuffered {k = k} fuel v enough enough' = elim (Bool-cases (k.buffer 0 == percent)) [
  | inl line ↦
      mono (enter-Commanded fuel k v line enough enough')
        λ (calls, k') (c, e). rw e (reset-IsBuffered v)
  | inr none_there ↦ rw none_there (returns v)
]

key-IsBuffered :
    {after : ℕ → ℕ} {k : Kcd} (fuel c : ℕ)
    → IsBuffered after k
    → kcd_buffer_size < fuel
    → rounds_for k.cmds ≤ fuel
    → Returns (λ (calls, k'). IsBuffered after k') (key fuel c k)
unfolding key
key-IsBuffered {after} {k} fuel c v enough enough' = elim (Bool-cases (c == percent)) [
  | inl start ↦ rw start (returns (start-IsBuffered c v))
  | inr other ↦ elim (Bool-cases (c == return)) [
    | inl end ↦ rw (other, end) (enter-IsBuffered fuel v enough enough')
    | inr letter ↦ rw (other, letter) (returns (collect-IsBuffered c v))
  ]
]

-- Where the buffer is well formed, the fuel is more than 64 and enough for the commands, and a
-- command to register fits into a message, a round of kcd returns and leaves the buffer well
-- formed: at most 64 characters with NUL behind them, nothing changed behind the buffer, and every
-- command a text that ends.
pub kcd_round-IsBuffered :
    {after : ℕ → ℕ} {k : Kcd} (fuel : ℕ) (m : Message)
    → IsBuffered after k
    → IsKeyMessage fuel m
    → kcd_buffer_size < fuel
    → rounds_for k.cmds ≤ fuel
    → Returns (λ (calls, k'). IsBuffered after k') (kcd_round fuel m k)
unfolding kcd_round
kcd_round-IsBuffered {k = k} fuel m v text enough enough' =
    elim (Bool-cases (m.type == type_register_cmd)) [
      | inl register ↦
          let (n, low, below, ends) = text register in
          rw register (
            bind (register_command-IsBuffered fuel n m.text m.tx v ends low below)
              λ k' v'. returns v')
      | inr other ↦ elim (Bool-cases (is_clr m.text)) [
        | inl clr ↦ rw (other, clr) (returns v)
        | inr char ↦
            rw (other, char)
              (bind (key-IsBuffered fuel (m.text 0) v enough enough') λ r v'. returns v')
      ]
    ]
