-- ===== src/Keyboard/Commands.antt =====
-- The search for a command: what it finds, and that it ends.
use ece_354_real_time_operat.Base.{
  ℕ, zero, suc, ◌+◌, ◌-◌, ◌≤◌, ◌<◌, ◌≡◌, sym, ◌≢◌, inl, inr, true, false, ◌&&◌, Option, none, some,
  List, [], ◌∷◌, arith, ◌==◌, ltb, Bool-cases, Returns, returns, mono,
}
use ece_354_real_time_operat.Keyboard.{nul, kcd_buffer_size, RegCmd, is_end, find_command}

-- The buffer holds the command `cmd`: their characters behind the % are the same up to the end of
-- `cmd`, where a blank or NUL ends the name in the buffer.
pub record Accepts (buffer cmd : ℕ → ℕ) : Type 0 where
  pub size : ℕ
  pub named : 1 ≤ size
  pub ended : (cmd size ≡ nul) × (is_end (buffer size) ≡ true)
  pub same : (i : ℕ) → 1 ≤ i → i < size → buffer i ≡ cmd i

-- A command that register_command has stored ends in NUL.
abbrev pub IsText : (ℕ → ℕ) → Type 0
IsText cmd =
    (n : ℕ) × (1 ≤ n)
    × (n < kcd_buffer_size)
    × (cmd n ≡ nul)
    × ((i : ℕ) → 1 ≤ i → i < n → cmd i ≢ nul)

abbrev pub AllText : List RegCmd → Type 0
AllText [] = 0 ≤ 0
AllText (c ∷ cs) = IsText c.cmd × AllText cs

abbrev pub rounds_for : List RegCmd → ℕ
rounds_for [] = 1
rounds_for (c ∷ cs) = kcd_buffer_size + rounds_for cs

-- What the search gives: the first command that the buffer holds, or no command.
pub data Found (buffer : ℕ → ℕ) : List RegCmd → Option RegCmd → Type 0 where
  not_found : Found buffer [] none
  here : {c : RegCmd} {cs : List RegCmd} → Accepts buffer c.cmd → Found buffer (c ∷ cs) (some c)
  later :
      {c : RegCmd} {cs : List RegCmd} {r : Option RegCmd}
      → ¬ Accepts buffer c.cmd
      → Found buffer cs r
      → Found buffer (c ∷ cs) r

-- A character that differs before the end of the command.
differs :
    (buffer cmd : ℕ → ℕ) (n i : ℕ)
    → 1 ≤ i
    → i ≤ n
    → cmd n ≡ nul
    → ((j : ℕ) → 1 ≤ j → j < n → cmd j ≢ nul)
    → (is_end (buffer i) && cmd i == nul) ≡ false
    → (buffer i == cmd i) ≡ false
    → ¬ Accepts buffer cmd
differs buffer cmd n i first within ended full e miss v =
    let (nul_there, at_end) = v.ended in
    elim (Bool-cases (ltb v.size i)) [
      | inl before ↦ absurd (full v.size v.named (ground arith) nul_there)
      | inr past ↦ elim (Bool-cases (v.size == i)) [
        | inl at ↦
            let at' : v.size ≡ i = ground arith in
            let h : is_end (buffer i) ≡ true = rw at' at at_end in
            let h' : cmd i ≡ nul = rw at' at nul_there in
            let h'' : (cmd i == nul) ≡ true = ground arith in absurd (cc (sym (rw (h, h'') at e)))
        | inr after ↦ let h = v.same i first (ground arith) in absurd (ground arith)
      ]
    ]

-- A character in which they agree, without an end, is not the last of the command.
continues :
    (buffer cmd : ℕ → ℕ) (n i : ℕ)
    → i ≤ n
    → cmd n ≡ nul
    → (is_end (buffer i) && cmd i == nul) ≡ false
    → (buffer i == cmd i) ≡ true
    → i + 1 ≤ n
continues buffer cmd n i within ended e same = elim (Bool-cases (i == n)) [
  | inl at ↦
      let at' : n ≡ i = ground arith in
      let h : cmd i ≡ nul = rw at' at ended in
      let h' : buffer i ≡ nul = ground arith in absurd (let e' = rw (h, h') at e in cc)
  | inr before ↦ ground arith
]

agreed_next :
    (buffer cmd : ℕ → ℕ) (i : ℕ)
    → ((j : ℕ) → 1 ≤ j → j < i → buffer j ≡ cmd j)
    → (buffer i == cmd i) ≡ true
    → (j : ℕ) → 1 ≤ j
    → j < i + 1
    → buffer j ≡ cmd j
agreed_next buffer cmd i agreed same j h h' = elim (Bool-cases (i == j)) [
  | inl at ↦ let at' : j ≡ i = ground arith in rw at' (ground arith)
  | inr before ↦ agreed j h (ground arith)
]

-- In front of the character `i` of the first command, with which the buffer agrees so far.
find_from :
    (fuel i n : ℕ) (buffer : ℕ → ℕ) (c : RegCmd) (cs : List RegCmd)
    → 1 ≤ i
    → i ≤ n
    → n < kcd_buffer_size
    → c.cmd n ≡ nul
    → ((j : ℕ) → 1 ≤ j → j < n → c.cmd j ≢ nul)
    → ((j : ℕ) → 1 ≤ j → j < i → buffer j ≡ c.cmd j)
    → ((left : ℕ)
        → rounds_for cs ≤ left
        → Returns (Found buffer cs) (find_command left 1 buffer cs))
    → n - i + rounds_for cs < fuel
    → Returns (Found buffer (c ∷ cs)) (find_command fuel i buffer (c ∷ cs))
unfolding find_command
find_from zero i n buffer c cs first within low ended full agreed others enough =
    absurd (omega arith)
find_from (suc fuel) i n buffer c cs first within low ended full agreed others enough =
    elim (Bool-cases (is_end (buffer i) && c.cmd i == nul)) [
      | inl e ↦ rw e (
          returns (
            here (record {
              size = i;
              named = first;
              ended = (ground arith, ground arith);
              same = agreed;
            })))
      | inr e ↦ elim (Bool-cases (buffer i == c.cmd i)) [
        | inl same ↦
            let more = continues buffer c.cmd n i within ended e same in
            rw (e, same)
              (find_from fuel (i + 1) n buffer c cs (omega arith) more low ended full
                (agreed_next buffer c.cmd i agreed same) others (omega arith))
        | inr miss ↦
            rw (e, miss)
              (mono (others fuel (omega arith))
                λ r found. later (differs buffer c.cmd n i first within ended full e miss) found)
      ]
    ]

-- With 64 rounds of fuel for each command and one more, and if every command ends in NUL before its
-- 64th character, the search for a command ends: it finds the first command that the buffer holds,
-- followed by a blank or NUL, and finds none only if the buffer holds no command.
pub find_command-Found :
    (buffer : ℕ → ℕ) (cs : List RegCmd) (fuel : ℕ)
    → AllText cs
    → rounds_for cs ≤ fuel
    → Returns (Found buffer cs) (find_command fuel 1 buffer cs)
unfolding find_command
find_command-Found buffer [] zero texts enough = absurd (omega arith)
find_command-Found buffer [] (suc fuel) texts enough = returns not_found
find_command-Found buffer (c ∷ cs) fuel ((n, first, low, ended, full), texts) enough =
    find_from fuel 1 n buffer c cs (omega arith) first low ended full
      (λ j h h'. absurd (omega arith)) (λ left h. find_command-Found buffer cs left texts h)
      (omega arith)
