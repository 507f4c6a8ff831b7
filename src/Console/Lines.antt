-- ===== src/Console/Lines.antt =====
-- A line that begins with %WS: what the buffer of KCD holds, whose command it is, and what is sent.
use ece_354_real_time_operat.Pids.{wallclock_pid}
use ece_354_real_time_operat.Base.{
  ℕ, zero, suc, ◌+◌, ◌-◌, ◌≤◌, ◌<◌, ◌≡◌, refl, sym, ap, subst, ◌∙◌, ◌≢◌, inl, inr, true, Option,
  some, List, [], ◌∷◌, ◌++◌, arith, ◌==◌, ltb, if◌then◌else◌, update, Bool-cases,
}
use ece_354_real_time_operat.Chain.{length}
use ece_354_real_time_operat.Strings.{text}
use ece_354_real_time_operat.Strings.Copies.{IsEnd}
use ece_354_real_time_operat.Strings.Texts.{all_live, text-IsEnd, text_behind}
use ece_354_real_time_operat.Keyboard.{
  nul, percent, is_end, kcd_buffer_size, reset_kcd_buffer, RegCmd, Message, Call, sent,
}
use ece_354_real_time_operat.Keyboard.Buffers.{reset_kcd_buffer_lem}
use ece_354_real_time_operat.Keyboard.Commands.{Accepts, Found, here, later}
use ece_354_real_time_operat.Keyboard.Lines.{written}
use ece_354_real_time_operat.Keyboard.Rounds.{Commanded, not_known, commanded}
use ece_354_real_time_operat.WallClock.{ws_chars}
use ece_354_real_time_operat.Console.{
  IsRegistration, of_z, of_ws, of_wt, of_c, AreRegistrations, registration,
}
use ece_354_real_time_operat.Console.Registrations.{clr_cmd, cmds_of}

-- The characters in the buffer, and what was there behind them.
written_below : (i j : ℕ) (cs : List ℕ) (buffer : ℕ → ℕ) → j < i → written i cs buffer j ≡ buffer j
written_below i j [] buffer h = refl
written_below i j (c ∷ cs) buffer h =
    written_below (i + 1) j cs (update buffer i c) (omega arith) ∙ ground arith

written_lem :
    (i j : ℕ) (cs : List ℕ) (buffer : ℕ → ℕ)
    → written i cs buffer (i + j) ≡ (if ltb j (length cs) then text cs j else buffer (i + j))
written_lem i j [] buffer = ground arith
written_lem i zero (c ∷ cs) buffer =
    let e : i + 0 ≡ i = omega arith in
    rw e (written_below (i + 1) i cs (update buffer i c) (omega arith) ∙ ground arith)
written_lem i (suc j) (c ∷ cs) buffer =
    let e : i + suc j ≡ i + 1 + j = omega arith in
    rw e (written_lem (i + 1) j cs (update buffer i c) ∙ ground arith)

-- The first character of the name is the same.
Accepts-first : {buffer cmd : ℕ → ℕ} → Accepts buffer cmd → cmd 1 ≢ nul → buffer 1 ≡ cmd 1
Accepts-first {cmd = cmd} a live = elim (Bool-cases (a.size == 1)) [
  | inl e ↦ let e' : a.size ≡ 1 = ground arith in absurd (live (ap cmd (sym e') ∙ a.ended.0))
  | inr e ↦ let h = a.named in a.same 1 (omega arith) (ground arith)
]

-- A line that begins with W is for the wall clock, if it is for one of the processes.
Accepts-w :
    (buffer : ℕ → ℕ) (m : Message)
    → buffer 1 ≡ 0x57
    → IsRegistration m
    → Accepts buffer m.text
    → m.tx ≡ wallclock_pid
Accepts-w buffer m e of_ws a = refl
Accepts-w buffer m e of_wt a = refl
Accepts-w buffer m e of_z a =
    let first = Accepts-first a (omega arith) in
    absurd (let h : 0x57 ≡ 0x5A = sym e ∙ first in omega arith)
Accepts-w buffer m e of_c a =
    let first = Accepts-first a (ground arith) in
    absurd (let h : 0x57 ≡ 0x43 = sym e ∙ first in omega arith)

-- %WS has been registered.
abbrev pub HasClock : List Message → Type 0
HasClock ms =
    (before : List Message) × (after : List Message) × (ms
      ≡ before ++ (registration wallclock_pid (text ws_chars) ∷ after))

ws_accepted :
    (buffer : ℕ → ℕ)
    → buffer 1 ≡ 0x57
    → buffer 2 ≡ 0x53
    → is_end (buffer 3) ≡ true
    → Accepts buffer (text ws_chars)
ws_accepted buffer w s end = record {
  size = 3;
  named = omega arith;
  ended = (refl, end);
  same = λ i h h'. elim (Bool-cases (i == 1)) [
    | inl e ↦ let e' : i ≡ 1 = ground arith in rw e' w
    | inr e ↦ let e' : i ≡ 2 = ground arith in rw e' s
  ];
}

Found-clock :
    (buffer : ℕ → ℕ) (ms : List Message) (r : Option RegCmd)
    → AreRegistrations ms
    → buffer 1 ≡ 0x57
    → buffer 2 ≡ 0x53
    → is_end (buffer 3) ≡ true
    → (before after : List Message)
    → ms ≡ before ++ (registration wallclock_pid (text ws_chars) ∷ after)
    → Found buffer (cmds_of ms) r
    → (c : RegCmd) × (r ≡ some c) × (c.pid ≡ wallclock_pid)
Found-clock buffer [] r all w s end [] after e found = absurd (cc)
Found-clock buffer [] r all w s end (b ∷ before) after e found = absurd (cc)
Found-clock buffer (m ∷ ms) r all w s end before after e (here {c} a) =
    (c, refl, Accepts-w buffer m w all.0 a)
Found-clock buffer (m ∷ ms) r all w s end [] after e (later unlike found) =
    let same : m ≡ registration wallclock_pid (text ws_chars) = cc in
    absurd (
      unlike
        (subst (λ (x : Message). Accepts buffer x.text) (sym same) (ws_accepted buffer w s end)))
Found-clock buffer (m ∷ ms) r all w s end (b ∷ before) after e (later unlike found) =
    Found-clock buffer ms r all.1 w s end before after (cc) found

-- %clr is not the command of the line.
not_clr : (buffer : ℕ → ℕ) → buffer 1 ≡ 0x57 → ¬ Accepts buffer clr_cmd.cmd
not_clr buffer w a =
    let first = Accepts-first a (omega arith) in
    absurd (let h : 0x57 ≡ 0x63 = sym w ∙ first in omega arith)

-- The line in the buffer, after the %.
pub line_buffer :
    (cs : List ℕ) (buffer : ℕ → ℕ) (j : ℕ)
    → length cs < kcd_buffer_size - 1
    → j < kcd_buffer_size
    → written 0 (percent ∷ cs) (reset_kcd_buffer buffer) j ≡ text (percent ∷ cs) j
line_buffer cs buffer j short low =
    let start : 0 + j ≡ j = omega arith in
    (rw start at (written_lem 0 j (percent ∷ cs) (reset_kcd_buffer buffer)))
    ∙ elim (Bool-cases (ltb j (suc (length cs)))) [
      | inl inside ↦ rw inside refl
      | inr behind ↦
          let clear = reset_kcd_buffer_lem j buffer in
          let low' : ltb j kcd_buffer_size ≡ true = ground arith in
          rw behind ((rw low' at clear) ∙ sym (text_behind (percent ∷ cs) j (ground arith)))
    ]

-- A text that is all of the buffer up to its first NUL.
pub sent_text :
    (cs : List ℕ) (buffer msg : ℕ → ℕ) (m j : ℕ)
    → all_live (percent ∷ cs) ≡ true
    → length cs < kcd_buffer_size - 1
    → ((i : ℕ) → i < kcd_buffer_size → buffer i ≡ text (percent ∷ cs) i)
    → IsEnd buffer m
    → ((i : ℕ) → msg i ≡ (if ltb i m then buffer i else nul))
    → msg j ≡ text (percent ∷ cs) j
sent_text cs buffer msg m j all short same end copied =
    let n = suc (length cs) in
    let v = text-IsEnd (percent ∷ cs) all in
    let reached : n ≤ m = elim (Bool-cases (ltb m n)) [
      | inl below ↦
          let at = same m (ground arith) in absurd (v.before m (ground arith) (sym at ∙ end.nul))
      | inr above ↦ ground arith
    ] in
    let stopped : m ≤ n = elim (Bool-cases (ltb n m)) [
      | inl beyond ↦ absurd (end.before n (ground arith) (same n (omega arith) ∙ v.nul))
      | inr within ↦ ground arith
    ] in
    copied j ∙ elim (Bool-cases (ltb j m)) [
      | inl inside ↦ rw inside (same j (ground arith))
      | inr behind ↦ rw behind (sym (text_behind (percent ∷ cs) j (ground arith)))
    ]

pub Found-any :
    (buffer : ℕ → ℕ) (ms : List Message) (r : Option RegCmd)
    → AreRegistrations ms
    → HasClock ms
    → buffer 1 ≡ 0x57
    → buffer 2 ≡ 0x53
    → is_end (buffer 3) ≡ true
    → Found buffer (clr_cmd ∷ cmds_of ms) r
    → (c : RegCmd) × (r ≡ some c) × (c.pid ≡ wallclock_pid)
Found-any buffer ms r all has w s end (here a) = absurd (not_clr buffer w a)
Found-any buffer ms r all (before, after, e) w s end (later unlike found) =
    Found-clock buffer ms r all w s end before after e found

-- The whole line goes to the process of the command.
pub sent_line :
    {buffer : ℕ → ℕ} {r : Option RegCmd} {calls : List Call} (c : RegCmd)
    → r ≡ some c
    → Commanded buffer r calls
    → (msg : ℕ → ℕ) × (m : ℕ) × (calls ≡ sent c.pid msg ∷ [])
      × IsEnd buffer m
      × ((j : ℕ) → msg j ≡ (if ltb j m then buffer j else nul))
sent_line c e not_known = absurd (cc)
sent_line c e (commanded {c = d} {text = msg} m ends copied) =
    let same : d ≡ c = cc in (msg, m, ap (λ (x : RegCmd). sent x.pid msg ∷ []) same, ends, copied)
