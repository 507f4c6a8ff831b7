-- ===== src/Console/Clock.antt =====
-- A time that is typed behind %WS sets the clock.
use ece_354_real_time_operat.Pids.{wallclock_pid}
use ece_354_real_time_operat.Base.{
  ℕ, zero, suc, ◌+◌, ◌*◌, ◌≤◌, ◌<◌, ◌≡◌, refl, sym, ap, subst, ◌∙◌, inl, inr, true, Option, some,
  List, [], ◌∷◌, arith, ◌>>=◌, Bool-cases, Returns, mono,
}
use ece_354_real_time_operat.Strings.{text}
use ece_354_real_time_operat.Keyboard.{
  nul, percent, is_end, kcd_buffer_size, reset_kcd_buffer, Kcd, Message, Call, sent, shown,
  start_kcd, kcd_rounds,
}
use ece_354_real_time_operat.Keyboard.Lines.{
  typed, line_of, text_of, written, displayed, Entered, kcd_rounds-Entered,
}
use ece_354_real_time_operat.WallClock.{
  Text, Clock, convert_to_ascii, get_msg_type, set_clock, round,
}
use ece_354_real_time_operat.WallClock.Texts.{IsCommand, convert_to_dec-convert_to_ascii}
use ece_354_real_time_operat.Console.{AreRegistrations}
use ece_354_real_time_operat.Console.Lines.{HasClock, line_buffer, sent_text, Found-any, sent_line}
use ece_354_real_time_operat.Console.Typed.{ws_line, ws_line-IsPlain, ws_line-live, ascii_high}
use ece_354_real_time_operat.Console.Registrations.{
  start_kcd_lem, kcd_rounds-cmds_of, started_kcd, registered_kcd, registered_kcd-IsBuffered,
  rounds_for-cmds_of, length_of,
}

-- The text that the wall clock gets is a command with the time.
ws_line-IsCommand :
    (out msg : Text) → ((j : ℕ) → msg j ≡ text (percent ∷ ws_line out) j) → IsCommand msg out
ws_line-IsCommand out msg same = record { space = same 3; copied = place; ended = same 12 }
  where
    place : (i : ℕ) → i < 8 → msg (i + 4) ≡ out i
    place zero h = same 4
    place (suc zero) h = same 5
    place (suc (suc zero)) h = same 6
    place (suc (suc (suc zero))) h = same 7
    place (suc (suc (suc (suc zero)))) h = same 8
    place (suc (suc (suc (suc (suc zero))))) h = same 9
    place (suc (suc (suc (suc (suc (suc zero)))))) h = same 10
    place (suc (suc (suc (suc (suc (suc (suc zero))))))) h = same 11
    place (suc (suc (suc (suc (suc (suc (suc (suc i)))))))) h = absurd (omega arith)

-- The clock `c` shows the time `h`:`m`:`s` from now on.
pub record IsSetTo (now h m s : ℕ) (c : Clock) : Type 0 where
  pub hour : c.hour ≡ h
  pub min : c.min ≡ m
  pub sec : c.sec ≡ s
  pub base_time : c.base_time ≡ now
  pub clock_on : c.clock_on ≡ true

round-IsSetTo :
    (now h m s : ℕ) (out0 display msg : Text) (type : ℕ) (c : Clock)
    → h < 24
    → m < 60
    → s < 60
    → ((j : ℕ) → msg j ≡ text (percent ∷ ws_line (convert_to_ascii h m s out0)) j)
    → IsSetTo now h m s (round now display (some (record { type = type; text = msg })) c).clock
unfolding round set_clock get_msg_type
round-IsSetTo now h m s out0 display msg type c small small' small'' same =
    let (valid, set) =
      convert_to_dec-convert_to_ascii h m s out0 msg c small small' small''
        (ws_line-IsCommand (convert_to_ascii h m s out0) msg same) in
    let of_s : msg 2 ≡ 0x53 = same 2 in
    rw (of_s, valid, set)
      (elim (Bool-cases c.clock_on) [
        | inl on ↦
            rw on
              (record { hour = refl; min = refl; sec = refl; base_time = refl; clock_on = refl })
        | inr off ↦
            rw off
              (record { hour = refl; min = refl; sec = refl; base_time = refl; clock_on = refl })
      ])

-- What a line for the wall clock comes to.
abbrev pub Set : ℕ → ℕ → ℕ → ℕ → Text → Text → Clock → List Call × Kcd → Type 0
Set now h m s out0 display c (calls, k') =
    (msg : Text) × (calls
      ≡ shown (text_of percent)
        ∷ displayed (ws_line (convert_to_ascii h m s out0)) (sent wallclock_pid msg ∷ []))
    × IsSetTo now h m s (round now display (some (record { type = 0; text = msg })) c).clock

Entered-clock :
    (now h m s : ℕ) (out0 display : Text) (c : Clock) (ms : List Message)
    → h < 24
    → m < 60
    → s < 60
    → AreRegistrations ms
    → HasClock ms
    → (r : List Call × Kcd)
    → ((rest : List Call) × (r.0 ≡ shown (text_of percent) ∷ rest)
        × Entered
            (registered_kcd ms)
            (written 0
              (percent ∷ ws_line (convert_to_ascii h m s out0))
              (reset_kcd_buffer (λ i. nul)))
            (ws_line (convert_to_ascii h m s out0))
            (rest, r.1))
    → Set now h m s out0 display c r
Entered-clock now h m s out0 display c ms small small' small'' all (before, after, e) r
      (rest, first, (found, commands, is_found, sent_on, calls, after_line)) =
    let out = convert_to_ascii h m s out0 in
    let high = ascii_high h m s out0 small small' small'' in
    let buffer = written 0 (percent ∷ ws_line out) (reset_kcd_buffer (λ i. nul)) in
    let line = λ (i : ℕ) (low : i < kcd_buffer_size).
      line_buffer (ws_line out) (λ i. nul) i (omega arith) low in
    let blank : is_end (buffer 3) ≡ true =
      subst (λ x. is_end x ≡ true) (sym (line 3 (omega arith))) refl in
    let (cmd, e', pid) =
      Found-any buffer ms found all (before, after, e) (line 1 (omega arith)) (line 2 (omega arith))
        blank is_found in
    let (msg, n, of_line, ends, copied) = sent_line cmd e' sent_on in
    let same = λ (j : ℕ).
      sent_text (ws_line out) buffer msg n j (ws_line-live out high) (omega arith) line ends
        copied in
    (
      msg,
      first
          ∙ (ap (λ l. shown (text_of percent) ∷ l) calls
              ∙ ap (λ l. shown (text_of percent) ∷ displayed (ws_line out) l)
                  (of_line ∙ ap (λ x. sent x msg ∷ []) pid)),
      round-IsSetTo now h m s out0 display msg 0 c small small' small'' same,
    )

-- A run of KCD: its start, the registrations `ms`, and the line that gives the time.
abbrev pub typed_time : ℕ → List Message → List ℕ → Option (List Call × Kcd)
typed_time fuel ms cs = do
  k ← start_kcd fuel
  r ← kcd_rounds fuel ms k
  kcd_rounds fuel (typed percent ∷ line_of cs) r.1

-- After the start of KCD and the registrations `ms` of the processes, in any order and number, that of
-- "%WS" among them, and with fuel enough for their commands: if someone types %WS, a time of day as
-- the clock would show it, and return, KCD sends each character on to the display and then one
-- message to the wall clock, and the round of the wall clock that receives it sets the clock to that
-- time, from now on, and starts it if it was off.
pub typed_time-Set :
    (fuel now h m s : ℕ) (out0 display : Text) (c : Clock) (ms : List Message)
    → h < 24
    → m < 60
    → s < 60
    → AreRegistrations ms
    → HasClock ms
    → 65 + 64 * length_of ms ≤ fuel
    → Returns
        (Set now h m s out0 display c)
        (typed_time fuel ms (ws_line (convert_to_ascii h m s out0)))
typed_time-Set fuel now h m s out0 display c ms small small' small'' all has enough =
    let out = convert_to_ascii h m s out0 in
    rw (start_kcd_lem fuel (omega arith), kcd_rounds-cmds_of fuel ms started_kcd all (omega arith))
      (mono
        (kcd_rounds-Entered fuel (ws_line out) (registered_kcd ms)
          (registered_kcd-IsBuffered ms all) (omega arith)
          (ws_line-IsPlain out (ascii_high h m s out0 small small' small'')) (omega arith)
          (omega (arith, rounds_for-cmds_of ms)))
        λ r entered.
          Entered-clock now h m s out0 display c ms small small' small'' all has r entered)
