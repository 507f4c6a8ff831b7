-- ===== src/WallClock/Runs.antt =====
-- Rounds of the loop: the clock stays a time of day, and shows the time that was set.
use ece_354_real_time_operat.Base.{
  ℕ, ◌+◌, ◌-◌, ◌*◌, ◌/◌, ◌%◌, ◌^◌, ◌<◌, ◌≡◌, refl, inl, inr, Bool, true, false, Option, none, some,
  arith, ◌==◌, ltb, ◌&&◌, ◌||◌, Bool-cases,
}
use ece_354_real_time_operat.WallClock.{
  Text, Envelope, Clock, Round, type_wallclock_tick, error_check, get_msg_type, two_digits,
  convert_to_dec, convert_to_ascii, cur_time, out_hour, out_min, out_sec, set_clock, round,
}
use ece_354_real_time_operat.WallClock.Texts.{IsCommand, convert_to_dec-convert_to_ascii}
use ece_354_real_time_operat.WallClock.Time.{out_time_lem}

pub record IsTimeOfDay (c : Clock) : Type 0 where
  pub hour : c.hour < 24
  pub min : c.min < 60
  pub sec : c.sec < 60

-- What a round may do to a clock.
pub record IsSound (c : Clock) (r : Round) : Type 0 where
  pub in_day : IsTimeOfDay r.clock
  pub ticks : r.delayed ≡ true → r.clock.clock_on ≡ true
  pub dark : c.clock_on ≡ false → r.display ≡ none

skip-IsSound :
    {c : Clock}
    → IsTimeOfDay c
    → (t : Bool)
    → IsSound c (record { clock = record c { clock_on = t }; display = none; delayed = false })
skip-IsSound v t = record {
  in_day = record { hour = v.hour; min = v.min; sec = v.sec };
  ticks = λ e. cc;
  dark = λ e. refl;
}

set_clock-IsSound :
    (now : ℕ) (msg : Text) (c : Clock) → IsTimeOfDay c → IsSound c (set_clock now msg c)
unfolding set_clock convert_to_dec
set_clock-IsSound now msg c v = elim (Bool-cases (error_check msg)) [
  | inr e ↦ rw e (skip-IsSound v c.clock_on)
  | inl e ↦ rw e (elim (Bool-cases (ltb 23 (two_digits msg 4))) [
    | inl late ↦ rw late (skip-IsSound v c.clock_on)
    | inr hours ↦
        rw hours (elim (Bool-cases (ltb 59 (two_digits msg 7) || ltb 59 (two_digits msg 10))) [
          | inl late ↦ rw late (skip-IsSound v c.clock_on)
          | inr rest ↦ rw rest (elim (Bool-cases c.clock_on) [
            | inl on ↦ rw on (record {
              in_day = record { hour = ground arith; min = ground arith; sec = ground arith };
              ticks = λ e. cc;
              dark = λ e. refl;
            })
            | inr off ↦ rw off (record {
              in_day = record { hour = ground arith; min = ground arith; sec = ground arith };
              ticks = λ e. refl;
              dark = λ e. refl;
            })
          ])
        ])
  ])
]

-- If the clock holds a time of day, it does so after a round with any message; a tick is ordered
-- only while the clock is on after it, and nothing is shown if the clock was off before it.
pub round-IsSound :
    (now : ℕ) (out : Text) (msg : Option Envelope) (c : Clock)
    → IsTimeOfDay c
    → IsSound c (round now out msg c)
unfolding round
round-IsSound now out none c v = skip-IsSound v c.clock_on
round-IsSound now out (some msg) c v = elim (Bool-cases (get_msg_type msg.text == 1)) [
  | inl e ↦ rw e (set_clock-IsSound now msg.text c v)
  | inr e ↦ rw e (elim (Bool-cases (get_msg_type msg.text == 2)) [
    | inl e' ↦ rw e' (skip-IsSound v false)
    | inr e' ↦ rw e' (elim (Bool-cases (msg.type == type_wallclock_tick && c.clock_on)) [
      | inl e'' ↦ rw e'' (record { in_day = v; ticks = λ h. h; dark = λ h. ground arith })
      | inr e'' ↦ rw e'' (record { in_day = v; ticks = λ h. h; dark = λ h. refl })
    ])
  ])
]

set_clock-command :
    (now h m s : ℕ) (out msg : Text) (c : Clock)
    → h < 24
    → m < 60
    → s < 60
    → IsCommand msg (convert_to_ascii h m s out)
    → (set_clock now msg c).clock
      ≡ record { clock_on = true; hour = h; min = m; sec = s; base_time = now }
unfolding set_clock
set_clock-command now h m s out msg c small small' small'' v =
    let (checked, set) = convert_to_dec-convert_to_ascii h m s out msg c small small' small'' v in
    rw (checked, set) (elim (Bool-cases c.clock_on) [ inl on ↦ rw on refl | inr off ↦ rw off refl ])

round-command :
    (now h m s type : ℕ) (out out' text : Text) (c : Clock)
    → h < 24
    → m < 60
    → s < 60
    → text 2 ≡ 83
    → IsCommand text (convert_to_ascii h m s out)
    → (round now out' (some (record { type = type; text = text })) c).clock
      ≡ record { clock_on = true; hour = h; min = m; sec = s; base_time = now }
unfolding round get_msg_type
round-command now h m s type out out' text c small small' small'' set v =
    rw set (set_clock-command now h m s out text c small small' small'' v)

round-tick :
    (now : ℕ) (out : Text) (tick : Envelope) (c : Clock)
    → c.clock_on ≡ true
    → tick.type ≡ type_wallclock_tick
    → get_msg_type tick.text ≡ 0
    → (round now out (some tick) c).display
      ≡ some (convert_to_ascii (out_hour now c) (out_min now c) (out_sec now c) out)
unfolding round
round-tick now out tick c on is_tick plain = rw (plain, is_tick, on) refl

-- A command %WS with a time of day comes at the time `now` of the timer, and a tick, whose own
-- text is no command, at `later`: the display shows the time of day of the command plus the
-- seconds between the two, modulo one day.
pub round-round :
    (now later h m s : ℕ) (out out' text : Text) (type : ℕ) (tick : Envelope) (c : Clock)
    → h < 24
    → m < 60
    → s < 60
    → text 2 ≡ 83
    → IsCommand text (convert_to_ascii h m s out)
    → tick.type ≡ type_wallclock_tick
    → get_msg_type tick.text ≡ 0
    → (h' : ℕ) × (m' : ℕ) × (s' : ℕ) × ((round later out'
          (some tick)
          (round now out (some (record { type = type; text = text })) c).clock).display
        ≡ some (convert_to_ascii h' m' s' out'))
      × (h' * 3600 + m' * 60 + s'
          ≡ (h * 3600 + m * 60 + s + (later + 2 ^ 32 - now) % 2 ^ 32 / 1000) % 86400)
      × (h' < 24)
      × (m' < 60)
      × (s' < 60)
unfolding cur_time
round-round now later h m s out out' text type tick c small small' small'' set command is_tick
      plain =
    let set_to : Clock = record { clock_on = true; hour = h; min = m; sec = s; base_time = now } in
    let e = round-command now h m s type out out text c small small' small'' set command in
    let (shown, h_low, m_low, s_low) = out_time_lem later set_to in
    (
      out_hour later set_to,
      out_min later set_to,
      out_sec later set_to,
      rw e (round-tick later out' tick set_to refl is_tick plain),
      shown,
      h_low,
      m_low,
      s_low,
    )
