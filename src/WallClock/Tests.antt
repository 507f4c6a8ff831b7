-- ===== src/WallClock/Tests.antt =====
-- The command `%WS 23:59:58`, a tick five seconds later, and the theorems of this component there.
use ece_354_real_time_operat.Chain.{length}
use ece_354_real_time_operat.Base.{
  List, [], ◌∷◌, ◌≤◌, Returns, ℕ, ◌+◌, ◌-◌, ◌*◌, ◌/◌, ◌%◌, ◌^◌, ◌<◌, ◌≡◌, refl, true, false, Option,
  none, some, arith, ◌==◌, ltb, leb, ◌&&◌, if◌then◌else◌,
}
use ece_354_real_time_operat.WallClock.{
  Text, Envelope, Clock, error_check, convert_to_dec, convert_to_ascii, is_digit, get_msg_type,
  two_digits, cur_time, out_hour, out_min, out_sec, set_clock, round,
}
use ece_354_real_time_operat.WallClock.Time.{shown_seconds, out_time_advances}
use ece_354_real_time_operat.WallClock.Texts.{IsCommand, convert_to_dec-convert_to_ascii}
use ece_354_real_time_operat.WallClock.Calls.{Receipt, wallclock}
use ece_354_real_time_operat.WallClock.Balance.{wallclock-IsBalanced}
use ece_354_real_time_operat.WallClock.Counts.{received_messages, IsBalanced}
use ece_354_real_time_operat.WallClock.Runs.{IsTimeOfDay, IsSound, round-IsSound, round-round}

abbrev blank : Text
blank i = 0

abbrev printed : Text
printed = convert_to_ascii 23 59 58 blank

abbrev command : Text
command i =
    if i == 2 then 83 else if i == 3 then 32 else if leb 4 i && ltb i 12 then printed (i - 4) else 0

abbrev stopped : Clock
stopped = record { clock_on = false; hour = 0; min = 0; sec = 0; base_time = 0 }

abbrev tick : Envelope
tick = record { type = 2; text = blank }

abbrev order : Envelope
order = record { type = 0; text = command }

command-IsCommand : IsCommand command (convert_to_ascii 23 59 58 blank)
command-IsCommand = record {
  space = refl;
  copied = λ i h.
      let two : (i + 4 == 2) ≡ false = ground arith in
      let three : (i + 4 == 3) ≡ false = ground arith in
      let within : (leb 4 (i + 4) && ltb (i + 4) 12) ≡ true = ground arith in
      let back : i + 4 - 4 ≡ i = omega arith in rw (two, three, within, back) refl;
  ended = refl;
}

-- The text at a place of the display, 0 if nothing is shown.
at : ℕ → Option Text → ℕ
at i none = 0
at i (some text) = text i

-- `00:00:03` is shown.
shown_test :
    (at 1 (round 6000 blank (some tick) (round 1000 blank (some order) stopped).clock).display ≡ 48)
    × (at 7 (round 6000 blank (some tick) (round 1000 blank (some order) stopped).clock).display
        ≡ 51)
unfolding at round set_clock error_check is_digit convert_to_dec two_digits get_msg_type
    convert_to_ascii out_hour out_min out_sec cur_time
shown_test = (refl, refl)

-- The timer passes 2 ^ 32 between the two times.
abbrev late : Clock
late = record stopped { hour = 23; base_time = 4294967290 }

out_time_advances_example :
    (shown_seconds 4294967290 late ≡ (late.hour * 3600 + late.min * 60 + late.sec) % 86400)
    × (shown_seconds ((4294967290 + (5 + 3600 * 1000)) % 2 ^ 32) late
        ≡ (shown_seconds ((4294967290 + 5) % 2 ^ 32) late + 3600) % 86400)
    × (shown_seconds ((4294967290 + 5) % 2 ^ 32) late < 86400)
out_time_advances_example = out_time_advances 5 3600 late (omega arith) (omega arith)

convert_to_dec-convert_to_ascii_test :
    (error_check command ≡ true)
    × (convert_to_dec command stopped ≡ some (record stopped { hour = 23; min = 59; sec = 58 }))
convert_to_dec-convert_to_ascii_test =
    convert_to_dec-convert_to_ascii 23 59 58 blank command stopped (omega arith) (omega arith)
      (omega arith) command-IsCommand

round-IsSound_test : IsSound stopped (round 1000 blank (some order) stopped)
round-IsSound_test =
    round-IsSound 1000 blank (some order) stopped
      (record { hour = omega arith; min = omega arith; sec = omega arith })

round-round_example :
    (h' : ℕ) × (m' : ℕ) × (s' : ℕ) × ((round 6000 blank
        (some tick)
        (round 1000 blank (some (record { type = 0; text = command })) stopped).clock).display
      ≡ some (convert_to_ascii h' m' s' blank))
    × (h' * 3600 + m' * 60 + s'
        ≡ (23 * 3600 + 59 * 60 + 58 + (6000 + 2 ^ 32 - 1000) % 2 ^ 32 / 1000) % 86400)
    × (h' < 24)
    × (m' < 60)
    × (s' < 60)
unfolding get_msg_type
round-round_example =
    round-round 1000 6000 23 59 58 blank blank command 0 tick stopped (omega arith) (omega arith)
      (omega arith) refl command-IsCommand refl refl

-- The command, a tick, and NULL.
abbrev inbox : List Receipt
inbox =
    record { time = 1000; msg = 41; envelope = order }
    ∷ record { time = 6000; msg = 42; envelope = tick }
    ∷ record { time = 7000; msg = 0; envelope = tick }
    ∷ []

enough : 2 + 2 * length (received_messages inbox) ≤ length (1 ∷ 2 ∷ 3 ∷ 4 ∷ 5 ∷ 6 ∷ 7 ∷ 8 ∷ [])
unfolding received_messages
enough = omega arith

wallclock-IsBalanced_example :
    Returns
      (λ (calls, c). IsBalanced (received_messages inbox) calls × IsTimeOfDay c)
      (wallclock inbox blank 0 (1 ∷ 2 ∷ 3 ∷ 4 ∷ 5 ∷ 6 ∷ 7 ∷ 8 ∷ []))
wallclock-IsBalanced_example =
    wallclock-IsBalanced inbox blank 0 (1 ∷ 2 ∷ 3 ∷ 4 ∷ 5 ∷ 6 ∷ 7 ∷ 8 ∷ []) enough
