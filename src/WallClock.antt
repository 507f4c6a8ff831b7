-- ===== src/WallClock.antt =====
-- wallclock/wallclock.c: the clock on the display, which the commands %WS and %WT start and stop. A
-- text is an array of character codes.
pub mod Time
pub mod Texts
pub mod Runs
pub mod Calls
pub mod Counts
pub mod Balance
mod Tests
use ece_354_real_time_operat.Base.{
  ℕ, ◌+◌, ◌-◌, ◌*◌, ◌/◌, ◌%◌, ◌^◌, Bool, true, false, not, ◌&&◌, ◌||◌, List, [], ◌∷◌, Option, none,
  some, ◌==◌, ltb, if◌then◌else◌, update, ◌>>=◌,
}
use ece_354_real_time_operat.Strings.{text, str_copy}

abbrev pub Text : Type 0
Text = ℕ → ℕ

abbrev pub ws_chars : List ℕ
ws_chars = 0x25 ∷ 0x57 ∷ 0x53 ∷ []

abbrev pub wt_chars : List ℕ
wt_chars = 0x25 ∷ 0x57 ∷ 0x54 ∷ []

-- The start of `wallclock`: the texts of the two messages with which it registers "%WS" and "%WT".
unfoldable pub register_clock : ℕ → Option (Text × Text)
register_clock fuel = do
  msg1 ← str_copy fuel (text ws_chars) (λ i. 0)
  msg2 ← str_copy fuel (text wt_chars) (λ i. 0)
  some (msg1, msg2)

-- The fields of an envelope that the process reads.
pub record Envelope : Type 0 where
  pub type : ℕ
  pub text : Text

pub record Clock : Type 0 where
  pub clock_on : Bool
  pub hour : ℕ
  pub min : ℕ
  pub sec : ℕ
  pub base_time : ℕ

abbrev pub type_wallclock_tick : ℕ
type_wallclock_tick = 2

unfoldable pub is_digit : ℕ → Bool
is_digit c = not (ltb c 0x30 || ltb 0x39 c)

-- `%WS HH:MM:SS` and a NUL: true where the code returns 0.
unfoldable pub error_check : Text → Bool
error_check msg =
    msg 6 == 58
    && msg 9 == 58
    && msg 3 == 32
    && msg 12 == 0
    && is_digit (msg 4)
    && is_digit (msg 5)
    && is_digit (msg 7)
    && is_digit (msg 8)
    && is_digit (msg 10)
    && is_digit (msg 11)

-- 1 for a command that sets the clock, 2 for one that stops it, and 0 for any other text.
unfoldable pub get_msg_type : Text → ℕ
get_msg_type msg = if msg 2 == 83 then 1 else if msg 2 == 84 then 2 else 0

-- The number that two digits stand for, at a place where error_check has found digits.
unfoldable pub two_digits : Text → ℕ → ℕ
two_digits msg i = (msg i - 0x30) * 10 + (msg (i + 1) - 0x30)

-- The clock with the time of the text; none where the code returns 1.
unfoldable pub convert_to_dec : Text → Clock → Option Clock
convert_to_dec msg c =
    if ltb 23 (two_digits msg 4)
    then none
    else if ltb 59 (two_digits msg 7) || ltb 59 (two_digits msg 10)
    then none
    else some
        (record c { hour = two_digits msg 4; min = two_digits msg 7; sec = two_digits msg 10 })

-- The eleven writes to `out_time`; a CHAR has eight bits.
unfoldable pub convert_to_ascii : ℕ → ℕ → ℕ → Text → Text
convert_to_ascii hour min sec out0 =
    let out1 = update out0 0 ((hour / 10 + 0x30) % 256) in
    let out2 = update out1 1 ((hour % 10 + 0x30) % 256) in
    let out3 = update out2 2 58 in
    let out4 = update out3 3 ((min / 10 + 0x30) % 256) in
    let out5 = update out4 4 ((min % 10 + 0x30) % 256) in
    let out6 = update out5 5 58 in
    let out7 = update out6 6 ((sec / 10 + 0x30) % 256) in
    let out8 = update out7 7 ((sec % 10 + 0x30) % 256) in
    update (update (update out8 8 13) 9 10) 10 0

-- What is shown at the time `now` of the timer: hours, minutes and seconds. The timer is a 32-bit
-- counter of milliseconds; no sum overflows, since the seconds that it counts are fewer than 2 ^ 23.
unfoldable pub cur_time : ℕ → Clock → ℕ
cur_time now c = (now + 2 ^ 32 - c.base_time) % 2 ^ 32 / 1000

unfoldable pub out_sec : ℕ → Clock → ℕ
out_sec now c = (c.sec + cur_time now c) % 60

unfoldable pub out_min : ℕ → Clock → ℕ
out_min now c = (c.min + (c.sec + cur_time now c) / 60) % 60

unfoldable pub out_hour : ℕ → Clock → ℕ
out_hour now c = (c.hour + (c.min + (c.sec + cur_time now c) / 60) / 60) % 24

-- One round of the loop of `wallclock`: the clock after it, the text that goes to the display, and
-- whether a tick is ordered for a second later.
pub record Round : Type 0 where
  pub clock : Clock
  pub display : Option Text
  pub delayed : Bool

-- `continue`, without the end of the loop.
abbrev pub skip : Clock → Round
skip c = record { clock = c; display = none; delayed = false }

-- The end of the loop, which orders a tick while the clock is on.
abbrev pub finish : Option Text → Clock → Round
finish display c = record { clock = c; display = display; delayed = c.clock_on }

-- A text of %WS.
unfoldable pub set_clock : ℕ → Text → Clock → Round
set_clock now msg c =
    if error_check msg
    then (elim (convert_to_dec msg c) [
      | none ↦ skip c
      | some c1 ↦
          if c.clock_on
          then skip (record c1 { base_time = now })
          else finish none (record c1 { base_time = now; clock_on = true })
    ])
    else skip c

-- The round with the message that receive_message returns, at the time `now`; none is NULL. The text
-- on the display stands where `out_time` held `out`.
unfoldable pub round : ℕ → Text → Option Envelope → Clock → Round
round now out none c = skip c
round now out (some msg) c =
    if get_msg_type msg.text == 1
    then set_clock now msg.text c
    else if get_msg_type msg.text == 2
    then skip (record c { clock_on = false })
    else if msg.type == type_wallclock_tick && c.clock_on
    then finish (some (convert_to_ascii (out_hour now c) (out_min now c) (out_sec now c) out)) c
    else finish none c
