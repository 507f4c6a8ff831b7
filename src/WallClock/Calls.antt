-- ===== src/WallClock/Calls.antt =====
-- The whole of `wallclock` of wallclock/wallclock.c: the blocks that it asks for, sends and gives back.
-- As in the test processes, a message is a number that stands for its envelope, and the process has
-- the messages and the blocks that it gets as lists.
use ece_354_real_time_operat.Base.{
  ℕ, Bool, true, false, Option, none, some, List, [], ◌∷◌, ◌++◌, ◌==◌, if◌then◌else◌, ◌>>=◌,
}
use ece_354_real_time_operat.Pids.{wallclock_pid, kcd_pid, crt_pid}
use ece_354_real_time_operat.Chain.{null}
use ece_354_real_time_operat.Strings.{str_copy}
use ece_354_real_time_operat.Keyboard.{type_register_cmd}
use ece_354_real_time_operat.Stress.Processes.{
  Call, requested, released, sent_text, sent_late, cleared_text, text_fuel,
}
use ece_354_real_time_operat.WallClock.{
  Text, Envelope, Clock, type_wallclock_tick, register_clock, round,
}

-- A message that the process receives: where it is, 0 for NULL, and what it holds; and the time that
-- get_time answers in the round.
pub record Receipt : Type 0 where
  pub time : ℕ
  pub msg : ℕ
  pub envelope : Envelope

abbrev pub content : Receipt → Option Envelope
content e = if e.msg == null then none else some e.envelope

-- The block in which the time goes to the display.
unfoldable pub show_time : Option Text → List ℕ → Option (List Call × List ℕ)
show_time none grants = some ([], grants)
show_time (some out_time) [] = none
show_time (some out_time) (send_msg ∷ grants) = do
  msg ← str_copy text_fuel out_time cleared_text
  some (requested send_msg ∷ sent_text crt_pid send_msg 0 msg ∷ [], grants)

-- The block with the tick that is ordered.
unfoldable pub order_tick : Bool → List ℕ → Option (List Call × List ℕ)
order_tick false grants = some ([], grants)
order_tick true [] = none
order_tick true (delay_msg ∷ grants) =
    some (
      requested delay_msg ∷ sent_late wallclock_pid delay_msg type_wallclock_tick 1000 ∷ [],
      grants,
    )

-- What `out_time` holds after a round.
abbrev pub out_after : Option Text → Text → Text
out_after none out = out
out_after (some shown) out = shown

-- A round, with its calls.
unfoldable pub wallclock_round : Receipt → Text → Clock → List ℕ → Option (List Call × List ℕ)
wallclock_round e out c grants =
    let r = round e.time out (content e) c in
    do
      shown ← show_time r.display grants
      ordered ← order_tick r.delayed shown.1
      some (shown.0 ++ (released e.msg ∷ ordered.0), ordered.1)

unfoldable pub wallclock_rounds : List Receipt → Text → Clock → List ℕ → Option (List Call × Clock)
wallclock_rounds [] out c grants = some ([], c)
wallclock_rounds (e ∷ inbox) out c grants =
    let r = round e.time out (content e) c in
    do
      w ← wallclock_round e out c grants
      w' ← wallclock_rounds inbox (out_after r.display out) r.clock w.1
      some (w.0 ++ w'.0, w'.1)

-- The clock at the start. The code leaves base_time as it is.
abbrev pub reset_clock : ℕ → Clock
reset_clock base_time = record {
  clock_on = false;
  hour = 0;
  min = 0;
  sec = 0;
  base_time = base_time;
}

unfoldable pub wallclock : List Receipt → Text → ℕ → List ℕ → Option (List Call × Clock)
wallclock inbox out base_time [] = none
wallclock inbox out base_time (msg1 ∷ []) = none
wallclock inbox out base_time (msg1 ∷ msg2 ∷ grants) = do
  registration ← register_clock text_fuel
  w ← wallclock_rounds inbox out (reset_clock base_time) grants
  some (
    requested msg1
        ∷ sent_text kcd_pid msg1 type_register_cmd registration.0
        ∷ requested msg2
        ∷ sent_text kcd_pid msg2 type_register_cmd registration.1
        ∷ w.0,
    w.1,
  )
