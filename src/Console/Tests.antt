-- ===== src/Console/Tests.antt =====
-- The four processes have registered; 12:34:56 is typed while the clock is off.
use ece_354_real_time_operat.Pids.{stress_a_pid, wallclock_pid, priority_switch_pid}
use ece_354_real_time_operat.Base.{refl, false, List, [], ◌∷◌, arith, Returns}
use ece_354_real_time_operat.Strings.{text}
use ece_354_real_time_operat.Keyboard.{Message}
use ece_354_real_time_operat.PriorityCommand.{register_c}
use ece_354_real_time_operat.Stress.Processes.{z_text}
use ece_354_real_time_operat.WallClock.{Text, Clock, ws_chars, wt_chars, convert_to_ascii}
use ece_354_real_time_operat.Console.{of_z, of_ws, of_wt, of_c, registration}
use ece_354_real_time_operat.Console.Typed.{ws_line}
use ece_354_real_time_operat.Console.Clock.{Set, typed_time, typed_time-Set}

abbrev all_four : List Message
all_four =
    registration stress_a_pid z_text
    ∷ registration wallclock_pid (text ws_chars)
    ∷ registration wallclock_pid (text wt_chars)
    ∷ registration priority_switch_pid register_c
    ∷ []

abbrev off : Clock
off = record { clock_on = false; hour = 0; min = 0; sec = 0; base_time = 0 }

abbrev blank : Text
blank i = 0

typed_time-Set_example :
    Returns
      (Set 7000 12 34 56 blank blank off)
      (typed_time 321 all_four (ws_line (convert_to_ascii 12 34 56 blank)))
typed_time-Set_example =
    typed_time-Set 321 7000 12 34 56 blank blank off all_four (omega arith) (omega arith)
      (omega arith) (of_z, (of_ws, (of_wt, (of_c, omega arith))))
      (
        registration stress_a_pid z_text ∷ [],
        registration wallclock_pid (text wt_chars)
            ∷ registration priority_switch_pid register_c
            ∷ [],
        refl,
      )
      (omega arith)
