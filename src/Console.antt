-- ===== src/Console.antt =====
-- KCD together with the processes behind the commands (io/kcd.c, stress/stress.c,
-- wallclock/wallclock.c, core/priority_switch.c): the messages with which they register, and a line
-- that sets the clock.
pub mod Registrations
pub mod Typed
pub mod Lines
pub mod Clock
mod Tests
use ece_354_real_time_operat.Pids.{stress_a_pid, wallclock_pid, priority_switch_pid}
use ece_354_real_time_operat.Base.{ℕ, ◌≤◌, List, [], ◌∷◌}
use ece_354_real_time_operat.Strings.{text}
use ece_354_real_time_operat.Keyboard.{Message, type_register_cmd}
use ece_354_real_time_operat.PriorityCommand.{register_c}
use ece_354_real_time_operat.Stress.Processes.{z_text}
use ece_354_real_time_operat.WallClock.{Text, ws_chars, wt_chars}

-- The message as KCD receives it: its text, and its sender.
abbrev pub registration : ℕ → Text → Message
registration pid msg = record { type = type_register_cmd; tx = pid; text = msg }

-- The messages with which the processes register.
pub data IsRegistration : Message → Type 0 where
  of_z : IsRegistration (registration stress_a_pid z_text)
  of_ws : IsRegistration (registration wallclock_pid (text ws_chars))
  of_wt : IsRegistration (registration wallclock_pid (text wt_chars))
  of_c : IsRegistration (registration priority_switch_pid register_c)

abbrev pub AreRegistrations : List Message → Type 0
AreRegistrations [] = 0 ≤ 0
AreRegistrations (m ∷ ms) = IsRegistration m × AreRegistrations ms
