-- ===== src/Pids.antt =====
-- shared/rtx_pids.h: the pids of the processes that the modelled code names.
use ece_354_real_time_operat.Base.{ℕ}

abbrev pub stress_a_pid : ℕ
stress_a_pid = 7

abbrev pub stress_b_pid : ℕ
stress_b_pid = 8

abbrev pub stress_c_pid : ℕ
stress_c_pid = 9

abbrev pub kcd_pid : ℕ
kcd_pid = 10

abbrev pub crt_pid : ℕ
crt_pid = 11

abbrev pub uart_pid : ℕ
uart_pid = 12

abbrev pub wallclock_pid : ℕ
wallclock_pid = 60

abbrev pub priority_switch_pid : ℕ
priority_switch_pid = 80
