-- ===== src/Stress/Tests.antt =====
-- A queue that is empty when two messages arrive; stress_c with the count reports 0 and 1 and two
-- wake-ups to come; stress_a with %Z after another text.
use ece_354_real_time_operat.Pids.{kcd_pid}
use ece_354_real_time_operat.Keyboard.{type_register_cmd}
use ece_354_real_time_operat.Base.{
  ℕ, ◌-◌, ◌≡◌, refl, [], ◌∷◌, arith, some, ◌==◌, leb, if◌then◌else◌,
}
use ece_354_real_time_operat.Chain.{null}
use ece_354_real_time_operat.Strings.{text}
use ece_354_real_time_operat.Stress.{LocalQueue, hibernate}
use ece_354_real_time_operat.Stress.Queue.{IsLocal}
use ece_354_real_time_operat.Stress.Processes.{
  NumMessage, requested, released, sent_text, StressC, stress_a, z_text,
}
use ece_354_real_time_operat.Stress.Rounds.{Handled}
use ece_354_real_time_operat.Stress.Reports.{reports, stress_a-reports}
use ece_354_real_time_operat.Stress.Drains.{drain, drain-hibernate}

abbrev empty : LocalQueue
empty = record { env = λ p. 0; next = λ p. null; msgq_head = null; msgq_tail = null; fresh = 1 }

empty-IsLocal : IsLocal empty []
empty-IsLocal = record {
  items = [];
  chain = refl;
  at_tail = refl;
  holds = refl;
  below = λ p u. cc;
  positive = omega arith;
}

drain-hibernate_test : drain 2 0 (hibernate (1000 ∷ 1128 ∷ []) empty) ≡ 1000 ∷ 1128 ∷ []
drain-hibernate_test = drain-hibernate empty [] (1000 ∷ 1128 ∷ []) 0 empty-IsLocal

abbrev content : ℕ → NumMessage
content m = if leb 3 m then record { type = 5; msg = 0 } else record { type = 4; msg = m - 1 }

abbrev waiting_c : StressC
waiting_c = record {
  queue = empty;
  hibernate = 777;
  inbox = 1 ∷ 2 ∷ 3 ∷ 4 ∷ [];
  grants = 100 ∷ 228 ∷ [];
}

-- Message 6 is %Z.
abbrev texts : ℕ → ℕ → ℕ
texts m = if m == 6 then z_text else text (0x25 ∷ 0x57 ∷ [])

stress_a-reports_example :
    stress_a texts 50 (5 ∷ 6 ∷ 7 ∷ []) (60 ∷ 70 ∷ [])
    ≡ some (
        requested 50
        ∷ sent_text kcd_pid 50 type_register_cmd z_text
        ∷ released 5
        ∷ released 6
        ∷ reports 0 (60 ∷ 70 ∷ []))
stress_a-reports_example =
    stress_a-reports texts 50 (5 ∷ []) 6 (7 ∷ []) (60 ∷ 70 ∷ []) (refl, omega arith) refl
