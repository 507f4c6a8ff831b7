-- ===== src/Uart/Tests.antt =====
-- A character comes in while kcd runs.
use ece_354_real_time_operat.Base.{◌+◌, ◌≢◌, refl, [], ◌∷◌, arith, ◌==◌, if◌then◌else◌, Returns}
use ece_354_real_time_operat.Core.State.{Kernel, minus_one}
use ece_354_real_time_operat.Core.Lookup.{get_current_pid}
use ece_354_real_time_operat.Core.Invariant.{IsValid}
use ece_354_real_time_operat.Core.Tests.{kernel, queues, kernel-IsValid}
use ece_354_real_time_operat.Memory.Init.{numbers}
use ece_354_real_time_operat.Memory.Queues.{init_memory, init_loop, zero_memory}
use ece_354_real_time_operat.Memory.Tests.{start, start-IsPool, start-IsClean}
use ece_354_real_time_operat.Memory.Tests.Calls.{system}
use ece_354_real_time_operat.Uart.{uart_handler}
use ece_354_real_time_operat.Uart.Receives.{Arrived, uart_handler-Arrived}
use ece_354_real_time_operat.System.{System}

-- The running process has the pid of kcd.
abbrev kcd_kernel : Kernel
kcd_kernel = record kernel { pid = λ p. if p == 16 then minus_one else p + 9 }

kcd_kernel-IsValid : IsValid kcd_kernel queues
kcd_kernel-IsValid =
    let v = kernel-IsValid in
    record {
      placed = record {
        held = v.placed.held;
        placed = v.placed.placed;
        main_live = v.placed.main_live;
        main_waits = v.placed.main_waits;
        main_ready = v.placed.main_ready;
      };
      running = record {
        live = v.running.live;
        waits = v.running.waits;
        is_ready = v.running.is_ready;
        low = v.running.low;
        level = v.running.level;
      };
    }

abbrev kcd_system : System
kcd_system = record (system start) { kernel = kcd_kernel }

start_place : start.memory_block_start ≢ 0
unfolding init_memory init_loop zero_memory
start_place = ground arith

uart_handler-Arrived_example :
    Returns (Arrived kcd_system queues [] 0x25 (1 ∷ numbers 29 2)) (uart_handler 0x25 kcd_system)
unfolding get_current_pid
uart_handler-Arrived_example =
    uart_handler-Arrived kcd_system 0x25 [] kcd_kernel-IsValid start-IsPool (λ j h. refl)
      (omega arith) (omega arith) start_place start-IsClean (ground arith)
