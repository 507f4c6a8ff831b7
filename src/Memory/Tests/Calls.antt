-- ===== src/Memory/Tests/Calls.antt =====
-- The two handlers at the kernel of the tests, where process 7 runs.
use ece_354_real_time_operat.Base.{arith, Returns}
use ece_354_real_time_operat.Core.Interrupts.{atomic_up}
use ece_354_real_time_operat.Core.Lookup.{get_current_pid}
use ece_354_real_time_operat.Core.Tests.{kernel, kernel-IsValid}
use ece_354_real_time_operat.Memory.State.{Memory}
use ece_354_real_time_operat.Memory.Handlers.{request_memory_block}
use ece_354_real_time_operat.Memory.Calls.{Requested, request_memory_block-Requested}
use ece_354_real_time_operat.Memory.Tests.{start, start-IsPool, start-IsClean}
use ece_354_real_time_operat.System.{System}

abbrev pub system : Memory → System
system m = record {
  kernel = kernel;
  memory = m;
  mailbox = λ i. 0;
  delayed_mailbox = λ i. 0;
  ticks = 0;
}

request_memory_block-Requested_example :
    Returns
      (Requested (system start) kernel-IsValid start-IsPool 7)
      (request_memory_block (system start))
unfolding get_current_pid atomic_up
request_memory_block-Requested_example =
    request_memory_block-Requested (system start) kernel-IsValid start-IsPool start-IsClean
      (ground arith)
