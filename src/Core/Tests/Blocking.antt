-- ===== src/Core/Tests/Blocking.antt =====
-- The theorems on blocking and unblocking at the kernel of the tests.
use ece_354_real_time_operat.Base.{refl, ◌≡◌, true, false, arith, Returns}
use ece_354_real_time_operat.Core.State.{msg_blocked_queue, msg}
use ece_354_real_time_operat.Core.Interrupts.{atomic_up}
use ece_354_real_time_operat.Core.Invariant.{IsSteady, IsKept}
use ece_354_real_time_operat.Core.Blocking.{
  block_process, unblock_process_by_pid, unblock_process_by_type,
}
use ece_354_real_time_operat.Core.Blocking.Steadies.{
  block_process-IsSteady, unblock_process_by_pid-IsSteady, unblock_process_by_type-IsSteady,
}
use ece_354_real_time_operat.Core.Blocking.Kept.{unblock_process_by_pid-IsKept}
use ece_354_real_time_operat.Core.Blocking.Blocked.{Blocked, block_process-Blocked}
use ece_354_real_time_operat.Core.Blocking.Woken.{
  Unblocked, unblock_process_by_pid-Unblocked, FirstUnblocked,
  unblock_process_by_type-FirstUnblocked,
}
use ece_354_real_time_operat.Core.Blocking.Preempts.{unblock_process_by_pid-running_process}
use ece_354_real_time_operat.Core.Tests.{kernel, queues, kernel-IsValid, kernel-IsTop}

block_process-IsSteady_test : Returns (IsSteady kernel) (block_process 7 msg kernel)
block_process-IsSteady_test =
    block_process-IsSteady 7 msg kernel-IsValid kernel-IsTop (ground arith)

unblock_process_by_pid-IsSteady_test :
    Returns (IsSteady kernel) (unblock_process_by_pid 9 true kernel)
unblock_process_by_pid-IsSteady_test = unblock_process_by_pid-IsSteady kernel-IsValid kernel-IsTop 9

unblock_process_by_pid-IsKept_test : Returns (IsKept kernel) (unblock_process_by_pid 9 false kernel)
unblock_process_by_pid-IsKept_test = unblock_process_by_pid-IsKept 9 kernel-IsValid

unblock_process_by_type-IsSteady_test :
    Returns (IsSteady kernel) (unblock_process_by_type msg kernel)
unblock_process_by_type-IsSteady_test =
    unblock_process_by_type-IsSteady kernel-IsValid kernel-IsTop msg

block_process-Blocked_example :
    Returns (Blocked (atomic_up kernel) queues 7 msg) (block_process 7 msg kernel)
block_process-Blocked_example = block_process-Blocked 7 msg kernel-IsValid (ground arith)

unblock_process_by_pid-Unblocked_example :
    Returns (Unblocked kernel queues 9 true) (unblock_process_by_pid 9 true kernel)
unblock_process_by_pid-Unblocked_example = unblock_process_by_pid-Unblocked 9 true kernel-IsValid

unblock_process_by_type-FirstUnblocked_example :
    Returns (FirstUnblocked kernel queues msg) (unblock_process_by_type msg kernel)
unblock_process_by_type-FirstUnblocked_example =
    unblock_process_by_type-FirstUnblocked msg kernel-IsValid

unblock_process_by_pid-running_process_example :
    Returns (λ k'. k'.running_process ≡ 3) (unblock_process_by_pid 9 true kernel)
unblock_process_by_pid-running_process_example =
    unblock_process_by_pid-running_process 3 msg_blocked_queue 0 kernel-IsValid kernel-IsTop
      (ground arith) refl (ground arith) (ground arith) (λ r j b u e. ground arith)
