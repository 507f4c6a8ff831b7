-- ===== src/Core/Lookup.antt =====
-- get_process_by_pid, get_current_pid, is_pid_valid and is_process_blocked of core/core.c, and
-- get_process_priority_handler.
pub mod Finds
pub mod Answers
use ece_354_real_time_operat.Base.{
  ℕ, zero, suc, ◌+◌, Bool, true, false, not, ◌&&◌, Option, some, ◌==◌, if◌then◌else◌, ◌>>=◌,
}
use ece_354_real_time_operat.Chain.{Ptr, null}
use ece_354_real_time_operat.Chain.Find.{find}
use ece_354_real_time_operat.Core.State.{
  ProcessState, new, ready, blocked_mem, blocked_msg, QueueName, ready_queue, mem_blocked_queue,
  msg_blocked_queue, Kernel, levels, pcb_limit, minus_one,
}
use ece_354_real_time_operat.Core.Interrupts.{atomic_up, atomic_down}

-- The inner loops of get_process_by_pid: the levels `i`, `i + 1`, … of one queue.
unfoldable pub find_in_levels : ℕ → ℕ → QueueName → ℕ → Kernel → Option Ptr
find_in_levels zero i q pid k = some null
find_in_levels (suc rounds) i q pid k =
    let rest = find_in_levels rounds (i + 1) q pid k in
    do
      block ← find pcb_limit k.links.next (λ p. k.pid p == pid) (k.links.heads q i)
      if block == null then rest else some block

-- The outer loop: the three arrays of queues in turn.
unfoldable pub get_queued : ℕ → Kernel → Option Ptr
get_queued pid k = do
  block ← find_in_levels levels 0 ready_queue pid k
  if block == null
      then (do
        block' ← find_in_levels levels 0 mem_blocked_queue pid k
        if block' == null then find_in_levels levels 0 msg_blocked_queue pid k else some block')
      else some block

unfoldable pub get_process_by_pid : ℕ → Kernel → Option Ptr
get_process_by_pid pid k =
    if not (k.running_process == null) && k.pid k.running_process == pid
    then some k.running_process
    else get_queued pid k

unfoldable pub get_current_pid : Kernel → ℕ
get_current_pid k = if k.running_process == null then minus_one else k.pid k.running_process

unfoldable pub is_pid_valid : ℕ → Kernel → Option Bool
is_pid_valid pid k = do process ← get_process_by_pid pid k; some (not (process == null))

-- `state == blocked_msg || state == blocked_mem`
abbrev pub is_blocked : ProcessState → Bool
is_blocked blocked_msg = true
is_blocked blocked_mem = true
is_blocked new = false
is_blocked ready = false

unfoldable pub is_process_blocked : ℕ → Kernel → Option Bool
is_process_blocked pid k = do
  process ← get_process_by_pid pid k
  some (if process == null then false else is_blocked (k.state process))

-- The value that the handler leaves in d6, and the kernel after it.
unfoldable pub get_process_priority : ℕ → Kernel → Option (ℕ × Kernel)
unfolding atomic_up atomic_down
get_process_priority pid k = do
  process ← get_process_by_pid pid (atomic_up k)
  let k' = atomic_down (atomic_up k)
  some (if process == null then (minus_one, k') else (k'.priority process, k'))
