-- ===== src/Core/Blocking.antt =====
-- block_process, unblock_process_by_pid and unblock_process_by_type of core/core.c.
pub mod Blocks
pub mod Unblocks
pub mod Woken
pub mod Preempts
pub mod Blocked
pub mod Kept
pub mod Steadies
use ece_354_real_time_operat.Base.{
  ℕ, Bool, true, not, ◌&&◌, ◌||◌, Option, some, ◌==◌, ltb, if◌then◌else◌, update, ◌>>=◌,
}
use ece_354_real_time_operat.Chain.{Ptr, null}
use ece_354_real_time_operat.Core.State.{
  ProcessState, ready, blocked_mem, blocked_msg, BlockType, mem, msg, QueueName, ready_queue,
  mem_blocked_queue, msg_blocked_queue, Kernel, levels,
}
use ece_354_real_time_operat.Core.Queues.{
  enqueue_process, remove_process, first_level, unlink_first,
}
use ece_354_real_time_operat.Core.Interrupts.{atomic_up, atomic_down}
use ece_354_real_time_operat.Core.Lookup.{get_process_by_pid, is_blocked}
use ece_354_real_time_operat.Core.Switch.{release_processor}

unfoldable pub block_queue : BlockType → QueueName
block_queue msg = msg_blocked_queue
block_queue mem = mem_blocked_queue

unfoldable pub blocked_state : BlockType → ProcessState
blocked_state msg = blocked_msg
blocked_state mem = blocked_mem

-- block_process once it has found a process that is not blocked.
unfoldable pub block : Ptr → BlockType → Kernel → Option Kernel
unfolding atomic_down
block process type k = do
  k1 ← remove_process process k
  k2 ←
      enqueue_process (block_queue type) process
        (record k1 { state = update k1.state process (blocked_state type) })
  if process == k2.running_process
      then release_processor (atomic_down k2)
      else some (atomic_down k2)

unfoldable pub block_process : ℕ → BlockType → Kernel → Option Kernel
unfolding atomic_up atomic_down
block_process pid type k = do
  process ← get_process_by_pid pid (atomic_up k)
  if process == null || is_blocked (k.state process)
      then some (atomic_down (atomic_up k))
      else block process type (atomic_up k)

-- The end of both ways to unblock: the process is ready, and gets the processor at once if its
-- priority is higher than that of the running process and this is allowed.
unfoldable pub make_ready : Ptr → Bool → Kernel → Option Kernel
unfolding atomic_down
make_ready process allow_release_processor k = do
  k1 ← enqueue_process ready_queue process (record k { state = update k.state process ready })
  if ltb (k1.priority process) (k1.priority k1.running_process) && allow_release_processor
      then release_processor (atomic_down k1)
      else some (atomic_down k1)

unfoldable pub unblock_process_by_pid : ℕ → Bool → Kernel → Option Kernel
unfolding atomic_up atomic_down
unblock_process_by_pid pid allow_release_processor k = do
  process ← get_process_by_pid pid (atomic_up k)
  if process == null || not (is_blocked (k.state process))
      then some (atomic_down (atomic_up k))
      else (do
        k1 ← remove_process process (atomic_up k)
        make_ready process allow_release_processor k1)

unfoldable pub unblock_process_by_type : BlockType → Kernel → Option Kernel
unfolding atomic_up atomic_down
unblock_process_by_type type k =
    let queue = block_queue type in
    let i = first_level levels 0 (k.links.heads queue) in
    let (process, l) = unlink_first k.links queue i in
    if i == levels
    then some (atomic_down (atomic_up k))
    else make_ready process true (record (atomic_up k) { links = l })
