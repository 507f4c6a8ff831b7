-- ===== src/Core/Priority.antt =====
-- set_process_priority_handler of core/core.c. The two arguments are C `int`s, given as 32-bit
-- patterns; the result is what the handler leaves in d6.
pub mod Changes
pub mod Outcomes
use ece_354_real_time_operat.Base.{
  ℕ, Bool, ◌&&◌, ◌||◌, Option, some, ◌==◌, ltb, if◌then◌else◌, update, ◌>>=◌,
}
use ece_354_real_time_operat.Chain.{Ptr, null}
use ece_354_real_time_operat.Core.State.{QueueName, ready_queue, same_queue, Kernel, is_negative}
use ece_354_real_time_operat.Core.Queues.{queue_of, enqueue_process, remove_process}
use ece_354_real_time_operat.Core.Interrupts.{atomic_up, atomic_down}
use ece_354_real_time_operat.Core.Lookup.{get_process_by_pid}
use ece_354_real_time_operat.Core.Switch.{release_processor}

-- A process other than the running one moves to the queue of its new priority.
unfoldable pub move_process : Ptr → ℕ → Kernel → Option Kernel
unfolding atomic_down
move_process block priority k = do
  k1 ← remove_process block k
  let queue = queue_of (k1.state block)
  k2 ← enqueue_process queue block (record k1 { priority = update k1.priority block priority })
  if ltb priority (k2.priority k2.running_process) && same_queue queue ready_queue
      then release_processor (atomic_down k2)
      else some (atomic_down k2)

-- The running process stands in no queue.
unfoldable pub change_running : Ptr → ℕ → Kernel → Option Kernel
unfolding atomic_down
change_running block priority k =
    let k1 = atomic_down (record k { priority = update k.priority block priority }) in
    if ltb (k.priority block) priority then release_processor k1 else some k1

unfoldable pub change_priority : Ptr → ℕ → Kernel → Option (ℕ × Kernel)
unfolding atomic_down
change_priority block priority k =
    if block == null
    then some (4, atomic_down k)
    else if priority == k.priority block
    then some (0, atomic_down k)
    else (do
      k1 ←
          (if block == k.running_process
            then change_running block priority k
            else move_process block priority k)
      some (0, k1))

unfoldable pub set_process_priority : ℕ → ℕ → Kernel → Option (ℕ × Kernel)
unfolding atomic_up atomic_down
set_process_priority pid priority k =
    if pid == 0 || is_negative pid
    then some (2, atomic_down (atomic_up k))
    else if is_negative priority || ltb 3 priority
    then some (3, atomic_down (atomic_up k))
    else (do
      block ← get_process_by_pid pid (atomic_up k)
      change_priority block priority (atomic_up k))
