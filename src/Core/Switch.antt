-- ===== src/Core/Switch.antt =====
-- proc_switch_handler and release_processor of core/core.c, and what process_bootstrap does once a
-- process has returned from its starting address.
pub mod Schedules
pub mod Dispatch
pub mod Releases
pub mod Stays
pub mod Ends
use ece_354_real_time_operat.Base.{
  Bool, true, false, not, ◌&&◌, Option, some, ◌==◌, if◌then◌else◌, update, ◌>>=◌,
}
use ece_354_real_time_operat.Chain.{Ptr, null}
use ece_354_real_time_operat.Core.State.{
  ProcessState, new, ready, blocked_mem, blocked_msg, ready_queue, Kernel,
}
use ece_354_real_time_operat.Core.Queues.{enqueue_process, dequeue_process, remove_process}
use ece_354_real_time_operat.Core.Interrupts.{atomic_up, atomic_down}

abbrev pub is_ready : ProcessState → Bool
is_ready ready = true
is_ready new = false
is_ready blocked_mem = false
is_ready blocked_msg = false

-- The first half of the handler: the registers go to the PCB of the running process, and the process
-- goes to the ready queue, unless it is `main` or blocked.
unfoldable pub save_running : Kernel → Option Kernel
save_running k =
    let saved = record k { registers = update k.registers k.running_process k.cpu } in
    if k.running_process == null
    then some k
    else if not (k.running_process == k.main_process) && is_ready (k.state k.running_process)
    then enqueue_process ready_queue k.running_process saved
    else some saved

-- The second half: the first process of the ready queues runs, or `main` if there is none.
unfoldable pub choose : Kernel → Kernel
unfolding dequeue_process
choose k =
    let (process, k1) = dequeue_process ready_queue k in
    let next_process = if process == null then k1.main_process else process in
    record k1 { running_process = next_process; cpu = k1.registers next_process }

-- A process that has not run yet is ready from now on.
unfoldable pub start : Kernel → Kernel
start k = elim (k.state k.running_process) [
  | new ↦ record k { state = update k.state k.running_process ready }
  | _ ↦ k
]

unfoldable pub dispatch : Kernel → Kernel
unfolding choose start
dispatch k = start (choose k)

unfoldable pub proc_switch_handler : Kernel → Option Kernel
unfolding atomic_up atomic_down
proc_switch_handler k = do k1 ← save_running (atomic_up k); some (atomic_down (dispatch k1))

-- TRAP #0.
unfoldable pub release_processor : Kernel → Option Kernel
release_processor k = proc_switch_handler k

-- process_bootstrap after `block->starting_addr()` has returned.
unfoldable pub terminate_process : Ptr → Kernel → Option Kernel
terminate_process block k = do
  k1 ← remove_process block k
  release_processor (record k1 { running_process = null })
