-- ===== src/Core/Switch/Ends.antt =====
-- process_bootstrap, when the running process returns from its starting address.
use ece_354_real_time_operat.Base.{◌≡◌, true, ◌==◌, arith, Returns, returns}
use ece_354_real_time_operat.Chain.{null}
use ece_354_real_time_operat.Core.State.{Kernel, Queues}
use ece_354_real_time_operat.Core.Queues.{remove_process}
use ece_354_real_time_operat.Core.Interrupts.{atomic, atomic_up, atomic_down}
use ece_354_real_time_operat.Core.Queues.Placed.{IsPlaced-other}
use ece_354_real_time_operat.Core.Invariant.{IsValid, IsScheduled}
use ece_354_real_time_operat.Core.Switch.{
  save_running, dispatch, proc_switch_handler, release_processor, terminate_process,
}
use ece_354_real_time_operat.Core.Switch.Dispatch.{dispatch-IsScheduled}
use ece_354_real_time_operat.Core.Switch.Releases.{IsRunning-other}

-- Where the invariant holds, the end of the running process returns: it joins no queue, and the
-- scheduler picks the next process.
pub terminate_process-IsScheduled :
    {k : Kernel} {a : Queues}
    → IsValid k a
    → Returns (λ k'. (a' : Queues) × IsScheduled k a k' a') (terminate_process k.running_process k)
unfolding terminate_process remove_process release_processor proc_switch_handler save_running
    atomic_up atomic_down
terminate_process-IsScheduled {k} {a} v =
    let self : (k.running_process == k.running_process) ≡ true = ground arith in
    let up = atomic 1 k.atomic in
    let k0 = record k { running_process = null; atomic = up } in
    let (a', s) = dispatch-IsScheduled (IsPlaced-other k.registers null k.cpu up v.placed) in
    let k' = dispatch k0 in
    let t = atomic 0 k'.atomic in
    rw self (
      returns (
        a',
        record {
          picked = s.picked;
          valid = record {
            placed = IsPlaced-other k'.registers k'.running_process k'.cpu t s.valid.placed;
            running = IsRunning-other k'.registers k'.running_process k'.cpu t s.valid.running;
          };
          top = s.top;
          restored = s.restored;
          same_pid = s.same_pid;
          same_priority = s.same_priority;
          same_registers = s.same_registers;
          same_main = s.same_main;
          same_state = s.same_state;
        },
      ))
