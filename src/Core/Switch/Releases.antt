-- ===== src/Core/Switch/Releases.antt =====
-- proc_switch_handler, whole: a switch returns, keeps the invariant, and runs the process that the
-- scheduler picks from the ready queues after the running process has joined them.
use ece_354_real_time_operat.Base.{
  ◌<◌, ◌≡◌, refl, ◌≢◌, inl, inr, true, false, not, ◌&&◌, arith, ◌==◌, if◌then◌else◌, update,
  Bool-cases, Returns, returns, bind,
}
use ece_354_real_time_operat.Chain.{Ptr, null}
use ece_354_real_time_operat.Core.State.{
  Atomic, Registers, Links, ProcessState, new, ready, blocked_mem, blocked_msg, ready_queue, Kernel,
  levels, pcb_limit, Queues, Waits,
}
use ece_354_real_time_operat.Core.Queues.{queue_of}
use ece_354_real_time_operat.Core.Queues.Placed.{
  appended, Relinked, IsPlaced-other, enqueue_process-IsPlaced,
}
use ece_354_real_time_operat.Core.Interrupts.{atomic, atomic_up, atomic_down}
use ece_354_real_time_operat.Core.Invariant.{IsPlaced, IsRunning, IsScheduled, IsValid}
use ece_354_real_time_operat.Core.Switch.{
  is_ready, save_running, dispatch, proc_switch_handler, release_processor,
}
use ece_354_real_time_operat.Core.Switch.Dispatch.{dispatch-IsScheduled}

-- What the scheduler may start from. A blocked process that still runs stands in its queue already.
pub record IsSwitchable (k : Kernel) (a : Queues) : Type 0 where
  pub placed : IsPlaced k a
  pub live : k.running_process ≢ null
  pub requeue :
      k.running_process ≢ k.main_process
      → k.state k.running_process ≡ ready
      → Waits a k.running_process
        × (k.running_process < pcb_limit)
        × (k.priority k.running_process < levels)

-- The ready queues once the running process has joined them, if it is ready and not `main`.
abbrev pub joined : Kernel → Queues → Queues
joined k a =
    let p = k.running_process in
    if not (p == k.main_process) && is_ready (k.state p)
    then appended ready_queue (k.priority p) p a
    else a

-- The registers are saved before the switch.
abbrev pub saved : Kernel → Kernel
saved k = record k { registers = update k.registers k.running_process k.cpu }

is_ready-eq : (s : ProcessState) → is_ready s ≡ true → s ≡ ready
is_ready-eq new e = cc
is_ready-eq ready e = refl
is_ready-eq blocked_mem e = cc
is_ready-eq blocked_msg e = cc

save_running-Relinked :
    {k : Kernel} {a : Queues}
    → IsSwitchable k a
    → Returns (Relinked (saved k) (joined k a)) (save_running k)
unfolding save_running queue_of
save_running-Relinked {k} {a} v =
    let p = k.running_process in
    let named : (p == null) ≡ false = let live = v.live in ground arith in
    elim (Bool-cases (not (p == k.main_process) && is_ready (k.state p))) [
      | inl e ↦
          let (other, able) : (p ≢ k.main_process) × (is_ready (k.state p) ≡ true) =
            (ground arith, ground arith) in
          let (waits, low, level) = v.requeue other (is_ready-eq (k.state p) able) in
          rw (named, e)
            (enqueue_process-IsPlaced ready_queue p
              (IsPlaced-other (saved k).registers p k.cpu k.atomic v.placed) v.live other waits low
              level (rw (is_ready-eq (k.state p) able, queue_of)))
      | inr e ↦
          rw (named, e)
            (returns (k.links, refl, IsPlaced-other (saved k).registers p k.cpu k.atomic v.placed))
    ]

pub IsRunning-other :
    {k : Kernel} {a : Queues} {p : Ptr} (registers : Ptr → Registers) (running : Ptr)
    (cpu : Registers) (atomic : Atomic)
    → IsRunning k a p
    → IsRunning
        (record k { registers = registers; running_process = running; cpu = cpu; atomic = atomic })
        a
        p
IsRunning-other registers running cpu atomic v = record {
  live = v.live;
  waits = v.waits;
  is_ready = v.is_ready;
  low = v.low;
  level = v.level;
}

-- The counter of `atomic` and the links before the choice do not matter to what the scheduler does.
IsScheduled-other :
    {k k' : Kernel} {a a' : Queues} (l : Links) (s t : Atomic)
    → IsScheduled (record k { links = l; atomic = s }) a k' a'
    → IsScheduled k a (record k' { atomic = t }) a'
IsScheduled-other {k' = k'} l s t v = record {
  picked = v.picked;
  valid = record {
    placed = IsPlaced-other k'.registers k'.running_process k'.cpu t v.valid.placed;
    running = IsRunning-other k'.registers k'.running_process k'.cpu t v.valid.running;
  };
  top = v.top;
  restored = v.restored;
  same_pid = v.same_pid;
  same_priority = v.same_priority;
  same_registers = v.same_registers;
  same_main = v.same_main;
  same_state = v.same_state;
}

-- From a kernel whose queues are well placed, and whose running process stands in no queue if it
-- could go on, a switch returns: the running process joins the end of its ready queue unless it
-- is blocked or `main`, and the first process of the highest ready queue that is not empty runs,
-- or `main` if all are empty, with the registers of its PCB. The invariant holds after it.
pub release_processor-IsScheduled :
    {k : Kernel} {a : Queues}
    → IsSwitchable k a
    → Returns (λ k'. (a' : Queues) × IsScheduled (saved k) (joined k a) k' a') (release_processor k)
unfolding release_processor proc_switch_handler atomic_up atomic_down
release_processor-IsScheduled {k} {a} v =
    let up = atomic 1 k.atomic in
    bind
      (save_running-Relinked {k = atomic_up k} (record {
        placed = IsPlaced-other k.registers k.running_process k.cpu up v.placed;
        live = v.live;
        requeue = v.requeue;
      }))
      λ k1 (l, e, placed).
        let (a', s) = dispatch-IsScheduled placed in
        rw e (
          returns (
            a',
            IsScheduled-other l up
                (atomic 0 (dispatch (record (saved (atomic_up k)) { links = l })).atomic) s,
          ))

pub IsValid-other :
    {k : Kernel} {a : Queues} (atomic : Atomic)
    → IsValid k a
    → IsValid (record k { atomic = atomic }) a
IsValid-other {k} atomic v = record {
  placed = IsPlaced-other k.registers k.running_process k.cpu atomic v.placed;
  running = IsRunning-other k.registers k.running_process k.cpu atomic v.running;
}

-- A kernel in which the invariant holds is switchable.
pub IsValid-IsSwitchable : {k : Kernel} {a : Queues} → IsValid k a → IsSwitchable k a
IsValid-IsSwitchable v = record {
  placed = v.placed;
  live = v.running.live;
  requeue = λ other able. (v.running.waits, v.running.low other, v.running.level other);
}
