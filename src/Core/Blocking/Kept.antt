-- ===== src/Core/Blocking/Kept.antt =====
-- unblock_process_by_pid without leave to release the processor keeps the invariant and the running
-- process.
use ece_354_real_time_operat.Base.{Bool, ℕ, ◌≡◌, refl, true, false, ◌&&◌, ltb, Returns, mono}
use ece_354_real_time_operat.Chain.{Ptr}
use ece_354_real_time_operat.Core.State.{ready_queue, Kernel, Queues}
use ece_354_real_time_operat.Core.Interrupts.{atomic}
use ece_354_real_time_operat.Core.Invariant.{IsValid, IsKept}
use ece_354_real_time_operat.Core.Switch.Releases.{IsValid-other}
use ece_354_real_time_operat.Core.Queues.Placed.{appended}
use ece_354_real_time_operat.Core.Blocking.{unblock_process_by_pid}
use ece_354_real_time_operat.Core.Blocking.Woken.{
  unblock_process_by_pid-Unblocked, Woken, queued_up, switched, Unblocked, unblocked,
}

never_preempts : (b : Bool) → (b && false) ≡ true → ⊥
never_preempts true e = cc
never_preempts false e = cc

Woken-IsKept :
    {k : Kernel} {a : Queues} {p : Ptr} {k' : Kernel} → Woken k a p false k' → IsKept k k'
Woken-IsKept {k} {a} {p} (queued_up lower valid) = record {
  queues = appended ready_queue (k.priority p) p a;
  valid = valid;
  same_pid = refl;
  same_priority = refl;
  same_main = refl;
  same_running = refl;
}
Woken-IsKept {k} {p = p} (switched higher s) =
    absurd (never_preempts (ltb (k.priority p) (k.priority k.running_process)) higher)

Unblocked-IsKept :
    {k : Kernel} {a : Queues} {pid : ℕ} {k' : Kernel}
    → IsValid k a
    → Unblocked k a pid false k'
    → IsKept k k'
Unblocked-IsKept {k} {a} v (Unblocked.ignored found e) = record {
  queues = a;
  valid = IsValid-other (atomic 0 (atomic 1 k.atomic)) v;
  same_pid = refl;
  same_priority = refl;
  same_main = refl;
  same_running = refl;
}
Unblocked-IsKept v (unblocked q i inside e blocked w) =
    let s = Woken-IsKept w in
    record {
      queues = s.queues;
      valid = s.valid;
      same_pid = s.same_pid;
      same_priority = s.same_priority;
      same_main = s.same_main;
      same_running = s.same_running;
    }

-- Where the invariant holds, unblock_process_by_pid without leave to release the processor
-- returns, the invariant holds after it, and the running process, the pids and the priorities
-- are as they were.
pub unblock_process_by_pid-IsKept :
    {k : Kernel} {a : Queues} (pid : ℕ)
    → IsValid k a
    → Returns (IsKept k) (unblock_process_by_pid pid false k)
unblock_process_by_pid-IsKept {k} {a} pid v =
    mono (unblock_process_by_pid-Unblocked pid false v) λ k' u. Unblocked-IsKept v u
