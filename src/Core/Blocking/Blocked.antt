-- ===== src/Core/Blocking/Blocked.antt =====
-- What block_process does to one process, and to all others: where the process goes, and who runs.
use ece_354_real_time_operat.Base.{
  ℕ, ◌≡◌, refl, sym, ap, subst, ◌∙◌, ◌≢◌, inl, inr, true, false, not, ◌&&◌, ◌||◌, arith, ◌==◌,
  Bool-cases, update, Returns, returns, bind, mono,
}
use ece_354_real_time_operat.Chain.{Ptr, null, has}
use ece_354_real_time_operat.Core.State.{ready_queue, BlockType, mem, msg, Links, Kernel, Queues}
use ece_354_real_time_operat.Core.Queues.{remove_process}
use ece_354_real_time_operat.Core.Queues.Placed.{
  appended, removed, remove_process-IsPlaced, enqueue_process-IsPlaced, set_state-IsPlaced,
  removed-Waits, Waits-appended, Waits-removed, IsPlaced-other,
}
use ece_354_real_time_operat.Core.Interrupts.{atomic, atomic_up, atomic_down}
use ece_354_real_time_operat.Core.Lookup.{is_blocked}
use ece_354_real_time_operat.Core.Lookup.Finds.{
  Lookup, running, queued, missing, get_process_by_pid-Lookup,
}
use ece_354_real_time_operat.Core.Invariant.{IsValid, IsScheduled}
use ece_354_real_time_operat.Core.Switch.{is_ready}
use ece_354_real_time_operat.Core.Switch.Releases.{
  IsValid-other, saved, release_processor-IsScheduled,
}
use ece_354_real_time_operat.Core.Blocking.{block_queue, blocked_state, block, block_process}
use ece_354_real_time_operat.Core.Blocking.Blocks.{
  queue-blocked, blocked_ne_ready, unblocked_states,
}

-- The process `p` is blocked, and atomic mode has been left.
abbrev blocked_kernel : Kernel → Ptr → BlockType → Links → Kernel
blocked_kernel k p type l = record k {
  links = l;
  state = update k.state p (blocked_state type);
  atomic = atomic 0 k.atomic;
}

abbrev blocked_queues : Kernel → BlockType → Ptr → Queues → Queues
blocked_queues k type p a = appended (block_queue type) (k.priority p) p a

-- What block_process finds and does, from a kernel in atomic mode.
pub data Blocked (k : Kernel) (a : Queues) (pid : ℕ) (type : BlockType) : Kernel → Type 0 where
  ignored :
      {p : Ptr}
      → Lookup k a pid p
      → (p == null || is_blocked (k.state p)) ≡ true
      → Blocked k a pid type (record k { atomic = atomic 0 k.atomic })
  gave_way :
      {l : Links} {k' : Kernel} {a' : Queues}
      → k.pid k.running_process ≡ pid
      → IsScheduled
          (saved (blocked_kernel k k.running_process type l))
          (blocked_queues k type k.running_process a)
          k'
          a'
      → Blocked k a pid type k'
  moved :
      {p : Ptr} {l : Links} (i : ℕ)
      → has p (a ready_queue i) ≡ true
      → k.pid p ≡ pid
      → IsValid (blocked_kernel k p type l) (blocked_queues k type p (removed ready_queue i p a))
      → Blocked k a pid type (blocked_kernel k p type l)

blocked_is_unready : (type : BlockType) → is_ready (blocked_state type) ≡ false
unfolding blocked_state
blocked_is_unready mem = refl
blocked_is_unready msg = refl

block_running-Blocked :
    {k : Kernel} {a : Queues} (pid : ℕ) (type : BlockType)
    → IsValid k a
    → k.running_process ≢ k.main_process
    → k.pid k.running_process ≡ pid
    → Returns (Blocked k a pid type) (block k.running_process type k)
unfolding block remove_process atomic_down
block_running-Blocked {k} {a} pid type v other named =
    let p = k.running_process in
    let self : (p == p) ≡ true = ground arith in
    let stays : (not (p == k.main_process) && false) ≡ false = ground arith in
    rw self (
      bind
        (enqueue_process-IsPlaced {k = record k { state = update k.state p (blocked_state type) }}
          (block_queue type) p
          (set_state-IsPlaced p (blocked_state type) v.placed v.running.waits other) v.running.live
          other v.running.waits (v.running.low other) (v.running.level other)
          (rw self (queue-blocked type)))
        λ k2 (l, e, placed).
          rw (e, self)
            (mono
              (release_processor-IsScheduled (record {
                placed = IsPlaced-other k.registers p k.cpu (atomic 0 k.atomic) placed;
                live = v.running.live;
                requeue = λ _ able. absurd (blocked_ne_ready type (rw self at able));
              }))
              λ k' (a', s).
                gave_way {l = l} named (rw (self, blocked_is_unready type, stays) at s)))

-- Another process that is not blocked leaves its ready queue for the blocked queue.
block_queued-Blocked :
    {k : Kernel} {a : Queues} (pid : ℕ) (type : BlockType) (p : Ptr) (i : ℕ)
    → IsValid k a
    → p ≢ null
    → has p (a ready_queue i) ≡ true
    → p ≢ k.running_process
    → k.pid p ≡ pid
    → Returns (Blocked k a pid type) (block p type k)
unfolding block atomic_down
block_queued-Blocked {k} {a} pid type p i v live inside idle named =
    let apart : (p == k.running_process) ≡ false = ground arith in
    let other : p ≢ k.main_process = λ e.
      cc (sym inside ∙ (ap (λ x. has x (a ready_queue i)) e ∙ v.placed.main_waits ready_queue i)) in
    let (at, prio, level) = v.placed.placed ready_queue i p inside in
    bind (remove_process-IsPlaced ready_queue p v.placed i inside idle) λ k1 (l, e, placed).
      let waits = removed-Waits ready_queue p v.placed i inside in
      rw e (
        bind
          (enqueue_process-IsPlaced
            {k = record k { links = l; state = update k.state p (blocked_state type) }}
            (block_queue type) p (set_state-IsPlaced p (blocked_state type) placed waits other) live
            other waits (v.placed.held.small ready_queue i p inside) (rw prio level)
            (let self : (p == p) ≡ true = ground arith in rw self (queue-blocked type)))
          λ k2 (l', e', placed').
            rw (e', apart)
              (returns (
                moved {l = l'} i inside named (record {
                  placed =
                      IsPlaced-other k.registers k.running_process k.cpu (atomic 0 k.atomic)
                        placed';
                  running = record {
                    live = v.running.live;
                    waits =
                        Waits-appended _ (block_queue type) (k.priority p) p k.running_process
                          (Waits-removed a ready_queue i p k.running_process v.running.waits)
                          (λ e'. idle (sym e'));
                    is_ready = rw apart v.running.is_ready;
                    low = v.running.low;
                    level = v.running.level;
                  };
                }))))

block_found-Blocked :
    {k : Kernel} {a : Queues} {p : Ptr} (pid : ℕ) (type : BlockType)
    → IsValid k a
    → pid ≢ k.pid k.main_process
    → Lookup k a pid p
    → p ≢ null
    → is_blocked (k.state p) ≡ false
    → Returns (Blocked k a pid type) (block p type k)
block_found-Blocked {k} pid type v other (running live e) named free =
    block_running-Blocked pid type v (λ e'. other (sym e ∙ ap k.pid e')) e
block_found-Blocked {k} {a} pid type v other (queued {p} q i inside live e) named free =
    let (at, prio, level) = v.placed.placed q i p inside in
    let inside' : has p (a ready_queue i) ≡ true =
      subst (λ r. has p (a r i) ≡ true) (sym at ∙ unblocked_states (k.state p) free) inside in
    block_queued-Blocked pid type p i v live inside'
      (λ e'. cc (sym inside ∙ (ap (λ x. has x (a q i)) e' ∙ v.running.waits q i))) e
block_found-Blocked pid type v other (missing gone out none_left) named free = absurd (named gone)

-- Where the invariant holds, block_process returns, unless it is called with the pid of `main`.
-- If no process of that pid is free, nothing but the counter of atomic has changed. The running
-- process goes to the end of the blocked queue of its priority, and the scheduler picks another;
-- any other process goes there from its ready queue, and the running one goes on.
pub block_process-Blocked :
    {k : Kernel} {a : Queues} (pid : ℕ) (type : BlockType)
    → IsValid k a
    → pid ≢ k.pid k.main_process
    → Returns (Blocked (atomic_up k) a pid type) (block_process pid type k)
unfolding block_process atomic_up atomic_down
block_process-Blocked {k} {a} pid type v other =
    let up = IsValid-other (atomic 1 k.atomic) v in
    bind (get_process_by_pid-Lookup up.placed pid) λ p found.
      elim (Bool-cases (p == null || is_blocked (k.state p))) [
        | inl e ↦ rw e (returns (ignored found e))
        | inr e ↦ rw e (block_found-Blocked pid type up other found (ground arith) (ground arith))
      ]
