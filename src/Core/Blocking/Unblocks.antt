-- ===== src/Core/Blocking/Unblocks.antt =====
-- A process between the queue it has left and the ready queue it goes to, in
-- unblock_process_by_pid and unblock_process_by_type of core/core.c.
use ece_354_real_time_operat.Base.{
  ℕ, ◌<◌, ◌≡◌, sym, ap, ◌∙◌, ◌≢◌, inl, inr, true, false, [], arith, ◌==◌, update, Returns,
}
use ece_354_real_time_operat.Chain.{Ptr, null, has, erase}
use ece_354_real_time_operat.Core.State.{
  ProcessState, BlockType, mem, msg, new, ready, blocked_mem, blocked_msg, QueueName, ready_queue,
  Links, Kernel, levels, pcb_limit, Queues, Waits, Holds, place_cases,
}
use ece_354_real_time_operat.Core.Queues.{queue_of, enqueue_process}
use ece_354_real_time_operat.Core.Queues.Placed.{
  Relinked, appended, removed, removed-IsPlaced, removed-Waits, enqueue_process-IsPlaced,
  set_state-IsPlaced, Waits-appended, Waits-removed,
}
use ece_354_real_time_operat.Core.Lookup.{is_blocked}
use ece_354_real_time_operat.Core.Invariant.{IsPlaced, IsValid}
use ece_354_real_time_operat.Core.Blocking.{block_queue}

-- A process `p` that has just left its queue, and the running process.
pub record IsLoose (k : Kernel) (a : Queues) (p : Ptr) : Type 0 where
  pub valid : IsValid k a
  pub live : p ≢ null
  pub other : p ≢ k.main_process
  pub idle : p ≢ k.running_process
  pub waits : Waits a p
  pub low : p < pcb_limit
  pub level : k.priority p < levels

-- The kernel once the process is in the ready queue.
abbrev pub readied : Kernel → Ptr → Links → Kernel
readied k p l = record k { links = l; state = update k.state p ready }

pub readied-IsValid :
    {k : Kernel} {a : Queues} {p : Ptr} {l : Links}
    → IsLoose k a p
    → IsPlaced (readied k p l) (appended ready_queue (k.priority p) p a)
    → IsValid (readied k p l) (appended ready_queue (k.priority p) p a)
readied-IsValid {k} {a} {p} v placed =
    let apart : (p == k.running_process) ≡ false = let idle = v.idle in ground arith in
    record {
      placed = placed;
      running = record {
        live = v.valid.running.live;
        waits =
            Waits-appended a ready_queue (k.priority p) p k.running_process v.valid.running.waits
              (λ e. v.idle (sym e));
        is_ready = rw apart v.valid.running.is_ready;
        low = v.valid.running.low;
        level = v.valid.running.level;
      };
    }

-- What the enqueueing in make_ready gives.
pub make_ready_step :
    {k : Kernel} {a : Queues} (p : Ptr)
    → IsLoose k a p
    → Returns
        (Relinked
          (record k { state = update k.state p ready })
          (appended ready_queue (k.priority p) p a))
        (enqueue_process ready_queue p (record k { state = update k.state p ready }))
unfolding queue_of
make_ready_step {k} p v =
    let self : (p == p) ≡ true = ground arith in
    enqueue_process-IsPlaced ready_queue p
      (set_state-IsPlaced p ready v.valid.placed v.waits v.other) v.live v.other v.waits v.low
      v.level (rw self)

pub removed_stays_empty :
    (a : Queues) (q : QueueName) (p : Ptr) (i j : ℕ)
    → a ready_queue j ≡ []
    → removed q i p a ready_queue j ≡ []
unfolding erase
removed_stays_empty a q p i j e = elim (place_cases q i ready_queue j) [
  | inl (hit, eq, ei) ↦ rw (hit, eq, ei, e)
  | inr miss ↦ rw miss e
]

-- A blocked process that has been taken out of its queue.
pub removed-IsLoose :
    {k : Kernel} {a : Queues} {l : Links} (q : QueueName) (i : ℕ) (p : Ptr)
    → IsValid k a
    → has p (a q i) ≡ true
    → p ≢ null
    → k.state p ≢ ready
    → Holds l (removed q i p a)
    → IsLoose (record k { links = l }) (removed q i p a) p
removed-IsLoose {k} {a} {l} q i p v inside live blocked held =
    let (at, prio, level) = v.placed.placed q i p inside in
    record {
      valid = record {
        placed = removed-IsPlaced q p v.placed i held;
        running = record {
          live = v.running.live;
          waits = Waits-removed a q i p k.running_process v.running.waits;
          is_ready = v.running.is_ready;
          low = v.running.low;
          level = v.running.level;
        };
      };
      live = live;
      other = λ e. blocked (ap k.state e ∙ v.placed.main_ready);
      idle = λ e. blocked (ap k.state e ∙ v.running.is_ready);
      waits = removed-Waits q p v.placed i inside;
      low = v.placed.held.small q i p inside;
      level = rw prio level;
    }

pub blocked_not_ready : (s : ProcessState) → is_blocked s ≡ true → s ≢ ready
blocked_not_ready new h = cc
blocked_not_ready ready h = cc
blocked_not_ready blocked_mem h = λ e. cc
blocked_not_ready blocked_msg h = λ e. cc

pub blocked_queue_state :
    (type : BlockType) (s : ProcessState) → queue_of s ≡ block_queue type → s ≢ ready
unfolding queue_of block_queue
blocked_queue_state mem s h e = cc
blocked_queue_state msg s h e = cc
