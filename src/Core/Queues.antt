-- ===== src/Core/Queues.antt =====
-- remove_process, enqueue_process and dequeue_process of core/core.c. `none` is a walk along `next`
-- fields that does not end within `pcb_limit` rounds.
pub mod Holds
pub mod Placed
pub mod TopLevel
use ece_354_real_time_operat.Base.{
  ℕ, zero, suc, ◌+◌, Option, some, ◌==◌, if◌then◌else◌, update, ◌>>=◌,
}
use ece_354_real_time_operat.Chain.{Ptr, null, last, before}
use ece_354_real_time_operat.Core.State.{
  ProcessState, new, ready, blocked_mem, blocked_msg, QueueName, ready_queue, mem_blocked_queue,
  msg_blocked_queue, set_queue, Links, Kernel, levels, pcb_limit,
}

-- The queue array that a process in this state stands in.
unfoldable pub queue_of : ProcessState → QueueName
queue_of blocked_msg = msg_blocked_queue
queue_of blocked_mem = mem_blocked_queue
queue_of new = ready_queue
queue_of ready = ready_queue

-- The body of remove_process, on the queue `queue[priority]`.
unfoldable pub unlink : Links → QueueName → ℕ → Ptr → Option Links
unlink l q i process =
    if l.heads q i == process
    then some (record {
      next = update l.next process null;
      heads = set_queue l.heads q i (l.next process);
    })
    else (do
      cur_proc ← before pcb_limit l.next process (l.heads q i)
      if cur_proc == null
          then some l
          else some
              (record l { next = update (update l.next cur_proc (l.next process)) process null }))

unfoldable pub remove_process : Ptr → Kernel → Option Kernel
remove_process process k = if process == k.running_process then some k else (do
  l ← unlink k.links (queue_of (k.state process)) (k.priority process) process
  some (record k { links = l }))

-- The body of enqueue_process, on the queue `queue[priority]`.
unfoldable pub link_last : Links → QueueName → ℕ → Ptr → Option Links
link_last l q i process =
    if l.heads q i == null
    then some (record { next = update l.next process null; heads = set_queue l.heads q i process })
    else (do
      proc ← last pcb_limit l.next (l.heads q i)
      some (record l { next = update (update l.next proc process) process null }))

unfoldable pub enqueue_process : QueueName → Ptr → Kernel → Option Kernel
enqueue_process q process k =
    if process == null
    then some k
    else (do l ← link_last k.links q (k.priority process) process; some (record k { links = l }))

-- `for (i = 0; i < 5; i ++) if (queue[i]) break;`
unfoldable pub first_level : ℕ → ℕ → (ℕ → Ptr) → ℕ
first_level zero i queue = i
first_level (suc rounds) i queue =
    let rest = first_level rounds (i + 1) queue in if queue i == null then rest else i

-- The process at the head of the first queue that is not empty, taken out; NULL if all are empty.
unfoldable pub unlink_first : Links → QueueName → ℕ → Ptr × Links
unlink_first l q i = if i == levels then (null, l) else (
  l.heads q i,
  record {
    next = update l.next (l.heads q i) null;
    heads = set_queue l.heads q i (l.next (l.heads q i));
  },
)

unfoldable pub dequeue_process : QueueName → Kernel → Ptr × Kernel
dequeue_process q k =
    let (process, l) = unlink_first k.links q (first_level levels 0 (k.links.heads q)) in
    (process, record k { links = l })
