-- ===== src/Stress.antt =====
-- stress/stress.c: the local queue of stress_c, which keeps the messages that arrive while the process
-- waits for its own delayed message, and handles them later.
pub mod Queue
pub mod Drains
pub mod Processes
pub mod Handled
pub mod Rounds
pub mod Reports
mod Tests
use ece_354_real_time_operat.Base.{
  ℕ, zero, suc, ◌+◌, Bool, List, [], ◌∷◌, ◌==◌, if◌then◌else◌, update,
}
use ece_354_real_time_operat.Chain.{Ptr, null}

-- The fields of the msg_q items, msgq_head and msgq_tail, and the item that malloc gives next.
pub record LocalQueue : Type 0 where
  pub env : Ptr → ℕ
  pub next : Ptr → Ptr
  pub msgq_head : Ptr
  pub msgq_tail : Ptr
  pub fresh : Ptr

unfoldable pub enqueue_local_msg : ℕ → LocalQueue → LocalQueue
enqueue_local_msg msg q =
    let new_item = q.fresh in
    let next = update q.next new_item null in
    let q1 = record q { env = update q.env new_item msg; next = next; fresh = suc new_item } in
    if q.msgq_head == null
    then record q1 { msgq_head = new_item; msgq_tail = new_item }
    else record q1 { next = update next q.msgq_tail new_item; msgq_tail = new_item }

-- The start of a round of stress_c: the first message of the queue, or else `received`, which
-- receive_message gives.
unfoldable pub next_msg : ℕ → LocalQueue → ℕ × LocalQueue
next_msg received q =
    let head = q.next q.msgq_head in
    if q.msgq_head == null then (received, q) else (
      q.env q.msgq_head,
      record q { msgq_head = head; msgq_tail = if head == null then null else q.msgq_tail },
    )

-- The inner loop of stress_c: `msgs` arrive before the message that ends it.
unfoldable pub hibernate : List ℕ → LocalQueue → LocalQueue
hibernate [] q = q
hibernate (msg ∷ msgs) q = hibernate msgs (enqueue_local_msg msg q)
