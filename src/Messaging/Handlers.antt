-- ===== src/Messaging/Handlers.antt =====
-- send_message_handler, receive_message_handler and delayed_send_handler, with the arguments that the
-- callers leave in the registers, and check_existing_delayed_message. Each returns the value that
-- its caller finds in d6.
use ece_354_real_time_operat.Base.{
  ℕ, zero, suc, ◌+◌, ◌-◌, ◌%◌, ◌^◌, Bool, true, false, not, ◌&&◌, Option, none, some, ◌==◌, ltb,
  leb, if◌then◌else◌, update, ◌>>=◌,
}
use ece_354_real_time_operat.Core.State.{Kernel, msg}
use ece_354_real_time_operat.Core.Interrupts.{atomic_up, atomic_down}
use ece_354_real_time_operat.Core.Lookup.{
  get_current_pid, is_pid_valid, is_process_blocked, get_process_priority,
}
use ece_354_real_time_operat.Core.Switch.{release_processor}
use ece_354_real_time_operat.Core.Blocking.{block_process, unblock_process_by_pid}
use ece_354_real_time_operat.Memory.State.{Memory, mem_block_count}
use ece_354_real_time_operat.Memory.Queues.{reassign_mem_block}
use ece_354_real_time_operat.Messaging.Words.{tx, rx, send_time, get_field, set_field}
use ece_354_real_time_operat.Messaging.Boxes.{put_from, shift_from, take_from}
use ece_354_real_time_operat.System.{System}

-- The arrays of init_messaging, which malloc and its loop have cleared.
unfoldable pub init_messaging : System → System
init_messaging s = record s { mailbox = λ i. 0; delayed_mailbox = λ i. 0 }

-- The part of the header that both ways to send fill out: the receiver, who owns the block from now
-- on, and the sender.
unfoldable pub fill_header : ℕ → ℕ → ℕ → Memory → Option Memory
fill_header current_pid process_id envelope m = do
  m1 ← reassign_mem_block envelope process_id (set_field envelope rx process_id m)
  some (set_field envelope tx current_pid m1)

unfoldable pub send_message : ℕ → ℕ → System → Option (ℕ × System)
send_message process_id envelope s =
    let k = atomic_up s.kernel in
    if envelope == 0 then some (2, record s { kernel = atomic_down k }) else (do
      valid ← is_pid_valid process_id k
      if not valid then some (1, record s { kernel = atomic_down k }) else (do
        m ← fill_header (get_current_pid k) process_id envelope s.memory
        k1 ← unblock_process_by_pid process_id true (atomic_down k)
        some (
          0,
          record s {
            kernel = k1;
            memory = m;
            mailbox = (put_from mem_block_count 0 envelope s.mailbox).1;
          },
        )))

-- 0 is the answer to a process that has been blocked: receive_message calls the handler again when the
-- process runs next.
unfoldable pub receive_message : System → Option (ℕ × System)
receive_message s =
    let k = atomic_up s.kernel in
    let current_pid = get_current_pid k in
    let (envelope, box) =
      take_from mem_block_count 0 (λ e. get_field e rx s.memory == current_pid) s.mailbox in
    if envelope == 0
    then (do k1 ← block_process current_pid msg (atomic_down k); some (0, record s { kernel = k1 }))
    else some (envelope, record s { kernel = atomic_down k; mailbox = box })

unfoldable pub delayed_send : ℕ → ℕ → ℕ → System → Option (ℕ × System)
delayed_send process_id envelope delay s =
    let k = atomic_up s.kernel in
    if envelope == 0 then some (2, record s { kernel = atomic_down k }) else (do
      valid ← is_pid_valid process_id k
      if not valid then some (1, record s { kernel = atomic_down k }) else (do
        m ← fill_header (get_current_pid k) process_id envelope s.memory
        some (
          0,
          record s {
            kernel = atomic_down k;
            memory = set_field envelope send_time ((delay + s.ticks) % 2 ^ 32) m;
            delayed_mailbox = (put_from mem_block_count 0 envelope s.delayed_mailbox).1;
          },
        )))

-- The two calls of get_process_priority: the lower number is the highest priority so far.
unfoldable pub noted : ℕ → ℕ → Kernel → Option (ℕ × Kernel)
noted receiver highest_priority k = do
  r ← get_process_priority receiver k
  if ltb r.0 highest_priority
      then get_process_priority receiver r.1
      else some (highest_priority, r.1)

-- The end of a round of check_existing_delayed_message: a receiver that is blocked is made ready, and
-- its priority noted if it is the highest so far.
unfoldable pub wake_receiver : ℕ → ℕ → Kernel → Option (ℕ × Kernel)
wake_receiver receiver highest_priority k = do
  blocked ← is_process_blocked receiver k
  if not blocked
      then some (highest_priority, k)
      else (do k1 ← unblock_process_by_pid receiver false k; noted receiver highest_priority k1)

-- A round of the loop at a message that is due: the next `i`, the highest priority, and the state. The
-- place `mailbox[j]` is read also if the mailbox is full and `j` is the place behind it.
unfoldable pub deliver : ℕ → ℕ → System → Option (ℕ × ℕ × System)
deliver i highest_priority s =
    let (j, mailbox) = put_from mem_block_count 0 (s.delayed_mailbox i) s.mailbox in
    let moved = if j == mem_block_count then s.delayed_mailbox else update s.delayed_mailbox i 0 in
    let (k, delayed_mailbox) = shift_from (mem_block_count - (i + 1)) i moved in
    let next = if not (k == mem_block_count) && not (k == i + 1) then i else i + 1 in
    do
      r ← wake_receiver (get_field (mailbox j) rx s.memory) highest_priority s.kernel
      some (
        next,
        r.0,
        record s { kernel = r.1; mailbox = mailbox; delayed_mailbox = delayed_mailbox },
      )

abbrev pub is_due : System → ℕ → Bool
is_due s envelope = leb (get_field envelope send_time s.memory) s.ticks

unfoldable pub check_round : ℕ → ℕ → System → Option (ℕ × ℕ × System)
check_round i highest_priority s =
    if not (s.delayed_mailbox i == 0) && is_due s (s.delayed_mailbox i)
    then deliver i highest_priority s
    else some (i + 1, highest_priority, s)

-- The loop of check_existing_delayed_message; none if it does not end within the fuel.
unfoldable pub check_from : ℕ → ℕ → ℕ → System → Option (ℕ × System)
check_from zero i highest_priority s = none
check_from (suc fuel) i highest_priority s =
    let rest = (do r ← check_round i highest_priority s; check_from fuel r.0 r.1 r.2) in
    if leb mem_block_count i then some (highest_priority, s) else rest

-- A round moves on in the array or takes a message out of it, so 60 rounds are the most.
abbrev pub check_fuel : ℕ
check_fuel = 61

unfoldable pub check_existing_delayed_message : System → Option System
check_existing_delayed_message s = do
  r ← check_from check_fuel 0 4 s
  p ← get_process_priority (get_current_pid r.1.kernel) r.1.kernel
  if ltb r.0 p.0
      then (do k ← release_processor p.1; some (record r.1 { kernel = k }))
      else some (record r.1 { kernel = p.1 })

-- timer/timer.c.
unfoldable pub timer_isr : System → Option System
timer_isr s = check_existing_delayed_message (record s { ticks = (s.ticks + 1) % 2 ^ 32 })
