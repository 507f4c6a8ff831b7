-- ===== src/Stress/Processes.antt =====
-- The loops of stress_a, stress_b and stress_c. A message is a number that stands for its envelope while
-- it is under way; what a process reads there is an argument. Each process has the messages and the
-- blocks that it gets as lists, and waits for ever where a list has ended.
use ece_354_real_time_operat.Pids.{stress_b_pid, stress_c_pid, kcd_pid, crt_pid}
use ece_354_real_time_operat.Keyboard.{type_register_cmd}
use ece_354_real_time_operat.Base.{
  ℕ, zero, suc, ◌+◌, ◌%◌, ◌^◌, Bool, ◌&&◌, Option, none, some, List, [], ◌∷◌, ◌++◌, ◌==◌,
  if◌then◌else◌, ◌>>=◌,
}
use ece_354_real_time_operat.Chain.{null}
use ece_354_real_time_operat.Strings.{text, str_copy}
use ece_354_real_time_operat.Stress.{LocalQueue, enqueue_local_msg, next_msg}

-- The two fields of num_message that the processes read and write.
pub record NumMessage : Type 0 where
  pub type : ℕ
  pub msg : ℕ

abbrev pub type_count_report : ℕ
type_count_report = 4

abbrev pub type_wakeup10 : ℕ
type_wakeup10 = 5

-- What a process asks of the executive: to get a block, to give one back, to send a text or a number
-- in the block that it has got, to send on what it has received, to send with a delay, or to give
-- up the processor.
pub data Call : Type 0 where
  requested : ℕ → Call
  released : ℕ → Call
  sent_text : ℕ → ℕ → ℕ → (ℕ → ℕ) → Call
  sent_number : ℕ → ℕ → NumMessage → Call
  sent_on : ℕ → ℕ → Call
  sent_late : ℕ → ℕ → ℕ → ℕ → Call
  gave_way : Call

-- Enough for the copies of the two texts below.
abbrev pub text_fuel : ℕ
text_fuel = 12

abbrev pub cleared_text : ℕ → ℕ
cleared_text i = 0

-- "%Z" and "Process C\r\n".
abbrev pub z_chars : List ℕ
z_chars = 0x25 ∷ 0x5A ∷ []

abbrev pub z_text : ℕ → ℕ
z_text = text z_chars

abbrev pub c_chars : List ℕ
c_chars = 0x50 ∷ 0x72 ∷ 0x6F ∷ 0x63 ∷ 0x65 ∷ 0x73 ∷ 0x73 ∷ 0x20 ∷ 0x43 ∷ 0x0D ∷ 0x0A ∷ []

abbrev pub c_text : ℕ → ℕ
c_text = text c_chars

-- The start of stress_a, in the block that it gets first.
unfoldable pub register_z : ℕ → Option (List Call)
register_z reg_cmd = do
  msg ← str_copy text_fuel z_text cleared_text
  some (requested reg_cmd ∷ sent_text kcd_pid reg_cmd type_register_cmd msg ∷ [])

abbrev pub is_z : (ℕ → ℕ) → Bool
is_z msg = msg 0 == 0x25 && msg 1 == 0x5A

-- The first loop of stress_a: the messages before %Z are given back, and so is %Z.
unfoldable pub await_z : (ℕ → ℕ → ℕ) → List ℕ → Option (List Call)
await_z msg [] = none
await_z msg (msg_rx ∷ inbox) =
    let rest = (do calls ← await_z msg inbox; some (released msg_rx ∷ calls)) in
    if is_z (msg msg_rx) then some (released msg_rx ∷ []) else rest

-- The second loop of stress_a, once for each block that it gets, from the number `num` on.
unfoldable pub count_from : ℕ → List ℕ → List Call
count_from num [] = []
count_from num (num_msg ∷ grants) =
    requested num_msg
    ∷ sent_number stress_b_pid num_msg (record { type = type_count_report; msg = num })
    ∷ gave_way
    ∷ count_from ((num + 1) % 2 ^ 32) grants

unfoldable pub stress_a : (ℕ → ℕ → ℕ) → ℕ → List ℕ → List ℕ → Option (List Call)
stress_a msg reg_cmd inbox grants = do
  registration ← register_z reg_cmd
  waiting ← await_z msg inbox
  some (registration ++ (waiting ++ count_from 0 grants))

-- stress_b.
unfoldable pub stress_b : List ℕ → List Call
stress_b [] = []
stress_b (msg_rx ∷ inbox) = sent_on stress_c_pid msg_rx ∷ stress_b inbox

-- stress_c: its queue, its variable `hibernate`, and the messages and blocks that it gets.
pub record StressC : Type 0 where
  pub queue : LocalQueue
  pub hibernate : ℕ
  pub inbox : List ℕ
  pub grants : List ℕ

abbrev pub receive : StressC → Option (ℕ × StressC)
receive s = receive_from s.inbox
  where
    receive_from : List ℕ → Option (ℕ × StressC)
    receive_from [] = none
    receive_from (msg ∷ inbox) = some (msg, record s { inbox = inbox })

abbrev pub request : StressC → Option (ℕ × StressC)
request s = request_from s.grants
  where
    request_from : List ℕ → Option (ℕ × StressC)
    request_from [] = none
    request_from (block ∷ grants) = some (block, record s { grants = grants })

-- The inner loop: messages go to the queue until one is a wake-up.
unfoldable pub sleep : (ℕ → NumMessage) → List ℕ → LocalQueue → Option (LocalQueue × List ℕ)
sleep content [] q = none
sleep content (msg_wake ∷ inbox) q =
    let rest = sleep content inbox (enqueue_local_msg msg_wake q) in
    if (content msg_wake).type == type_wakeup10 then some (q, inbox) else rest

-- The text to the display, the delayed message to itself, and the inner loop.
unfoldable pub announce : (ℕ → NumMessage) → StressC → Option (List Call × StressC)
announce content s = do
  r ← request s
  msg ← str_copy text_fuel c_text cleared_text
  r' ← request r.1
  w ← sleep content r'.1.inbox r'.1.queue
  some (
    requested r.0
        ∷ sent_text crt_pid r.0 0 msg
        ∷ requested r'.0
        ∷ sent_late stress_c_pid r'.0 type_wakeup10 10000
        ∷ [],
    record r'.1 { queue = w.0; inbox = w.1; hibernate = r'.0 },
  )

-- The start of a round.
unfoldable pub fetch : StressC → Option (ℕ × StressC)
fetch s =
    if s.queue.msgq_head == null
    then receive s
    else some ((next_msg 0 s.queue).0, record s { queue = (next_msg 0 s.queue).1 })

abbrev pub is_announced : NumMessage → Bool
is_announced m = m.type == type_count_report && m.msg % 20 == 0

-- A round of the loop of stress_c.
unfoldable pub stress_c_round : (ℕ → NumMessage) → StressC → Option (List Call × StressC)
stress_c_round content s = do
  r ← fetch s
  w ← (if is_announced (content r.0) then announce content r.1 else some ([], r.1))
  some (released r.0 ∷ (w.0 ++ (released w.1.hibernate ∷ gave_way ∷ [])), w.1)

unfoldable pub stress_c_rounds : (ℕ → NumMessage) → ℕ → StressC → Option (List Call × StressC)
stress_c_rounds content zero s = some ([], s)
stress_c_rounds content (suc n) s = do
  r ← stress_c_round content s
  r' ← stress_c_rounds content n r.1
  some (r.0 ++ r'.0, r'.1)
