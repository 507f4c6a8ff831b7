-- ===== src/Debug/Listings.antt =====
-- The listings of the queues, the blocks, the mailboxes and the commands. Each item is a string of the
-- code, named by what it says, a number that print_int writes, or a character.
use ece_354_real_time_operat.Base.{
  ℕ, zero, suc, ◌+◌, Option, none, some, List, [], ◌∷◌, ◌++◌, ◌==◌, if◌then◌else◌, ◌>>=◌,
}
use ece_354_real_time_operat.Chain.{Ptr, null}
use ece_354_real_time_operat.Core.State.{
  QueueName, ready_queue, mem_blocked_queue, msg_blocked_queue, Kernel, levels, pcb_limit,
  minus_one,
}
use ece_354_real_time_operat.Memory.State.{Memory, mem_block_count, block_limit}
use ece_354_real_time_operat.Memory.Queues.{get_block_number}
use ece_354_real_time_operat.Messaging.Words.{tx, rx, type, get_field}
use ece_354_real_time_operat.Messaging.Boxes.{Box}
use ece_354_real_time_operat.Keyboard.{Kcd, RegCmd, kcd_buffer_size}
use ece_354_real_time_operat.Debug.{outs_from}

pub data Label : Type 0 where
  rule arrow line_end zero_end : Label
  printing : QueueName → Label
  invalid_process process_id_is priority_is next_null next_is : Label
  available_title used_title pid_is pid_minus_one block_start_is : Label
  sender_is receiver_is process_type_is no_entry null_entry : Label
  buffer_title commands_title : Label

pub data Out : Type 0 where
  said : Label → Out
  number : ℕ → Out
  char : ℕ → Out

-- rtx_dbug_outs_int.
abbrev pub outs_int : Label → ℕ → List Out
outs_int s n = said s ∷ number n ∷ said line_end ∷ []

-- The inner loop of print_queues, print_mem_blocked and print_msg_blocked.
unfoldable pub print_chain : ℕ → (Ptr → Ptr) → (Ptr → ℕ) → Ptr → Option (List Out)
print_chain zero next pid process = none
print_chain (suc fuel) next pid process =
    let rest = (do
      os ← print_chain fuel next pid (next process)
      some (number (pid process) ∷ said arrow ∷ os)) in
    if process == null then some [] else rest

-- The outer loop, with `rounds` levels left.
unfoldable pub print_levels : ℕ → ℕ → QueueName → Kernel → Option (List Out)
print_levels zero i q k = some []
print_levels (suc rounds) i q k = do
  os ← print_chain pcb_limit k.links.next k.pid (k.links.heads q i)
  rest ← print_levels rounds (i + 1) q k
  some (outs_int (printing q) i ++ (os ++ (said line_end ∷ rest)))

-- Between the two rules.
abbrev pub ruled : Option (List Out) → Option (List Out)
ruled m = do os ← m; some (said rule ∷ (os ++ (said rule ∷ [])))

unfoldable pub print_queues : Kernel → Option (List Out)
print_queues k = ruled (print_levels levels 0 ready_queue k)

unfoldable pub print_mem_blocked : Kernel → Option (List Out)
print_mem_blocked k = ruled (print_levels levels 0 mem_blocked_queue k)

unfoldable pub print_msg_blocked : Kernel → Option (List Out)
print_msg_blocked k = ruled (print_levels levels 0 msg_blocked_queue k)

-- print_process, as it is with _CORE_DEBUG.
unfoldable pub print_process : Ptr → Kernel → List Out
print_process process k =
    let after =
      if k.links.next process == null
      then said next_null ∷ []
      else outs_int next_is (k.pid (k.links.next process)) in
    if process == null
    then said rule ∷ said invalid_process ∷ []
    else said rule
      ∷ (outs_int process_id_is (k.pid process)
          ++ (outs_int priority_is (k.priority process) ++ (after ++ (said rule ∷ []))))

-- The owner of a block, its number, and an arrow.
abbrev pub print_block : Ptr → Memory → List Out
print_block queue m =
    (if m.pid queue == minus_one then said pid_minus_one ∷ [] else outs_int pid_is (m.pid queue))
    ++ (outs_int block_start_is (get_block_number queue m) ++ (said arrow ∷ []))

-- The loop of print_availible_mem_queue and print_used_mem_queue.
unfoldable pub print_blocks : ℕ → Memory → Ptr → Option (List Out)
print_blocks zero m queue = none
print_blocks (suc fuel) m queue =
    let rest = (do os ← print_blocks fuel m (m.next queue); some (print_block queue m ++ os)) in
    if queue == null then some [] else rest

unfoldable pub print_availible_mem_queue : Memory → Option (List Out)
print_availible_mem_queue m = do
  os ← print_blocks block_limit m m.available
  some (said rule ∷ said available_title ∷ (os ++ (said zero_end ∷ said rule ∷ [])))

unfoldable pub print_used_mem_queue : Memory → Option (List Out)
print_used_mem_queue m = do
  os ← print_blocks block_limit m m.used
  some (said rule ∷ said used_title ∷ (os ++ (said zero_end ∷ said rule ∷ [])))

-- The header of an envelope.
abbrev pub print_envelope : ℕ → Memory → List Out
print_envelope envelope m =
    outs_int sender_is (get_field envelope tx m)
    ++ (outs_int receiver_is (get_field envelope rx m)
        ++ outs_int process_type_is (get_field envelope type m))

-- The loop of printMailbox.
unfoldable pub print_mailbox_from : ℕ → ℕ → Memory → Box → List Out
print_mailbox_from zero i m mailbox = []
print_mailbox_from (suc rounds) i m mailbox =
    (if mailbox i == 0 then said no_entry ∷ [] else print_envelope (mailbox i) m)
    ++ print_mailbox_from rounds (i + 1) m mailbox

unfoldable pub print_mailbox : Memory → Box → List Out
print_mailbox m mailbox = print_mailbox_from mem_block_count 0 m mailbox

-- The loop of printDelayedMailbox, which reads the header of an empty place too.
unfoldable pub print_delayed_from : ℕ → ℕ → Memory → Box → List Out
print_delayed_from zero i m delayed_mailbox = []
print_delayed_from (suc rounds) i m delayed_mailbox =
    print_envelope (delayed_mailbox i) m
    ++ ((if delayed_mailbox i == 0 then said null_entry ∷ [] else [])
        ++ print_delayed_from rounds (i + 1) m delayed_mailbox)

unfoldable pub print_delayed_mailbox : Memory → Box → List Out
print_delayed_mailbox m delayed_mailbox = print_delayed_from mem_block_count 0 m delayed_mailbox

abbrev pub characters : List ℕ → List Out
characters [] = []
characters (c ∷ cs) = char c ∷ characters cs

-- The loop of output_kcd_buffer.
unfoldable pub output_from : ℕ → ℕ → (ℕ → ℕ) → List Out
output_from zero i kcd_buffer = []
output_from (suc rounds) i kcd_buffer = char (kcd_buffer i) ∷ output_from rounds (i + 1) kcd_buffer

unfoldable pub output_kcd_buffer : Kcd → List Out
output_kcd_buffer k =
    said rule
    ∷ said buffer_title
    ∷ (output_from kcd_buffer_size 0 k.buffer ++ (said line_end ∷ said rule ∷ []))

-- The loop of print_cmds.
unfoldable pub print_commands : ℕ → List RegCmd → Option (List Out)
print_commands fuel [] = some []
print_commands fuel (check_cmds ∷ next) = do
  cs ← outs_from fuel 0 check_cmds.cmd
  rest ← print_commands fuel next
  some (characters cs ++ (said line_end ∷ rest))

unfoldable pub print_cmds : ℕ → Kcd → Option (List Out)
print_cmds fuel k = do
  os ← print_commands fuel k.cmds
  some (said rule ∷ said commands_title ∷ (os ++ (said rule ∷ [])))
