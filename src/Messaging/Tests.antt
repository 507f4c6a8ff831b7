-- ===== src/Messaging/Tests.antt =====
-- The handlers at the kernel of the tests, where process 7 runs and process 9 waits for a message.
use ece_354_real_time_operat.Base.{
  ℕ, ◌+◌, ◌≡◌, refl, some, [], ◌∷◌, arith, ◌==◌, if◌then◌else◌, Returns, value_or,
}
use ece_354_real_time_operat.Chain.Find.{find, find_first}
use ece_354_real_time_operat.Core.Interrupts.{atomic_up}
use ece_354_real_time_operat.Core.Lookup.{get_process_by_pid, get_current_pid, is_pid_valid}
use ece_354_real_time_operat.Core.Blocking.{unblock_process_by_pid}
use ece_354_real_time_operat.Core.Tests.{kernel, kernel-IsValid, kernel-IsTop}
use ece_354_real_time_operat.Memory.State.{Memory, IsPool}
use ece_354_real_time_operat.Memory.Queues.{
  reassign_mem_block, void_to_block, init_memory, init_loop, zero_memory,
}
use ece_354_real_time_operat.Memory.Tests.{start, start-IsPool}
use ece_354_real_time_operat.Memory.Tests.Calls.{system}
use ece_354_real_time_operat.Memory.Init.{numbers}
use ece_354_real_time_operat.Messaging.Words.{tx, rx, get_field, set_field, store_word}
use ece_354_real_time_operat.Messaging.Boxes.{Box, put_from}
use ece_354_real_time_operat.Messaging.Boxes.Compact.{Compact}
use ece_354_real_time_operat.Messaging.Handlers.{
  fill_header, send_message, receive_message, delayed_send, is_due, timer_isr, check_from,
  check_fuel,
}
use ece_354_real_time_operat.Messaging.Headers.{IsPool-other}
use ece_354_real_time_operat.Messaging.Calls.{
  Sent, send_message-Sent, Delayed, delayed_send-Delayed, Received, receive_message-Received,
}
use ece_354_real_time_operat.Messaging.Exchanges.{send_message-receive_message}
use ece_354_real_time_operat.Messaging.Awake.{HasDistinctPids}
use ece_354_real_time_operat.Messaging.Scans.{Scanned, length-passing, check_from-Scanned}
use ece_354_real_time_operat.Messaging.Ticks.{Ticked, timer_isr-Ticked}
use ece_354_real_time_operat.Messaging.Delivers.{IsAt}
use ece_354_real_time_operat.System.{System}

-- A message to the running process, at the address of block 1.
abbrev letter : Memory
letter = set_field 1000 rx 7 start

letter-IsPool : IsPool letter (1 ∷ numbers 29 2) []
unfolding set_field
letter-IsPool = IsPool-other start.pid (store_word (1000 + rx) 7 start.bytes) start-IsPool

-- A mailbox with this message.
abbrev pub one_letter : Box
one_letter = λ i. if i == 0 then 1000 else 0

pub one_letter-Compact : Compact one_letter 0 (1000 ∷ [])
one_letter-Compact = (refl, ground arith, λ j h. ground arith)

abbrev received_letter : System
received_letter = record (system letter) { mailbox = one_letter }

abbrev late_letter : System
late_letter = record (system letter) { delayed_mailbox = one_letter }

pub kernel-HasDistinctPids : HasDistinctPids kernel
kernel-HasDistinctPids = record {
  distinct = λ p q h h' u u' e. ground arith;
  main_low = omega arith;
}

send_message-Sent_example :
    Returns
      (Sent (system start) kernel-IsValid start-IsPool [] 9 1000)
      (send_message 9 1000 (system start))
unfolding get_current_pid atomic_up
send_message-Sent_example =
    send_message-Sent (system start) kernel-IsValid start-IsPool [] 9 1000 (λ j h. refl)
      (omega arith) (omega arith) (omega arith)

delayed_send-Delayed_example :
    Returns
      (Delayed (system start) kernel-IsValid start-IsPool [] 9 1000 5)
      (delayed_send 9 1000 5 (system start))
unfolding get_current_pid atomic_up
delayed_send-Delayed_example =
    delayed_send-Delayed (system start) kernel-IsValid start-IsPool [] 9 1000 5 (λ j h. refl)
      (omega arith) (omega arith) (omega arith)

receive_message-Received_example :
    Returns
      (Received received_letter kernel-IsValid letter-IsPool (1000 ∷ []))
      (receive_message received_letter)
unfolding get_current_pid atomic_up
receive_message-Received_example =
    receive_message-Received received_letter kernel-IsValid letter-IsPool (1000 ∷ [])
      one_letter-Compact (omega arith) (ground arith)

timer_isr-Ticked_example :
    Returns (Ticked (record late_letter { ticks = 1 }) [] (1000 ∷ [])) (timer_isr late_letter)
timer_isr-Ticked_example =
    timer_isr-Ticked late_letter [] (1000 ∷ []) kernel-IsValid kernel-IsTop kernel-HasDistinctPids
      (λ j h. refl) one_letter-Compact (omega arith) (omega arith)

-- The loop in front of the message.
late-IsAt : IsAt kernel 0 4 [] (1000 ∷ []) [] late_letter
late-IsAt = record {
  awake = record {
    queues = _;
    valid = kernel-IsValid;
    same_pid = refl;
    same_priority = refl;
    same_main = refl;
    same_running = refl;
    keeps = λ x other h. h;
    above = λ j before below. kernel-IsTop j before;
  };
  passed = refl;
  coming = one_letter-Compact;
  inbox = λ j h. refl;
}

check_from-Scanned_test :
    Returns (Scanned kernel [] (1000 ∷ []) [] late_letter) (check_from check_fuel 0 4 late_letter)
check_from-Scanned_test =
    check_from-Scanned kernel check_fuel 0 4 [] (1000 ∷ []) [] late_letter kernel-HasDistinctPids
      late-IsAt (omega arith)
      (let h = length-passing (is_due late_letter) (1000 ∷ []) in omega arith) (omega arith)

-- Process 7 sends to itself.
abbrev mailed : ℕ × System
mailed = value_or (9, system start) (send_message 7 1000 (system start))

mailed_test : send_message 7 1000 (system start) ≡ some (0, mailed.1)
unfolding send_message fill_header put_from is_pid_valid get_process_by_pid get_current_pid
    reassign_mem_block void_to_block find init_memory init_loop unblock_process_by_pid set_field
    zero_memory
mailed_test = refl

abbrev collecting : System
collecting = record (system start) { memory = mailed.1.memory; mailbox = mailed.1.mailbox }

send_message-receive_message_example :
    Returns
      (λ (answer, t').
        (answer ≡ 1000)
        × (get_field answer tx t'.memory ≡ get_current_pid kernel)
        × Compact t'.mailbox 0 [])
      (receive_message collecting)
unfolding get_current_pid find_first
send_message-receive_message_example =
    send_message-receive_message (system start) mailed.1 collecting [] 7 1000 kernel-IsValid
      start-IsPool (λ j h. refl) (omega arith) (omega arith) (omega arith) mailed_test
      kernel-IsValid refl refl refl (ground arith) refl
