-- ===== src/Debug/Tests.antt =====
-- The number 4095, and the listings of the kernel, the blocks and a mailbox of the other tests.
use ece_354_real_time_operat.Base.{◌≡◌, some, [], ◌∷◌, ◌++◌, arith, Returns, refl}
use ece_354_real_time_operat.Core.State.{ready_queue, mem_blocked_queue, msg_blocked_queue}
use ece_354_real_time_operat.Core.Tests.{kernel, queues, kernel-IsValid}
use ece_354_real_time_operat.Memory.Init.{numbers}
use ece_354_real_time_operat.Memory.Tests.{start, start-IsPool}
use ece_354_real_time_operat.Messaging.Tests.{one_letter, one_letter-Compact}
use ece_354_real_time_operat.Debug.{push_digits, pop_digits, print_int}
use ece_354_real_time_operat.Debug.Numbers.{Printed, print_int-ascii_to_int}
use ece_354_real_time_operat.Debug.Listings.{
  rule, zero_end, available_title, used_title, said, print_queues, print_mem_blocked,
  print_msg_blocked, print_availible_mem_queue, print_used_mem_queue, print_mailbox,
}
use ece_354_real_time_operat.Debug.Queues.{queue_items, print_queues-queue_items}
use ece_354_real_time_operat.Debug.Blocks.{block_items, print_mem_queues-block_items}
use ece_354_real_time_operat.Debug.Mailboxes.{
  envelope_items, no_entries, print_mailbox-envelope_items,
}

digits_test : print_int 4095 ≡ some (0x34 ∷ 0x30 ∷ 0x39 ∷ 0x35 ∷ 0 ∷ [])
unfolding print_int push_digits pop_digits
digits_test = refl

print_int-ascii_to_int_example : Returns (Printed 4095) (print_int 4095)
print_int-ascii_to_int_example = print_int-ascii_to_int 4095 (omega arith)

print_queues-queue_items_example :
    (print_queues kernel ≡ some (queue_items ready_queue kernel.pid queues))
    × (print_mem_blocked kernel ≡ some (queue_items mem_blocked_queue kernel.pid queues))
    × (print_msg_blocked kernel ≡ some (queue_items msg_blocked_queue kernel.pid queues))
print_queues-queue_items_example = print_queues-queue_items kernel queues kernel-IsValid.placed.held

blocks_test :
    (print_availible_mem_queue start
      ≡ some (
          said rule
          ∷ said available_title
          ∷ (block_items start.pid (1 ∷ numbers 29 2) ++ (said zero_end ∷ said rule ∷ []))))
    × (print_used_mem_queue start
        ≡ some (said rule ∷ said used_title ∷ said zero_end ∷ said rule ∷ []))
blocks_test = print_mem_queues-block_items start-IsPool

mailbox_test : print_mailbox start one_letter ≡ envelope_items start (1000 ∷ []) ++ no_entries 29
mailbox_test =
    print_mailbox-envelope_items start one_letter (1000 ∷ []) one_letter-Compact (omega arith)
