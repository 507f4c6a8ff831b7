-- ===== src/Executive/Tests.antt =====
-- Calls after start-up; and a block that is granted to the running process of the tests of the kernel,
-- sent to itself, and received.
use ece_354_real_time_operat.Core.Tests.{kernel}
use ece_354_real_time_operat.Core.Tests.{queues}
use ece_354_real_time_operat.Chain.{has}
use ece_354_real_time_operat.Chain.{Ptr}
use ece_354_real_time_operat.Startup.Reaches.{IsAccounted}
use ece_354_real_time_operat.Core.Queues.{queue_of}
use ece_354_real_time_operat.Base.{
  ◌<◌, false, ◌==◌, Bool-cases, inr, inl, ◌⊎◌, List, ℕ, ◌+◌, ◌≡◌, refl, ◌≢◌, arith, some, [], ◌∷◌,
  Returns, Returns-some, Returns-at, value_or, sym, ap, ◌∙◌,
}
use ece_354_real_time_operat.Core.Interrupts.{atomic_up, atomic_down, atomic, set_mask}
use ece_354_real_time_operat.Core.Lookup.{get_process_by_pid, get_current_pid, is_pid_valid}
use ece_354_real_time_operat.Chain.{last}
use ece_354_real_time_operat.Chain.Find.{find}
use ece_354_real_time_operat.Core.State.{minus_one}
use ece_354_real_time_operat.Core.Blocking.{unblock_process_by_pid}
use ece_354_real_time_operat.Core.Tests.{kernel-IsValid, kernel-IsTop}
use ece_354_real_time_operat.Memory.Init.{numbers}
use ece_354_real_time_operat.Memory.Queues.{
  reassign_mem_block, void_to_block, init_memory, init_loop, zero_memory, enqueue_mem_block,
  dequeue_mem_block,
}
use ece_354_real_time_operat.Memory.Handlers.{
  Request, granted, waiting, grant, request_memory_block,
}
use ece_354_real_time_operat.Memory.Tests.{start, start-IsPool, start-IsClean}
use ece_354_real_time_operat.Memory.Tests.Calls.{system}
use ece_354_real_time_operat.Messaging.Words.{set_field, get_field, store_word}
use ece_354_real_time_operat.Messaging.Boxes.{put_from, take_from, shift_from}
use ece_354_real_time_operat.Messaging.Handlers.{send_message, receive_message, fill_header}
use ece_354_real_time_operat.Messaging.Tests.{kernel-HasDistinctPids}
use ece_354_real_time_operat.Startup.{TestProc, main}
use ece_354_real_time_operat.Startup.Boots.{Booted, main-Booted}
use ece_354_real_time_operat.Executive.{request, tick, perform, here, next, IsSound, IsHeld}
use ece_354_real_time_operat.Executive.Counts.{count}
use ece_354_real_time_operat.Executive.Keeps.{request_memory_block-IsSound}
use ece_354_real_time_operat.Executive.Messages.{send_message-IsSound}
use ece_354_real_time_operat.Executive.Reaches.{main-IsSound, main-serves}
use ece_354_real_time_operat.Executive.Holds.{granted-IsHeld, received-IsHeld}
use ece_354_real_time_operat.System.{System}

abbrev code : ℕ → ℕ
code pid = 268435456 + pid

abbrev tests : ℕ → TestProc
tests i = record { priority = 2; entry = 100; sz_stack = 512 }

started : (s : System) × (main code tests 300000 (system start) ≡ some s) × Booted code tests s
started = Returns-some (main-Booted code tests 300000 (system start) (λ i h. omega arith))

-- KCD, which runs first, is not `main`.
kcd_runs : started.0.kernel.running_process ≢ started.0.kernel.main_process
kcd_runs e =
    let same : 10 ≡ minus_one =
      sym started.2.of_kcd ∙ (ap started.0.kernel.pid e ∙ started.2.of_main) in
    omega arith

-- KCD asks for a block.
asked : (s : System) × (perform started.0 (request kcd_runs) ≡ some s) × IsSound [] s
asked = Returns-some (
    main-serves code tests 300000 (system start) (λ i h. omega arith) started.1 here
      (request kcd_runs))

main-IsSound_example : IsSound [] asked.0
main-IsSound_example =
    main-IsSound code tests 300000 (system start) (λ i h. omega arith) started.1
      (next here (request kcd_runs) asked.1)

main-serves_example : Returns (IsSound []) (perform asked.0 tick)
main-serves_example =
    main-serves code tests 300000 (system start) (λ i h. omega arith) started.1
      (next here (request kcd_runs) asked.1) tick

-- Only three processes are left.
abbrev ended : List Ptr
ended = 4 ∷ 5 ∷ 6 ∷ 7 ∷ 8 ∷ 9 ∷ 10 ∷ 11 ∷ 12 ∷ 13 ∷ 14 ∷ 15 ∷ []

three_left : (p : Ptr) → 0 < p → p < 16 → has p ended ≡ false → (p ≡ 1) ⊎ ((p ≡ 2) ⊎ (p ≡ 3))
three_left p live below still = elim (Bool-cases (p == 1)) [
  | inl e ↦ inl (ground arith)
  | inr e ↦ elim (Bool-cases (p == 2)) [
    | inl e' ↦ inr (inl (ground arith))
    | inr e' ↦ inr (inr (ground arith))
  ]
]

three-IsAccounted : (p : Ptr) → (p ≡ 1) ⊎ ((p ≡ 2) ⊎ (p ≡ 3)) → IsAccounted kernel queues p
unfolding queue_of
three-IsAccounted p (inl e) = inl (sym e)
three-IsAccounted p (inr (inl e)) = rw e (inr refl)
three-IsAccounted p (inr (inr e)) = rw e (inr refl)

start-IsSound : IsSound ended (system start)
unfolding count
start-IsSound = record {
  safe = record {
    queues = _;
    valid = kernel-IsValid;
    top = kernel-IsTop;
    distinct = kernel-HasDistinctPids;
    of_main = refl;
    everyone = λ p live below still. three-IsAccounted p (three_left p live below still);
  };
  words = λ p h h'. ground arith;
  available = 1 ∷ numbers 29 2;
  used = [];
  pool = start-IsPool;
  clean = start-IsClean;
  messages = [];
  waiting = [];
  inbox = λ j h. refl;
  later = λ j h. refl;
  held = λ e. omega arith;
  few = omega arith;
}

-- Process 7 gets block 1.
abbrev granted_block : Request × System
granted_block = value_or (waiting, system start) (request_memory_block (system start))

granted_test : request_memory_block (system start) ≡ some (granted 1000, granted_block.1)
unfolding request_memory_block grant enqueue_mem_block dequeue_mem_block init_memory init_loop
    zero_memory last
granted_test = refl

granted-IsHeld_example : IsHeld granted_block.1 1000
granted-IsHeld_example = granted-IsHeld start-IsSound (ground arith) (omega arith) granted_test

granted-IsSound : IsSound ended granted_block.1
granted-IsSound =
    Returns-at (request_memory_block-IsSound start-IsSound (ground arith)) granted_test

-- It sends the block to itself.
abbrev sent_block : ℕ × System
sent_block = value_or (9, system start) (send_message 7 1000 granted_block.1)

sent_test : send_message 7 1000 granted_block.1 ≡ some (0, sent_block.1)
unfolding request_memory_block grant enqueue_mem_block dequeue_mem_block init_memory init_loop
    zero_memory last send_message fill_header put_from is_pid_valid get_process_by_pid
    get_current_pid reassign_mem_block void_to_block find unblock_process_by_pid set_field atomic_up
    atomic_down atomic set_mask
sent_test = refl

sent-IsSound : IsSound ended sent_block.1
sent-IsSound =
    Returns-at
      (send_message-IsSound granted-IsSound 7 1000 (omega arith)
        (granted-IsHeld start-IsSound (ground arith) (omega arith) granted_test))
      sent_test

-- And receives it.
abbrev received_block : ℕ × System
received_block = value_or (9, system start) (receive_message sent_block.1)

received_test : receive_message sent_block.1 ≡ some (1000, received_block.1)
unfolding request_memory_block grant enqueue_mem_block dequeue_mem_block init_memory init_loop
    zero_memory last send_message fill_header put_from is_pid_valid get_process_by_pid
    get_current_pid reassign_mem_block void_to_block find unblock_process_by_pid set_field get_field
    atomic_up atomic_down atomic set_mask receive_message take_from shift_from store_word
received_test = refl

received_runs : sent_block.1.kernel.running_process ≢ sent_block.1.kernel.main_process
unfolding request_memory_block grant enqueue_mem_block dequeue_mem_block init_memory init_loop
    zero_memory last send_message fill_header put_from is_pid_valid get_process_by_pid
    get_current_pid reassign_mem_block void_to_block find unblock_process_by_pid set_field get_field
    atomic_up atomic_down atomic set_mask
received_runs = ground arith

received-IsHeld_example : IsHeld received_block.1 1000
received-IsHeld_example = received-IsHeld sent-IsSound received_runs (omega arith) received_test
