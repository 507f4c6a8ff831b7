-- ===== src/Core/Tests.antt =====
-- A kernel with one process running, one ready and one blocked on messages, and the theorems of
-- this component there.
mod Blocking
use ece_354_real_time_operat.Base.{
  ℕ, ◌+◌, ◌≤◌, ◌<◌, ◌≡◌, refl, ◌≢◌, inl, inr, true, false, Option, none, some, [], ◌∷◌, arith, ◌==◌,
  if◌then◌else◌, Returns,
}
use ece_354_real_time_operat.Chain.{Ptr, null, has, last, erase}
use ece_354_real_time_operat.Chain.Find.{find}
use ece_354_real_time_operat.Core.State.{
  Registers, new, ready, blocked_msg, msg, ready_queue, msg_blocked_queue, set_queue, Links, Kernel,
  levels, minus_one, Queues, Waits, Holds, place_cases,
}
use ece_354_real_time_operat.Core.Queues.{
  queue_of, unlink, remove_process, link_last, enqueue_process, first_level, unlink_first,
  dequeue_process,
}
use ece_354_real_time_operat.Core.Queues.Holds.{change-Holds, link_last-Holds, unlink-Holds}
use ece_354_real_time_operat.Core.Queues.TopLevel.{top_level}
use ece_354_real_time_operat.Core.Interrupts.{set_mask, atomic, atomic_up, atomic_down}
use ece_354_real_time_operat.Core.Interrupts.Nesting.{raised, lowered, lowered-raised}
use ece_354_real_time_operat.Core.Lookup.{find_in_levels, get_queued, get_process_by_pid}
use ece_354_real_time_operat.Core.Lookup.Finds.{Lookup, get_process_by_pid-Lookup}
use ece_354_real_time_operat.Core.Switch.{
  save_running, dispatch, proc_switch_handler, release_processor,
}
use ece_354_real_time_operat.Core.Switch.Releases.{
  saved, joined, IsValid-IsSwitchable, release_processor-IsScheduled,
}
use ece_354_real_time_operat.Core.Blocking.{
  block_queue, blocked_state, block, block_process, make_ready, unblock_process_by_pid,
  unblock_process_by_type,
}
use ece_354_real_time_operat.Core.Blocking.Steadies.{
  block_process-IsSteady, unblock_process_by_pid-IsSteady, unblock_process_by_type-IsSteady,
}
use ece_354_real_time_operat.Core.Blocking.Kept.{unblock_process_by_pid-IsKept}
use ece_354_real_time_operat.Core.Priority.{set_process_priority}
use ece_354_real_time_operat.Core.Priority.Outcomes.{Answer, set_process_priority-Answer}
use ece_354_real_time_operat.Core.Invariant.{
  IsPlaced, IsValid, IsTop, IsSteady, IsKept, IsScheduled,
}

abbrev empty_queues : Queues
empty_queues q i = []

abbrev no_links : Links
no_links = record { next = λ p. null; heads = λ q i. null }

-- PCB 1 runs at priority 1, PCB 2 is new at priority 2, PCB 3 waits for a message at priority 0, and
-- PCB 16 is that of `main`.
abbrev pub queues : Queues
queues = set_queue (set_queue empty_queues ready_queue 2 (2 ∷ [])) msg_blocked_queue 0 (3 ∷ [])

abbrev pub links : Links
links = record {
  next = λ p. null;
  heads = set_queue (set_queue (λ q i. null) ready_queue 2 2) msg_blocked_queue 0 3;
}

abbrev zero_registers : Registers
zero_registers = record { d = λ i. 0; a = λ i. 0 }

abbrev pub kernel : Kernel
kernel = record {
  links = links;
  pid = λ p. if p == 16 then minus_one else p + 6;
  priority = λ p. if p == 16 then minus_one else if p == 3 then 0 else p;
  state = λ p. if p == 2 then new else if p == 3 then blocked_msg else ready;
  registers = λ p. zero_registers;
  running_process = 1;
  main_process = 16;
  cpu = record { d = λ i. 7; a = λ i. 9 };
  atomic = record { status = 0; masked = false };
}

no_links-Holds : Holds no_links empty_queues
no_links-Holds = record { chains = λ q i. refl; apart = λ q i r j p u w. cc; small = λ q i p u. cc }

abbrev ready_queues : Queues
ready_queues = set_queue empty_queues ready_queue 2 (2 ∷ [])

abbrev ready_links : Links
ready_links = record { next = λ p. null; heads = set_queue (λ q i. null) ready_queue 2 2 }

ready-Holds : Holds ready_links ready_queues
ready-Holds =
    change-Holds ready_links ready_queue 2 (2 ∷ []) no_links-Holds (ground arith)
      (λ r j miss. rw miss refl) (λ p u. inr (λ r j. refl, ground arith))

ready-Waits : (p : Ptr) → p ≢ 2 → Waits ready_queues p
ready-Waits p ne r j = elim (place_cases ready_queue 2 r j) [
  | inl (hit, eq, ei) ↦ rw hit (ground arith)
  | inr miss ↦ rw miss refl
]

queues-Waits : (p : Ptr) → p ≢ 2 → p ≢ 3 → Waits queues p
queues-Waits p ne ne' r j = elim (place_cases msg_blocked_queue 0 r j) [
  | inl (hit, eq, ei) ↦ rw hit (ground arith)
  | inr miss ↦ rw miss (ready-Waits p ne r j)
]

links-Holds : Holds links queues
links-Holds =
    change-Holds links msg_blocked_queue 0 (3 ∷ []) ready-Holds (ground arith)
      (λ r j miss. rw miss (ready-Holds.chains r j))
      (λ p u. inr (ready-Waits p (ground arith), ground arith))

kernel-IsPlaced : IsPlaced kernel queues
unfolding queue_of
kernel-IsPlaced = record {
  held = links-Holds;
  placed = λ r j p u. elim (place_cases msg_blocked_queue 0 r j) [
    | inl (hit, eq, ei) ↦
        let e : p ≡ 3 = let u' : has p (3 ∷ []) ≡ true = rw hit at u in ground arith in
        rw e (eq, ei, omega arith)
    | inr miss ↦ elim (place_cases ready_queue 2 r j) [
      | inl (hit, eq, ei) ↦
          let e : p ≡ 2 =
            let u' : has p (2 ∷ []) ≡ true = rw hit at (rw miss at u) in ground arith in
          rw e (eq, ei, omega arith)
      | inr miss' ↦ let u' : has p [] ≡ true = rw miss' at (rw miss at u) in cc
    ]
  ];
  main_live = ground arith;
  main_waits = queues-Waits 16 (ground arith) (ground arith);
  main_ready = refl;
}

pub kernel-IsValid : IsValid kernel queues
kernel-IsValid = record {
  placed = kernel-IsPlaced;
  running = record {
    live = ground arith;
    waits = queues-Waits 1 (ground arith) (ground arith);
    is_ready = refl;
    low = λ ne. omega arith;
    level = λ ne. omega arith;
  };
}

pub kernel-IsTop : IsTop kernel queues
kernel-IsTop i h = ground arith

-- The running process blocks on messages, and the new process of priority 2 runs.
abbrev running_after : Option Kernel → Ptr
running_after none = null
running_after (some k) = k.running_process

block_test : running_after (block_process 7 msg kernel) ≡ 2
unfolding block_process get_process_by_pid block remove_process enqueue_process link_last queue_of
    last block_queue blocked_state release_processor proc_switch_handler save_running dispatch
    dequeue_process first_level unlink_first atomic_up atomic_down atomic set_mask
block_test = refl

-- The blocked process of priority 0 gets the processor once it is unblocked.
unblock_test : running_after (unblock_process_by_pid 9 true kernel) ≡ 3
unfolding unblock_process_by_pid get_process_by_pid get_queued find_in_levels find unlink make_ready
    remove_process enqueue_process link_last queue_of last release_processor proc_switch_handler
    save_running dispatch dequeue_process first_level unlink_first atomic_up atomic_down atomic
    set_mask
unblock_test = refl

release_processor-IsScheduled_example :
    Returns
      (λ k'. (a' : Queues) × IsScheduled (saved kernel) (joined kernel queues) k' a')
      (release_processor kernel)
release_processor-IsScheduled_example =
    release_processor-IsScheduled (IsValid-IsSwitchable kernel-IsValid)

set_process_priority-Answer_example :
    Returns (Answer kernel queues 8 0) (set_process_priority 8 0 kernel)
set_process_priority-Answer_example =
    set_process_priority-Answer 8 0 kernel-IsValid kernel-IsTop refl

get_process_by_pid-Lookup_example : Returns (Lookup kernel queues 9) (get_process_by_pid 9 kernel)
get_process_by_pid-Lookup_example = get_process_by_pid-Lookup kernel-IsPlaced 9

link_last-Holds_example :
    Returns
      (λ l'. Holds l' (set_queue queues ready_queue 2 (2 ∷ 4 ∷ [])))
      (link_last links ready_queue 2 4)
link_last-Holds_example =
    link_last-Holds ready_queue 2 4 links-Holds (queues-Waits 4 (ground arith) (ground arith))
      (ground arith) (omega arith)

unlink-Holds_test :
    Returns
      (λ l'. Holds l' (set_queue queues msg_blocked_queue 0 (erase 3 (3 ∷ []))))
      (unlink links msg_blocked_queue 0 3)
unlink-Holds_test = unlink-Holds msg_blocked_queue 0 3 links-Holds (ground arith)

top_level_test :
    ((j : ℕ)
      → j < first_level levels 0 (links.heads ready_queue)
      → links.heads ready_queue j ≡ null)
    × (first_level levels 0 (links.heads ready_queue) ≤ levels)
    × (first_level levels 0 (links.heads ready_queue) < levels
        → links.heads ready_queue (first_level levels 0 (links.heads ready_queue)) ≢ null)
top_level_test = top_level (links.heads ready_queue)

lowered-raised_example :
    (lowered 2 (raised 2 kernel) ≡ kernel) × ((raised 3 kernel).atomic.masked ≡ true)
lowered-raised_example = lowered-raised 2 kernel refl
