-- ===== src/Startup/Boots.antt =====
-- What holds when the first process runs: everything that the handlers rely on.
use ece_354_real_time_operat.Core.Present.{InQueues, IsPresent}
use ece_354_real_time_operat.Base.{
  ℕ, zero, suc, ◌+◌, ◌*◌, ◌^◌, ◌<◌, ◌≡◌, refl, sym, ap, ◌∙◌, inl, inr, false, List, [], ◌∷◌, arith,
  ◌==◌, update, Bool-cases, Returns, returns, bind,
}
use ece_354_real_time_operat.Chain.{Ptr, has}
use ece_354_real_time_operat.Core.State.{Kernel, Queues, Waits, levels, pcb_limit, minus_one}
use ece_354_real_time_operat.Core.Queues.{queue_of}
use ece_354_real_time_operat.Core.Queues.Placed.{IsPlaced-other}
use ece_354_real_time_operat.Core.Invariant.{IsPlaced, IsValid, IsTop, Picked, idle, first}
use ece_354_real_time_operat.Core.Switch.Releases.{
  IsSwitchable, joined, release_processor-IsScheduled,
}
use ece_354_real_time_operat.Core.Switch.Stays.{IsScheduled-IsPresent}
use ece_354_real_time_operat.Memory.State.{mem_block_count, IsPool, IsClean}
use ece_354_real_time_operat.Memory.Init.{numbers, init_memory-IsPool}
use ece_354_real_time_operat.Messaging.Boxes.Compact.{Compact}
use ece_354_real_time_operat.Messaging.Handlers.{init_messaging}
use ece_354_real_time_operat.Messaging.Awake.{HasDistinctPids}
use ece_354_real_time_operat.Startup.{
  Pib, create_pib, TestProc, test_blocks, init_blocks, pib_size, main_block, with_main, cleared,
  initialize_processes, main,
}
use ece_354_real_time_operat.Startup.Loads.{
  loaded, past, IsLevelled, IsLoading, IsFirst, IsFirst-loaded, init_from-Loaded, next-Holds,
}
use ece_354_real_time_operat.Startup.Pids.{started_pids, started_pids-distinct, started_pids_words}
use ece_354_real_time_operat.System.{System}

abbrev no_queues : Queues
no_queues q i = []

-- The kernel before the processes are made.
cleared-IsLoading : (k : Kernel) → IsLoading 1 (cleared k) no_queues
cleared-IsLoading k = record {
  held = record { chains = λ q i. refl; apart = λ q i r j p u w. cc; small = λ q i p u. cc };
  placed = λ q i p u. cc;
  everyone = λ p live below. absurd (omega arith);
}

-- The processes are in the queues of their priorities, with `main` outside.
with_main-IsPlaced : {k : Kernel} {a : Queues} → IsLoading main_block k a → IsPlaced (with_main k) a
unfolding queue_of
with_main-IsPlaced {k} {a} v = record {
  held = next-Holds main_block out v.held;
  placed = λ q i p u.
      let (at, st, prio, level, below) = v.placed q i p u in
      let apart : (main_block == p) ≡ false = ground arith in
      rw (apart, st, queue_of) (sym at, prio, level);
  main_live = ground arith;
  main_waits = out;
  main_ready = refl;
}
  where
    out : Waits a main_block
    out q i = elim (Bool-cases (has main_block (a q i))) [
      | inl e ↦ let (at, st, prio, level, below) = v.placed q i main_block e in absurd (omega arith)
      | inr e ↦ e
    ]

abbrev after : ℕ → List Pib → List Pib
after zero bs = bs
after (suc n) [] = []
after (suc n) (b ∷ bs) = after n bs

-- The first five processes; the fifth is KCD.
abbrev up_to_kcd : (ℕ → ℕ) → List Pib
up_to_kcd code =
    create_pib 0 4 (code 0) 1024
    ∷ create_pib 7 3 (code 7) 1024
    ∷ create_pib 8 2 (code 8) 1024
    ∷ create_pib 9 1 (code 9) 1024
    ∷ create_pib 10 0 (code 10) 1024
    ∷ []

-- The loop and `main` together.
pub record Initialized (code : ℕ → ℕ) (tests : ℕ → TestProc) (k k' : Kernel) : Type 0 where
  pub queues : Queues
  pub placed : IsPlaced k' queues
  pub of_main : k'.main_process ≡ main_block
  pub first_of_all : IsFirst queues 5
  pub same_pid : k'.pid ≡ started_pids code tests k.pid
  pub everyone : (p : Ptr) → 0 < p → p < main_block → InQueues queues p

module _ (code : ℕ → ℕ) (tests : ℕ → TestProc)
    (fits : (i : ℕ) → i < 6 → (tests i).priority < levels) where
  init_blocks-IsLevelled : IsLevelled (init_blocks code tests)
  unfolding init_blocks test_blocks
  init_blocks-IsLevelled = (
    omega arith,
    (
      omega arith,
      (
        omega arith,
        (
          omega arith,
          (
            omega arith,
            (
              omega arith,
              (
                omega arith,
                (
                  omega arith,
                  (
                    omega arith,
                    (
                      fits 0 (omega arith),
                      (
                        fits 1 (omega arith),
                        (
                          fits 2 (omega arith),
                          (
                            fits 3 (omega arith),
                            (fits 4 (omega arith), (fits 5 (omega arith), omega arith)),
                          ),
                        ),
                      ),
                    ),
                  ),
                ),
              ),
            ),
          ),
        ),
      ),
    ),
  )

  past_blocks : past 1 (init_blocks code tests) ≡ main_block
  unfolding init_blocks test_blocks
  past_blocks = refl

  -- KCD is the first process of priority 0.
  kcd-IsFirst : IsFirst (loaded 1 (init_blocks code tests) no_queues) 5
  unfolding init_blocks
  kcd-IsFirst =
      IsFirst-loaded 5 6 (after 5 (init_blocks code tests)) (loaded 1 (up_to_kcd code) no_queues)
        ([], refl)

  initialize_processes-Initialized :
      (heap : ℕ) (k : Kernel)
      → Returns
          (λ (heap', k'). Initialized code tests k k')
          (initialize_processes code tests (heap, cleared k))
  unfolding initialize_processes
  initialize_processes-Initialized heap k =
      bind
        (init_from-Loaded 1 (heap + 15 * pib_size) (init_blocks code tests) (cleared k) no_queues
          (cleared-IsLoading k) (ground arith) (rw past_blocks (omega arith))
          init_blocks-IsLevelled)
        λ (heap', k') r. returns (record {
          queues = loaded 1 (init_blocks code tests) no_queues;
          placed = with_main-IsPlaced (rw past_blocks at r.loading);
          of_main = refl;
          first_of_all = kcd-IsFirst;
          same_pid = ap (λ f. update f main_block minus_one) r.same_pid;
          everyone = rw past_blocks at r.loading.everyone;
        })

-- The scheduler picks the first process of priority 0, if there is one.
Picked-first : {a a' : Queues} {main p x : Ptr} → Picked a main p a' → IsFirst a x → p ≡ x
Picked-first (idle none_ready) (rest, e) = absurd (let gone = none_ready 0 (omega arith) in cc)
Picked-first (first {p} {i} low e above) (rest, e') = elim (Bool-cases (i == 0)) [
  | inl z ↦ let z' : i ≡ 0 = ground arith in let h = rw z' at e in cc
  | inr s ↦ absurd (let gone = above 0 (ground arith) in cc)
]

-- What start-up leaves: the invariants of the kernel, the memory and the mailboxes, and KCD running.
pub record Booted (code : ℕ → ℕ) (tests : ℕ → TestProc) (s : System) : Type 0 where
  pub queues : Queues
  pub valid : IsValid s.kernel queues
  pub top : IsTop s.kernel queues
  pub distinct : HasDistinctPids s.kernel
  pub of_main : s.kernel.pid s.kernel.main_process ≡ minus_one
  pub everyone : (p : Ptr) → 0 < p → p < s.kernel.main_process → IsPresent s.kernel p
  pub of_kcd : s.kernel.pid s.kernel.running_process ≡ 10
  pub words : (p : Ptr) → 0 < p → p < pcb_limit → s.kernel.pid p < 2 ^ 32
  pub pool : IsPool s.memory (numbers mem_block_count 1) []
  pub clean : IsClean s.memory (numbers mem_block_count 1)
  pub no_messages : Compact s.mailbox 0 []
  pub no_delayed : Compact s.delayed_mailbox 0 []
  pub no_ticks : s.ticks ≡ 0

started-IsSwitchable :
    {k : Kernel} {a : Queues}
    → IsPlaced k a
    → k.main_process ≡ main_block
    → IsSwitchable (record k { running_process = main_block }) a
started-IsSwitchable {k} v e = record {
  placed = IsPlaced-other k.registers main_block k.cpu k.atomic v;
  live = ground arith;
  requeue = λ other able. absurd (other (sym e));
}

joined_main :
    (k : Kernel) (a : Queues)
    → k.main_process ≡ main_block
    → joined (record k { running_process = main_block }) a ≡ a
joined_main k a e = rw e refl

kcd_pid : (code : ℕ → ℕ) (tests : ℕ → TestProc) (f : Ptr → ℕ) → started_pids code tests f 5 ≡ 10
unfolding init_blocks test_blocks
kcd_pid code tests f = refl

-- If the processes of the tests have priorities below 5, main returns from the switch at its end,
-- whatever the memory held before, with KCD running: the invariant of the kernel holds and no ready
-- process has a higher priority, no two processes have the same pid, the 30 blocks are available
-- and cleared, every pid is a 32-bit word, each PCB before that of `main` is the running process or
-- stands in a queue, both mailboxes are empty and the clock is 0.
pub main-Booted :
    (code : ℕ → ℕ) (tests : ℕ → TestProc) (end : ℕ) (s : System)
    → ((i : ℕ) → i < 6 → (tests i).priority < levels)
    → Returns (Booted code tests) (main code tests end s)
unfolding main init_messaging
main-Booted code tests end s fits =
    bind (initialize_processes-Initialized code tests fits end s.kernel) λ (heap, k) r.
      bind (release_processor-IsScheduled (started-IsSwitchable r.placed r.of_main)) λ k' (a', sch).
        let first_runs : k'.running_process ≡ 5 =
          Picked-first sch.picked (rw (joined_main k r.queues r.of_main) r.first_of_all) in
        let pids : k'.pid ≡ started_pids code tests s.kernel.pid = sch.same_pid ∙ r.same_pid in
        returns (record {
          queues = a';
          valid = sch.valid;
          top = sch.top;
          distinct = record {
            distinct = rw pids (started_pids-distinct code tests s.kernel.pid);
            main_low = rw (sch.same_main, r.of_main) (omega arith);
          };
          of_main = rw (pids, sch.same_main, r.of_main) refl;
          everyone = λ p live below. IsScheduled-IsPresent p sch (
              rw (joined_main k r.queues r.of_main)
                (r.everyone p live (let at = sch.same_main ∙ r.of_main in omega arith)));
          of_kcd = rw (pids, first_runs) (kcd_pid code tests s.kernel.pid);
          words = rw pids (started_pids_words code tests s.kernel.pid);
          pool = (init_memory-IsPool heap s.memory.bytes).0;
          clean = (init_memory-IsPool heap s.memory.bytes).1;
          no_messages = λ j h. refl;
          no_delayed = λ j h. refl;
          no_ticks = refl;
        })
