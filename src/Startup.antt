-- ===== src/Startup.antt =====
-- core/initialize.c, and malloc and main of core/core.c: what start-up makes of the memory that it
-- finds. The processes of the tests come from the file that is linked with the executive: their
-- priorities, stacks and starting addresses are an argument. The vectors and the devices, which main
-- sets up too, are not in the state.
pub mod Loads
pub mod Pids
pub mod Boots
pub mod Reaches
mod Tests
use ece_354_real_time_operat.Base.{
  ℕ, zero, suc, ◌+◌, ◌-◌, ◌*◌, ◌==◌, Option, some, List, [], ◌∷◌, ◌++◌, if◌then◌else◌, update,
  ◌>>=◌,
}
use ece_354_real_time_operat.Chain.{Ptr, null}
use ece_354_real_time_operat.Core.State.{
  new, ready, ready_queue, Registers, Links, Kernel, minus_one,
}
use ece_354_real_time_operat.Core.Queues.{enqueue_process}
use ece_354_real_time_operat.Core.Switch.{release_processor}
use ece_354_real_time_operat.Memory.State.{mem_block_size, mem_block_count}
use ece_354_real_time_operat.Memory.Queues.{init_memory}
use ece_354_real_time_operat.Messaging.Handlers.{init_messaging}
use ece_354_real_time_operat.System.{System}

-- What is known of a process before it has a PCB.
pub record Pib : Type 0 where
  pub pid : ℕ
  pub priority : ℕ
  pub starting_addr : ℕ
  pub stack_size : ℕ

-- An entry of g_test_proc.
pub record TestProc : Type 0 where
  pub priority : ℕ
  pub entry : ℕ
  pub sz_stack : ℕ

-- malloc: the address and the heap after it. What is allocated is never freed.
abbrev pub malloc : ℕ → ℕ → ℕ × ℕ
malloc size heap = (heap, heap + size)

abbrev pib_size : ℕ
pib_size = 20

abbrev pub pcb_size : ℕ
pcb_size = 84

abbrev pub create_pib : ℕ → ℕ → ℕ → ℕ → Pib
create_pib pid priority starting_addr stack_size = record {
  pid = pid;
  priority = priority;
  starting_addr = starting_addr;
  stack_size = stack_size;
}

-- The six processes of the tests, from the `i`-th on.
unfoldable pub test_blocks : ℕ → ℕ → (ℕ → TestProc) → List Pib
test_blocks zero i g_test_proc = []
test_blocks (suc rounds) i g_test_proc =
    create_pib (i + 1) (g_test_proc i).priority (g_test_proc i).entry (g_test_proc i).sz_stack
    ∷ test_blocks rounds (i + 1) g_test_proc

-- The list that create_pib and enqueue_pib make; `code` is where the functions of the processes lie.
unfoldable pub init_blocks : (ℕ → ℕ) → (ℕ → TestProc) → List Pib
init_blocks code g_test_proc =
    create_pib 0 4 (code 0) 1024
    ∷ create_pib 7 3 (code 7) 1024
    ∷ create_pib 8 2 (code 8) 1024
    ∷ create_pib 9 1 (code 9) 1024
    ∷ create_pib 10 0 (code 10) 1024
    ∷ create_pib 11 0 (code 11) 1024
    ∷ create_pib 12 0 (code 12) 1024
    ∷ create_pib 60 0 (code 60) 1024
    ∷ create_pib 80 0 (code 80) 1024
    ∷ test_blocks 6 0 g_test_proc

-- The fields of the PCB `block`, whose stack ends at `stack_top`.
abbrev pub filled : Ptr → Pib → ℕ → Kernel → Kernel
filled block init_block stack_top k = record k {
  pid = update k.pid block init_block.pid;
  priority = update k.priority block init_block.priority;
  state = update k.state block new;
  links = record k.links { next = update k.links.next block null };
  registers =
      update k.registers block (record { d = λ i. 0; a = λ i. if i == 7 then stack_top else 0 });
}

-- A round of the loop of initialize_processes: the heap and the kernel after it.
unfoldable pub init_process : Ptr → Pib → ℕ × Kernel → Option (ℕ × Kernel)
init_process block init_block (heap, k) =
    let (stack, heap') = malloc init_block.stack_size (malloc pcb_size heap).1 in
    do
      k1 ←
          enqueue_process ready_queue block
            (filled block init_block (stack + init_block.stack_size - 1) k)
      some (heap', k1)

-- The loop; the PCBs are numbered from `block` on.
unfoldable pub init_from : Ptr → List Pib → ℕ × Kernel → Option (ℕ × Kernel)
init_from block [] s = some s
init_from block (b ∷ bs) s = do s1 ← init_process block b s; init_from (suc block) bs s1

abbrev pub main_block : Ptr
main_block = 16

-- `main` is a PCB that stands in no queue.
abbrev pub with_main : Kernel → Kernel
with_main k = record k {
  main_process = main_block;
  links = record k.links { next = update k.links.next main_block null };
  state = update k.state main_block ready;
  pid = update k.pid main_block minus_one;
  priority = update k.priority main_block minus_one;
}

unfoldable pub initialize_processes : (ℕ → ℕ) → (ℕ → TestProc) → ℕ × Kernel → Option (ℕ × Kernel)
initialize_processes code g_test_proc (heap, k) = do
  s ← init_from 1 (init_blocks code g_test_proc) (heap + 15 * pib_size, k)
  some ((malloc pcb_size s.0).1, with_main s.1)

-- The arrays of queues are empty, nothing runs, and no critical section is open.
abbrev pub cleared : Kernel → Kernel
cleared k = record k {
  links = record k.links { heads = λ q i. null };
  running_process = null;
  atomic = record k.atomic { status = 0 };
}

-- main, up to the return of release_processor in the process that runs first; `end` is where the heap
-- starts.
unfoldable pub main : (ℕ → ℕ) → (ℕ → TestProc) → ℕ → System → Option System
main code g_test_proc end s = do
  r ← initialize_processes code g_test_proc (end, cleared s.kernel)
  let s1 = init_messaging (record s { memory = init_memory r.0 s.memory.bytes; ticks = 0 })
  k ← release_processor (record r.1 { running_process = main_block })
  some (record s1 { kernel = k })
