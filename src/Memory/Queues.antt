-- ===== src/Memory/Queues.antt =====
-- The functions of mm/mem.c on the lists of blocks. `none` is a walk that does not end within
-- `block_limit` rounds.
use ece_354_real_time_operat.Base.{
  leb, ltb, ◌&&◌, ℕ, zero, suc, ◌+◌, ◌-◌, ◌*◌, ◌/◌, Bool, not, ◌&&◌, Option, some, ◌==◌,
  if◌then◌else◌, update, ◌>>=◌,
}
use ece_354_real_time_operat.Chain.{Ptr, null, last}
use ece_354_real_time_operat.Chain.Find.{find}
use ece_354_real_time_operat.Chain.Seek.{seek}
use ece_354_real_time_operat.Core.State.{minus_one}
use ece_354_real_time_operat.Memory.State.{
  MemQueue, Memory, mem_block_size, mem_block_count, block_limit, head, set_head,
}

unfoldable pub get_block_number : Ptr → Memory → ℕ
get_block_number block m = (m.start_block block - m.memory_block_start) / mem_block_size

unfoldable pub are_blocks_available : Memory → Bool
are_blocks_available m = not (m.available == null)

-- `*queue = block` or `mem->next = block`, and `block->next = NULL`.
unfoldable pub enqueue_mem_block : MemQueue → Ptr → Memory → Option Memory
enqueue_mem_block queue block m =
    if head queue m == null
    then some (set_head queue block (record m { next = update m.next block null }))
    else (do
      mem ← last block_limit m.next (head queue m)
      some (record m { next = update (update m.next mem block) block null }))

unfoldable pub dequeue_mem_block : MemQueue → Memory → Ptr × Memory
dequeue_mem_block queue m =
    if head queue m == null
    then (null, m)
    else (head queue m, set_head queue (m.next (head queue m)) m)

-- The block leaves the list if the process `current_pid` owns it; NULL if it does not leave.
unfoldable pub remove_mem_block : ℕ → MemQueue → Ptr → Memory → Option (Ptr × Memory)
remove_mem_block current_pid queue block m =
    if head queue m == null then some (null, m) else if block == null then some (null, m) else (do
      found ← seek block_limit m.next block null (head queue m)
      if found.0 && m.pid block == current_pid
          then (if found.1 == null
              then some (block, set_head queue (m.next block) m)
              else some (block, record m { next = update m.next found.1 (m.next block) }))
          else some (null, m))

-- The first block with this address, among the available ones and then among the used ones.
unfoldable pub void_to_block : ℕ → Memory → Option Ptr
void_to_block void_pointer m = do
  block ← find block_limit m.next (λ p. m.start_block p == void_pointer) m.available
  if block == null
      then find block_limit m.next (λ p. m.start_block p == void_pointer) m.used
      else some block

-- `block->pid = newPid` is a write through NULL if no block has the address.
unfoldable pub reassign_mem_block : ℕ → ℕ → Memory → Option Memory
reassign_mem_block memory_block new_pid m = do
  block ← void_to_block memory_block m
  some (record m { pid = update m.pid block new_pid })

-- `for (i = 0; i < n; i++) *(BYTE *)(block + i) = 0;`
unfoldable pub zero_from : ℕ → ℕ → (ℕ → ℕ) → ℕ → ℕ
zero_from zero address bytes = bytes
zero_from (suc n) address bytes = zero_from n (address + 1) (update bytes address 0)

unfoldable pub zero_memory : ℕ → Memory → Memory
zero_memory block m = record m { bytes = zero_from mem_block_size block m.bytes }

-- The loop of init_memory: block `i + 1` is allocated and linked behind `temp_point`.
unfoldable pub init_loop : ℕ → ℕ → Ptr → Memory → Memory
init_loop zero i temp_point m = record m { next = update m.next temp_point null }
init_loop (suc rounds) i temp_point m = init_loop rounds (i + 1) (i + 1) (
    zero_memory (m.memory_block_start + i * mem_block_size) (record m {
      start_block = update m.start_block (i + 1) (m.memory_block_start + i * mem_block_size);
      pid = update m.pid (i + 1) minus_one;
      next = update m.next temp_point (i + 1);
    }))

-- The bytes that `malloc` returns are 0; its loop does what that of zero_memory does.
abbrev pub allocated : ℕ → ℕ → (ℕ → ℕ) → ℕ → ℕ
allocated size old_heap bytes a = if leb old_heap a && ltb a (old_heap + size) then 0 else bytes a

-- init_memory, given the address of the blocks that `malloc` returns, and the bytes before it.
unfoldable pub init_memory : ℕ → (ℕ → ℕ) → Memory
init_memory blocks bytes = init_loop (mem_block_count - 1) 1 1 (record {
  next = λ p. null;
  start_block = update (λ p. 0) 1 blocks;
  pid = λ p. 0;
  available = 1;
  used = null;
  memory_block_start = blocks;
  bytes = allocated (mem_block_size * mem_block_count) blocks bytes;
})
