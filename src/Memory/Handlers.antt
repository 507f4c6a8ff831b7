-- ===== src/Memory/Handlers.antt =====
-- request_memory_block_handler and release_memory_handler of mm/mem.c.
use ece_354_real_time_operat.Base.{ℕ, Option, some, ◌==◌, if◌then◌else◌, update, ◌>>=◌}
use ece_354_real_time_operat.Chain.{Ptr, null}
use ece_354_real_time_operat.Core.State.{mem, minus_one}
use ece_354_real_time_operat.Core.Interrupts.{atomic_up, atomic_down}
use ece_354_real_time_operat.Core.Lookup.{get_current_pid}
use ece_354_real_time_operat.Core.Blocking.{block_process, unblock_process_by_type}
use ece_354_real_time_operat.Memory.State.{Memory, available_blocks, used_blocks}
use ece_354_real_time_operat.Memory.Queues.{
  enqueue_mem_block, dequeue_mem_block, remove_mem_block, void_to_block, zero_memory,
}
use ece_354_real_time_operat.System.{System}

-- The first available block goes to the process, which gets its address.
unfoldable pub grant : ℕ → Memory → Option (ℕ × Memory)
grant current_pid m =
    let block = m.available in
    let (first, m1) =
      dequeue_mem_block available_blocks (record m { pid = update m.pid block current_pid }) in
    do m2 ← enqueue_mem_block used_blocks block m1; some (m2.start_block block, m2)

-- What a call of the handler comes to: an address, or the process is blocked, and makes the loop's
-- test again when it runs next.
pub data Request : Type 0 where
  granted : ℕ → Request
  waiting : Request

unfoldable pub request_memory_block : System → Option (Request × System)
request_memory_block s =
    let k = atomic_up s.kernel in
    if s.memory.available == null
    then (do
      k1 ← block_process (get_current_pid k) mem (atomic_down k)
      some (waiting, record s { kernel = k1 }))
    else (do
      r ← grant (get_current_pid k) s.memory
      some (granted r.0, record s { kernel = atomic_down k; memory = r.1 }))

-- The part of release_memory_handler that follows void_to_block, up to the code that it returns.
unfoldable pub give_back_block : ℕ → Ptr → Memory → Option (ℕ × Memory)
give_back_block current_pid block m = if block == null then some (2, m) else (do
  r ← remove_mem_block current_pid used_blocks block m
  if r.0 == null then some (3, r.1) else (do
    let m1 = zero_memory (r.1.start_block r.0) r.1
    m2 ← enqueue_mem_block available_blocks r.0 (record m1 { pid = update m1.pid r.0 minus_one })
    some (0, m2)))

-- The part of release_memory_handler that works on the blocks, with the code that it returns.
unfoldable pub give_back : ℕ → ℕ → Memory → Option (ℕ × Memory)
give_back current_pid memory_block m =
    if m.used == null
    then some (1, m)
    else (do block ← void_to_block memory_block m; give_back_block current_pid block m)

unfoldable pub release_memory_block : ℕ → System → Option (ℕ × System)
release_memory_block memory_block s = do
  r ← give_back (get_current_pid s.kernel) memory_block s.memory
  let k = atomic_down (atomic_up s.kernel)
  if r.0 == 0
      then (do k1 ← unblock_process_by_type mem k; some (0, record s { kernel = k1; memory = r.1 }))
      else some (r.0, record s { kernel = k; memory = r.1 })
