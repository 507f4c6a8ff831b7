-- ===== src/Memory/Tests.antt =====
-- The memory after start-up and after a first request, and the theorems of this component there.
pub mod Calls
use ece_354_real_time_operat.Base.{
  ℕ, ◌≡◌, refl, Option, none, some, [], ◌∷◌, Returns, Returns-some, ◌>>=◌,
}
use ece_354_real_time_operat.Chain.{last}
use ece_354_real_time_operat.Chain.Find.{find}
use ece_354_real_time_operat.Chain.Seek.{seek}
use ece_354_real_time_operat.Memory.State.{Memory, mem_block_count, IsZeroed, IsPool, IsClean}
use ece_354_real_time_operat.Memory.Queues.{
  enqueue_mem_block, dequeue_mem_block, remove_mem_block, void_to_block, zero_memory, zero_from,
  init_memory, init_loop, get_block_number,
}
use ece_354_real_time_operat.Memory.Init.{numbers, init_memory-IsPool}
use ece_354_real_time_operat.Memory.Handlers.{grant, give_back, give_back_block}
use ece_354_real_time_operat.Memory.Pool.{grant-IsPool}
use ece_354_real_time_operat.Memory.GiveBack.{GiveBack}

abbrev pub start : Memory
start = init_memory 1000 (λ a. 0)

-- A process that asks first gets block 1; it gives it back with code 0, and a second time with 3. An
-- address inside of a block is none of a block.
abbrev code : Option (ℕ × Memory) → ℕ
code none = 9
code (some r) = r.0

granted_then : (Memory → Option (ℕ × Memory)) → ℕ
granted_then use_memory = code (grant 7 start >>= λ r. use_memory r.1)

give_back_test :
    (granted_then (give_back 7 1000) ≡ 0)
    × (granted_then (give_back 8 1000) ≡ 3)
    × (granted_then (give_back 7 1128) ≡ 3)
    × (granted_then (give_back 7 1001) ≡ 2)
    × (code (give_back 7 1000 start) ≡ 1)
unfolding granted_then grant give_back give_back_block enqueue_mem_block dequeue_mem_block
    remove_mem_block void_to_block zero_memory zero_from init_memory init_loop find seek last
give_back_test = (refl, refl, refl, refl, refl)

get_block_number_test : get_block_number 5 start ≡ 4
unfolding get_block_number init_memory init_loop zero_memory
get_block_number_test = refl

pub start-IsPool : IsPool start (1 ∷ numbers 29 2) []
unfolding numbers
start-IsPool = (init_memory-IsPool 1000 (λ a. 0)).0

pub start-IsClean : IsClean start (1 ∷ numbers 29 2)
unfolding numbers
start-IsClean = (init_memory-IsPool 1000 (λ a. 0)).1

init_memory_test :
    IsPool (init_memory 1000 (λ a. 0)) (numbers mem_block_count 1) []
    × IsClean (init_memory 1000 (λ a. 0)) (numbers mem_block_count 1)
init_memory_test = init_memory-IsPool 1000 (λ a. 0)

grant-IsPool_test :
    Returns
      (λ (address, m').
        (address ≡ start.start_block 1)
        × IsPool m' (numbers 29 2) (1 ∷ [])
        × IsClean m' (numbers 29 2)
        × (m'.pid 1 ≡ 7)
        × IsZeroed m'.bytes address
        × (m'.start_block ≡ start.start_block))
      (grant 7 start)
grant-IsPool_test = grant-IsPool 7 start 1 (numbers 29 2) [] start-IsPool start-IsClean

-- The memory once process 7 has got block 1.
pub first_grant :
    (r : ℕ × Memory) × (grant 7 start ≡ some r)
    × ((r.0 ≡ start.start_block 1)
        × IsPool r.1 (numbers 29 2) (1 ∷ [])
        × IsClean r.1 (numbers 29 2)
        × (r.1.pid 1 ≡ 7)
        × IsZeroed r.1.bytes r.0
        × (r.1.start_block ≡ start.start_block))
first_grant = Returns-some (grant-IsPool 7 start 1 (numbers 29 2) [] start-IsPool start-IsClean)
