-- ===== src/Memory/State.antt =====
-- The data of mm/mem.c: `struct memBlock`, named by its address, each field a store of its own, the
-- two list heads, and the bytes of the blocks.
use ece_354_real_time_operat.Base.{ℕ, ◌+◌, ◌-◌, ◌*◌, ◌<◌, ◌≡◌, true, false, List}
use ece_354_real_time_operat.Chain.{Ptr, has, length, Chain}

-- The two list heads, which the queue operations take by reference.
pub data MemQueue : Type 0 where
  available_blocks used_blocks : MemQueue

pub record Memory : Type 0 where
  pub next : Ptr → Ptr
  pub start_block : Ptr → ℕ
  pub pid : Ptr → ℕ
  pub available : Ptr
  pub used : Ptr
  pub memory_block_start : ℕ
  pub bytes : ℕ → ℕ

abbrev pub mem_block_size : ℕ
mem_block_size = 128

abbrev pub mem_block_count : ℕ
mem_block_count = 30

-- The blocks are numbered from 1 in the order in which init_memory allocates them, and NULL is 0: a
-- list of blocks has fewer than this many.
abbrev pub block_limit : ℕ
block_limit = 31

abbrev pub head : MemQueue → Memory → Ptr
head available_blocks m = m.available
head used_blocks m = m.used

abbrev pub set_head : MemQueue → Ptr → Memory → Memory
set_head available_blocks p m = record m { available = p }
set_head used_blocks p m = record m { used = p }

-- Every byte of the block at this address is 0.
abbrev pub IsZeroed : (ℕ → ℕ) → ℕ → Type 0
IsZeroed bytes address = (i : ℕ) → i < mem_block_size → bytes (address + i) ≡ 0

-- The two lists are well formed and hold each block once, and the blocks lie one after the other.
pub record IsPool (m : Memory) (xs ys : List Ptr) : Type 0 where
  pub available : Chain m.next m.available xs
  pub used : Chain m.next m.used ys
  pub apart : (p : Ptr) → has p xs ≡ true → has p ys ≡ false
  pub small_available : (p : Ptr) → has p xs ≡ true → p < block_limit
  pub small_used : (p : Ptr) → has p ys ≡ true → p < block_limit
  pub whole : length xs + length ys ≡ mem_block_count
  pub address :
      (p : Ptr)
      → 0 < p
      → p < block_limit
      → m.start_block p ≡ m.memory_block_start + (p - 1) * mem_block_size

-- The bytes of the available blocks are all 0.
abbrev pub IsClean : Memory → List Ptr → Type 0
IsClean m xs = (p : Ptr) → has p xs ≡ true → IsZeroed m.bytes (m.start_block p)
