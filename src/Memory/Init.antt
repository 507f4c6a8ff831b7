-- ===== src/Memory/Init.antt =====
-- init_memory: all 30 blocks are available, in order, and their bytes are 0.
use ece_354_real_time_operat.Base.{
  ℕ, zero, suc, ◌+◌, ◌-◌, ◌*◌, ◌≤◌, ◌<◌, ◌≡◌, refl, inl, inr, Bool, true, not, ◌&&◌, List, [], ◌∷◌,
  arith, ◌==◌, ltb, leb, if◌then◌else◌, update, Bool-cases,
}
use ece_354_real_time_operat.Chain.{Ptr, null, has, length, Chain}
use ece_354_real_time_operat.Core.State.{minus_one}
use ece_354_real_time_operat.Memory.State.{Memory, mem_block_size, mem_block_count, IsPool, IsClean}
use ece_354_real_time_operat.Memory.Queues.{zero_from, zero_memory, init_loop, init_memory}

-- Clearing writes 0 to the `n` bytes from the address on, and nothing else.
pub zero_from_lem :
    (n address : ℕ) (bytes : ℕ → ℕ) (b : ℕ)
    → zero_from n address bytes b ≡ (if leb address b && ltb b (address + n) then 0 else bytes b)
unfolding zero_from
zero_from_lem zero address bytes b = ground arith
zero_from_lem (suc n) address bytes b =
    ground (arith, zero_from_lem n (address + 1) (update bytes address 0) b)

-- All numbers `i`, `i + 1`, …, `i + n - 1`.
unfoldable pub numbers : ℕ → ℕ → List Ptr
numbers zero i = []
numbers (suc n) i = i ∷ numbers n (suc i)

chain_test : (Ptr → Ptr) → Ptr → List Ptr → Bool
chain_test next p [] = p == null
chain_test next p (x ∷ xs) =
    (p == x) && not (x == null) && not (has x xs) && chain_test next (next x) xs

chain_test_sound :
    (next : Ptr → Ptr) (p : Ptr) (xs : List Ptr) → chain_test next p xs ≡ true → Chain next p xs
unfolding chain_test
chain_test_sound next p [] e = ground arith
chain_test_sound next p (x ∷ xs) e =
    (ground arith, ground arith, ground arith, chain_test_sound next (next x) xs (ground arith))

has-numbers : (n i a : ℕ) → has a (numbers n i) ≡ true → (i ≤ a) × (a < i + n)
unfolding numbers
has-numbers zero i a h = cc
has-numbers (suc n) i a h = ground (arith, has-numbers n (suc i) a)

-- What the loop of init_memory keeps.
record IsFilled (m : Memory) (base i : ℕ) : Type 0 where
  heads : (m.available ≡ 1) × (m.used ≡ null) × (m.memory_block_start ≡ base)
  clear : (a : ℕ) → base ≤ a → a < base + mem_block_size * mem_block_count → m.bytes a ≡ 0
  address : (p : Ptr) → 0 < p → p ≤ i → m.start_block p ≡ base + (p - 1) * mem_block_size

init_loop-IsFilled :
    (rounds i base : ℕ) (temp_point : Ptr) (m : Memory)
    → IsFilled m base i
    → IsFilled (init_loop rounds i temp_point m) base (i + rounds)
unfolding init_loop zero_memory
init_loop-IsFilled zero i base temp_point m v = record {
  heads = v.heads;
  clear = v.clear;
  address = λ p h h'. v.address p h (omega arith);
}
init_loop-IsFilled (suc rounds) i base temp_point m v =
    let start = m.memory_block_start + i * mem_block_size in
    let more =
      init_loop-IsFilled rounds (i + 1) base (i + 1)
        (zero_memory start (record m {
          start_block = update m.start_block (i + 1) start;
          pid = update m.pid (i + 1) minus_one;
          next = update m.next temp_point (i + 1);
        }))
        (record {
          heads = v.heads;
          clear = λ a above below.
              let before = v.clear a above below in
              ground (arith, zero_from_lem mem_block_size start m.bytes a);
          address = λ p h h'.
              let base_eq = v.heads.2 in
              elim (Bool-cases (i + 1 == p)) [
                | inl hit ↦ rw hit (ground arith)
                | inr miss ↦ rw miss (v.address p h (ground arith))
              ];
        }) in
    record {
      heads = more.heads;
      clear = more.clear;
      address = λ p h h'. more.address p h (omega arith);
    }

length-numbers : (n i : ℕ) → length (numbers n i) ≡ n
unfolding numbers
length-numbers zero i = refl
length-numbers (suc n) i = omega (arith, length-numbers n (suc i))

init_memory-Chain :
    (base : ℕ) (bytes : ℕ → ℕ) → Chain (init_memory base bytes).next 1 (numbers mem_block_count 1)
unfolding init_memory init_loop zero_memory numbers chain_test
init_memory-Chain base bytes =
    chain_test_sound (init_memory base bytes).next 1 (numbers mem_block_count 1) refl

init_memory-IsFilled : (base : ℕ) (bytes : ℕ → ℕ) → IsFilled (init_memory base bytes) base 30
unfolding init_memory
init_memory-IsFilled base bytes = init_loop-IsFilled 29 1 base 1 _ (record {
  heads = (refl, refl, refl);
  clear = λ a above below.
      let within : (leb base a && ltb a (base + mem_block_size * mem_block_count)) ≡ true =
        ground arith in
      rw within refl;
  address = λ p h h'. let one : p ≡ 1 = omega arith in rw one (omega arith);
})

-- init_memory leaves the blocks 1 to 30 available, none used, and every byte of them 0.
pub init_memory-IsPool :
    (base : ℕ) (bytes : ℕ → ℕ)
    → IsPool (init_memory base bytes) (numbers mem_block_count 1) []
      × IsClean (init_memory base bytes) (numbers mem_block_count 1)
init_memory-IsPool base bytes =
    let filled = init_memory-IsFilled base bytes in
    (
      record {
        available = rw filled.heads.0 (init_memory-Chain base bytes);
        used = filled.heads.1;
        apart = λ p u. refl;
        small_available = λ p u. (has-numbers mem_block_count 1 p u).1;
        small_used = λ p u. cc;
        whole = rw (length-numbers mem_block_count 1) (omega arith);
        address = λ p h h'. rw filled.heads.2 (filled.address p h (omega arith));
      },
      λ p u i h.
          let (live, low) = has-numbers mem_block_count 1 p u in
          let at = filled.address p live (omega arith) in
          filled.clear (_ + i) (omega arith) (omega arith),
    )
