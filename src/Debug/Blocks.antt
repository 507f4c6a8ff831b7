-- ===== src/Debug/Blocks.antt =====
-- The two listings of the blocks show the pool: the owner and the number of each block, in order.
use ece_354_real_time_operat.Base.{
  ℕ, zero, suc, ◌-◌, ◌<◌, ◌≡◌, refl, true, false, List, [], ◌∷◌, ◌++◌, some, arith, ◌==◌,
  if◌then◌else◌,
}
use ece_354_real_time_operat.Chain.{Ptr, null, has, length, Chain}
use ece_354_real_time_operat.Chain.Bound.{Chain-below}
use ece_354_real_time_operat.Core.State.{minus_one}
use ece_354_real_time_operat.Memory.State.{Memory, block_limit, IsPool}
use ece_354_real_time_operat.Memory.Queues.{get_block_number}
use ece_354_real_time_operat.Debug.Listings.{
  rule, arrow, zero_end, available_title, used_title, pid_is, pid_minus_one, block_start_is, Out,
  said, outs_int, print_blocks, print_availible_mem_queue, print_used_mem_queue,
}

-- The owner of each block, and its number, counted from 0.
abbrev pub block_items : (Ptr → ℕ) → List Ptr → List Out
block_items pid [] = []
block_items pid (b ∷ bs) =
    ((if pid b == minus_one then said pid_minus_one ∷ [] else outs_int pid_is (pid b))
      ++ (outs_int block_start_is (b - 1) ++ (said arrow ∷ [])))
    ++ block_items pid bs

block_number :
    {m : Memory} {xs ys : List Ptr} (b : Ptr)
    → IsPool m xs ys
    → 0 < b
    → b < block_limit
    → get_block_number b m ≡ b - 1
unfolding get_block_number
block_number {m} b v live low = rw (v.address b live low) (omega arith)

print_blocks-block_items :
    {m : Memory} {xs ys : List Ptr} (fuel : ℕ) (p : Ptr) (bs : List Ptr)
    → IsPool m xs ys
    → Chain m.next p bs
    → ((b : Ptr) → has b bs ≡ true → b < block_limit)
    → length bs < fuel
    → print_blocks fuel m p ≡ some (block_items m.pid bs)
unfolding print_blocks
print_blocks-block_items zero p bs v c low enough = absurd (omega arith)
print_blocks-block_items (suc fuel) p [] v c low enough = rw c refl
print_blocks-block_items {m} (suc fuel) p (b ∷ bs) v c low enough =
    let live : (b == null) ≡ false = let n = c.1 in ground arith in
    let positive : 0 < b = ground arith in
    rw
      (
        c.0,
        live,
        block_number b v positive (low b (ground arith)),
        print_blocks-block_items fuel (m.next b) bs v c.3 (λ x u. low x (ground arith))
            (omega arith),
      )
      refl

-- Where the pool holds, print_availible_mem_queue and print_used_mem_queue return, and write the owner
-- and the number of each available, or used, block, in the order of the list.
pub print_mem_queues-block_items :
    {m : Memory} {xs ys : List Ptr}
    → IsPool m xs ys
    → (print_availible_mem_queue m
        ≡ some (
            said rule
            ∷ said available_title
            ∷ (block_items m.pid xs ++ (said zero_end ∷ said rule ∷ []))))
      × (print_used_mem_queue m
          ≡ some (
              said rule
              ∷ said used_title
              ∷ (block_items m.pid ys ++ (said zero_end ∷ said rule ∷ []))))
unfolding print_availible_mem_queue print_used_mem_queue
print_mem_queues-block_items {m} {xs} {ys} v = (
  rw
      (print_blocks-block_items block_limit m.available xs v v.available v.small_available
        (Chain-below block_limit m.next m.available xs v.available (omega arith) v.small_available))
      refl,
  rw
      (print_blocks-block_items block_limit m.used ys v v.used v.small_used
        (Chain-below block_limit m.next m.used ys v.used (omega arith) v.small_used))
      refl,
)
