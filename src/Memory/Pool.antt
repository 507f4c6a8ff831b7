-- ===== src/Memory/Pool.antt =====
-- Granting a block and taking one back keep the pool of blocks whole.
use ece_354_real_time_operat.Base.{
  ℕ, ◌+◌, ◌≤◌, ◌≡◌, refl, ◌≢◌, inl, inr, true, false, List, [], ◌∷◌, ◌++◌, arith, ◌==◌, update,
  Bool-cases, Returns, returns, bind,
}
use ece_354_real_time_operat.Chain.{Ptr, null, has, length, Chain, frame, has-append, last-Chain}
use ece_354_real_time_operat.Chain.Bound.{Chain-bound}
use ece_354_real_time_operat.Memory.State.{
  MemQueue, available_blocks, used_blocks, Memory, head, set_head, block_limit, IsZeroed, IsPool,
  IsClean,
}
use ece_354_real_time_operat.Memory.Queues.{enqueue_mem_block, dequeue_mem_block}
use ece_354_real_time_operat.Memory.Handlers.{grant}

-- What enqueue_mem_block writes: the `next` fields and the head `h` of the queue. The queue has the
-- block at its end, and every list apart from both is as it was.
abbrev pub Enqueued : MemQueue → Ptr → Memory → List Ptr → Memory → Type 0
Enqueued q b m zs m' =
    (n : Ptr → Ptr) × (h : Ptr) × (m' ≡ set_head q h (record m { next = n }))
    × Chain n h (zs ++ (b ∷ []))
    × ((p : Ptr) (ws : List Ptr)
        → Chain m.next p ws
        → ((z : Ptr) → has z zs ≡ true → has z ws ≡ false)
        → has b ws ≡ false
        → Chain n p ws)

set_head-same :
    (q : MemQueue) (m : Memory) (n : Ptr → Ptr)
    → record m { next = n } ≡ set_head q (head q m) (record m { next = n })
set_head-same available_blocks m n = refl
set_head-same used_blocks m n = refl

pub enqueue_mem_block-Enqueued :
    (q : MemQueue) (b : Ptr) (m : Memory) (zs : List Ptr)
    → Chain m.next (head q m) zs
    → b ≢ null
    → has b zs ≡ false
    → length zs ≤ block_limit
    → Returns (Enqueued q b m zs) (enqueue_mem_block q b m)
unfolding enqueue_mem_block
enqueue_mem_block-Enqueued q b m [] c live out short = rw c (
    returns (
      update m.next b null,
      b,
      refl,
      (refl, live, refl, ground arith),
      λ p ws c' apart out'. frame m.next b null p ws c' out',
    ))
enqueue_mem_block-Enqueued q b m (z ∷ zs) c live out short =
    let full : (head q m == null) ≡ false = ground arith in
    rw full (
      bind (last-Chain block_limit m.next b (head q m) z zs c out live short) λ w (chain, inside).
        returns (
          update (update m.next w b) b null,
          head q m,
          set_head-same q m _,
          chain,
          λ p ws c' apart out'.
              frame (update m.next w b) b null p ws (frame m.next w b p ws c' (apart w inside))
                out',
        ))

pub length-append : (xs ys : List Ptr) → length (xs ++ ys) ≡ length xs + length ys
length-append [] ys = omega arith
length-append (x ∷ xs) ys = omega (arith, length-append xs ys)

-- While a block is available in a pool whose available blocks are full of zeros,
-- request_memory_block_handler grants the first one: the process owns it, it is full of zeros,
-- and it moves to the end of the used ones. The pool holds after it.
pub grant-IsPool :
    (current_pid : ℕ) (m : Memory) (x : Ptr) (xs ys : List Ptr)
    → IsPool m (x ∷ xs) ys
    → IsClean m (x ∷ xs)
    → Returns
        (λ (address, m').
          (address ≡ m.start_block x)
          × IsPool m' xs (ys ++ (x ∷ []))
          × IsClean m' xs
          × (m'.pid x ≡ current_pid)
          × IsZeroed m'.bytes address
          × (m'.start_block ≡ m.start_block))
        (grant current_pid m)
unfolding grant dequeue_mem_block
grant-IsPool current_pid m x xs ys v clean =
    let (at_head, live, out, tail) = v.available in
    let inside : has x (x ∷ xs) ≡ true = ground arith in
    let x_new = v.apart x inside in
    let full : (m.available == null) ≡ false = ground arith in
    rw (full, at_head)
      (bind
        (enqueue_mem_block-Enqueued used_blocks x
          (record m { pid = update m.pid x current_pid; available = m.next x }) ys v.used live x_new
          (Chain-bound block_limit m.next m.used ys v.used v.small_used))
        λ m2 (n, h, e, chain, others). rw e (
          returns (
            refl,
            record {
              available = others (m.next x) xs tail (λ z u. ground (arith, v.apart z)) out;
              used = chain;
              apart = λ p u. rw has-append (ground (arith, v.apart p));
              small_available = λ p u. v.small_available p (ground arith);
              small_used = λ p u. elim (Bool-cases (p == x)) [
                | inl same ↦ let e' : p ≡ x = ground arith in rw e' (v.small_available x inside)
                | inr other ↦ v.small_used p (ground (arith, has-append p ys (x ∷ [])))
              ];
              whole = omega (arith, length-append ys (x ∷ []), v.whole);
              address = v.address;
            },
            λ p u. clean p (ground arith),
            ground arith,
            clean x inside,
            refl,
          )))
