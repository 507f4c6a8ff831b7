-- ===== src/Memory/GiveBack.antt =====
-- release_memory_handler on the pool of blocks: what each branch returns and leaves.
use ece_354_real_time_operat.Base.{
  ℕ, ◌≡◌, refl, ◌≢◌, inl, inr, true, false, ◌&&◌, ◌||◌, List, [], ◌∷◌, ◌++◌, arith, ◌==◌, update,
  Bool-cases, Returns, returns, bind, mono,
}
use ece_354_real_time_operat.Chain.{Chain-nil, Ptr, null, has, erase, has-erase, has-append}
use ece_354_real_time_operat.Chain.Bound.{Chain-bound, has-erase_self, length-erase}
use ece_354_real_time_operat.Core.State.{minus_one}
use ece_354_real_time_operat.Memory.State.{
  available_blocks, Memory, mem_block_size, block_limit, IsPool, IsClean,
}
use ece_354_real_time_operat.Memory.Queues.{enqueue_mem_block, zero_memory, zero_from}
use ece_354_real_time_operat.Memory.Init.{zero_from_lem}
use ece_354_real_time_operat.Memory.Pool.{enqueue_mem_block-Enqueued, length-append}
use ece_354_real_time_operat.Memory.Handlers.{give_back, give_back_block}
use ece_354_real_time_operat.Memory.Removes.{
  in_available, in_used, unnamed, void_to_block-Named, Unlinked, remove_owned, remove_refused,
}

module _ {m : Memory} {xs ys : List Ptr} (v : IsPool m xs ys) where
  -- What a process that gives a block back is told, and what becomes of the memory.
  pub data GiveBack (current_pid address : ℕ) : ℕ × Memory → Type 0 where
    none_used : ys ≡ [] → GiveBack current_pid address (1, m)
    unknown :
        ys ≢ []
        → ((p : Ptr) → (has p xs || has p ys) ≡ true → m.start_block p ≢ address)
        → GiveBack current_pid address (2, m)
    refused :
        {b : Ptr}
        → ys ≢ []
        → (has b xs || has b ys) ≡ true
        → m.start_block b ≡ address
        → (has b ys && m.pid b == current_pid) ≡ false
        → GiveBack current_pid address (3, m)
    returned :
        {b : Ptr} {m' : Memory}
        → m.start_block b ≡ address
        → has b ys ≡ true
        → m.pid b ≡ current_pid
        → m'.pid b ≡ minus_one
        → IsPool m' (xs ++ (b ∷ [])) (erase b ys)
        → (IsClean m xs → IsClean m' (xs ++ (b ∷ [])))
        → m'.start_block ≡ m.start_block
        → GiveBack current_pid address (0, m')

  -- The block that leaves the used ones ends up at the end of the available ones.
  taken_back :
      (b : Ptr) (r : Ptr × Memory)
      → b ≢ null
      → has b ys ≡ true
      → Unlinked v b r
      → Returns
          (λ m'.
            IsPool m' (xs ++ (b ∷ [])) (erase b ys)
            × (m'.pid b ≡ minus_one)
            × (IsClean m xs → IsClean m' (xs ++ (b ∷ [])))
            × (m'.start_block ≡ m.start_block))
          (let m1 = zero_memory (r.1.start_block r.0) r.1 in
            enqueue_mem_block available_blocks r.0
              (record m1 { pid = update m1.pid r.0 minus_one }))
  unfolding zero_memory
  taken_back b r live inside (n, h, e, e', chain, others) =
      let gone = has-erase_self m.next m.used b ys v.used in
      let z = zero_from mem_block_size (m.start_block b) m.bytes in
      rw (e, e')
        (mono
          (enqueue_mem_block-Enqueued available_blocks b
            (record m { next = n; used = h; bytes = z; pid = update m.pid b minus_one }) xs others
            live (ground (arith, v.apart b))
            (Chain-bound block_limit m.next m.available xs v.available v.small_available))
          λ m' (n', h', e'', longer, frames). rw e'' (
            record {
              available = longer;
              used =
                  frames h (erase b ys) chain (λ w u. ground (arith, v.apart w, has-erase w b ys))
                    gone;
              apart = λ p u. elim (Bool-cases (p == b)) [
                | inl same ↦ let e3 : p ≡ b = ground arith in rw e3 gone
                | inr other ↦ ground (arith, v.apart p, has-erase p b ys, has-append p xs (b ∷ []))
              ];
              small_available = λ p u. elim (Bool-cases (p == b)) [
                | inl same ↦ let e3 : p ≡ b = ground arith in rw e3 (v.small_used b inside)
                | inr other ↦ v.small_available p (ground (arith, has-append p xs (b ∷ [])))
              ];
              small_used = λ p u. v.small_used p (has-erase p b ys u);
              whole = omega (arith, length-append xs (b ∷ []), length-erase b ys inside, v.whole);
              address = v.address;
            },
            ground arith,
            λ clean p u i small. rw zero_from_lem (elim (Bool-cases (p == b)) [
              | inl same ↦ let e3 : p ≡ b = ground arith in rw e3 (ground arith)
              | inr other ↦
                  let before = clean p (ground (arith, has-append p xs (b ∷ []))) i small in
                  ground arith
            ]),
            refl,
          ))

  used_full : (m.used == null) ≡ false → ys ≢ []
  used_full full nil = absurd (let empty : m.used ≡ null = rw nil at v.used in ground arith)

  give_back_block-refused :
      (current_pid address : ℕ) (b : Ptr)
      → (m.used == null) ≡ false
      → b ≢ null
      → (has b xs || has b ys) ≡ true
      → m.start_block b ≡ address
      → (has b ys && m.pid b == current_pid) ≡ false
      → Returns (GiveBack current_pid address) (give_back_block current_pid b m)
  unfolding give_back_block
  give_back_block-refused current_pid address b full live inside at other =
      let named : (b == null) ≡ false = ground arith in
      rw named (
        bind (remove_refused v current_pid b live full other)
          λ r e. rw e (returns (refused (used_full full) inside at other)))

  give_back_block-returned :
      (current_pid address : ℕ) (b : Ptr)
      → (m.used == null) ≡ false
      → b ≢ null
      → m.start_block b ≡ address
      → has b ys ≡ true
      → m.pid b ≡ current_pid
      → Returns (GiveBack current_pid address) (give_back_block current_pid b m)
  unfolding give_back_block
  give_back_block-returned current_pid address b full live at inside owned =
      let named : (b == null) ≡ false = ground arith in
      rw named (
        bind (remove_owned v current_pid b live full inside owned) λ r u.
          let left : (r.0 == null) ≡ false = let (n, h, e, e', chain, others) = u in rw e named in
          rw left (
            bind (taken_back b r live inside u) λ m' (pool, unowned, clean, starts).
              returns (returned at inside owned unowned pool clean starts)))

  pub give_back-GiveBack :
      (current_pid address : ℕ)
      → Returns (GiveBack current_pid address) (give_back current_pid address m)
  unfolding give_back give_back_block
  give_back-GiveBack current_pid address = elim (Bool-cases (m.used == null)) [
    | inl empty ↦
        let nil = Chain-nil m.next m.used ys v.used (ground arith) in
        rw empty (returns (none_used nil))
    | inr full ↦ rw full (
        bind (void_to_block-Named v address) λ b named. elim named [
          | in_available live inside at ↦
              give_back_block-refused current_pid address b full live (ground arith) at
                (ground (arith, v.apart b))
          | in_used live inside at ↦ elim (Bool-cases (m.pid b == current_pid)) [
            | inl owned ↦
                give_back_block-returned current_pid address b full live at inside (ground arith)
            | inr other ↦
                give_back_block-refused current_pid address b full live (ground arith) at
                  (ground arith)
          ]
          | unnamed e none_there ↦ rw e (returns (unknown (used_full full) none_there))
        ])
  ]
