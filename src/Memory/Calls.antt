-- ===== src/Memory/Calls.antt =====
-- The two handlers of mm/mem.c as wholes: what they do to the blocks and to the processes.
use ece_354_real_time_operat.Base.{
  ℕ, ◌≡◌, ◌≢◌, inl, inr, List, [], ◌∷◌, ◌++◌, arith, ◌==◌, Bool-cases, Returns, returns, bind, refl,
  subst,
}
use ece_354_real_time_operat.Chain.{Ptr, null, Chain-nil, Chain-head}
use ece_354_real_time_operat.Core.State.{Kernel, Queues, mem}
use ece_354_real_time_operat.Core.Interrupts.{atomic, atomic_up, atomic_down}
use ece_354_real_time_operat.Core.Lookup.{get_current_pid}
use ece_354_real_time_operat.Core.Invariant.{IsValid}
use ece_354_real_time_operat.Core.Switch.Releases.{IsValid-other}
use ece_354_real_time_operat.Core.Blocking.Blocked.{Blocked, block_process-Blocked}
use ece_354_real_time_operat.Core.Blocking.Woken.{
  FirstUnblocked, unblock_process_by_type-FirstUnblocked,
}
use ece_354_real_time_operat.Memory.State.{IsZeroed, IsPool, IsClean}
use ece_354_real_time_operat.Memory.Handlers.{
  Request, granted, waiting, request_memory_block, release_memory_block,
}
use ece_354_real_time_operat.Memory.Pool.{grant-IsPool}
use ece_354_real_time_operat.Memory.GiveBack.{GiveBack, give_back-GiveBack}
use ece_354_real_time_operat.System.{System}

module _ (s : System) {a : Queues} {xs ys : List Ptr} (k : IsValid s.kernel a)
    (v : IsPool s.memory xs ys) where
  -- The kernel once the handler has entered and left atomic mode.
  abbrev kernel_after : Kernel
  kernel_after = atomic_down (atomic_up s.kernel)

  -- What a request comes to.
  pub data Requested (pid : ℕ) : Request × System → Type 0 where
    given :
        {x : Ptr} {rest : List Ptr} {r : System} {address : ℕ}
        → xs ≡ x ∷ rest
        → address ≡ s.memory.start_block x
        → IsPool r.memory rest (ys ++ (x ∷ []))
        → IsClean r.memory rest
        → r.memory.pid x ≡ pid
        → IsZeroed r.memory.bytes address
        → r.memory.start_block ≡ s.memory.start_block
        → r ≡ record s { kernel = kernel_after; memory = r.memory }
        → Requested pid (granted address, r)
    made_to_wait :
        {r : System}
        → xs ≡ []
        → Blocked (atomic_up kernel_after) a pid mem r.kernel
        → r ≡ record s { kernel = r.kernel }
        → Requested pid (waiting, r)

  -- Where the invariant and the pool hold, the available blocks are full of zeros and the caller
  -- is not `main`, request_memory_block_handler returns. If a block is available, the process
  -- owns the first one and the pool is whole; if none is, the process is blocked on memory, and
  -- the memory is as it was.
  pub request_memory_block-Requested :
      IsClean s.memory xs
      → get_current_pid (atomic_up s.kernel) ≢ s.kernel.pid s.kernel.main_process
      → Returns (Requested (get_current_pid (atomic_up s.kernel))) (request_memory_block s)
  unfolding request_memory_block atomic_up atomic_down
  request_memory_block-Requested clean other = elim (Bool-cases (s.memory.available == null)) [
    | inl e ↦
        let nil = Chain-nil s.memory.next s.memory.available xs v.available (ground arith) in
        let valid = IsValid-other (atomic 0 (atomic 1 s.kernel.atomic)) k in
        rw e (
          bind (block_process-Blocked (get_current_pid (atomic_up s.kernel)) mem valid other)
            λ k' b. returns (made_to_wait nil b refl))
    | inr e ↦
        let x = s.memory.available in
        let (rest, full, out, tail) = Chain-head s.memory.next x xs v.available (ground arith) in
        let pool : IsPool s.memory (x ∷ rest) ys = subst (λ l. IsPool s.memory l ys) full v in
        let zeroed : IsClean s.memory (x ∷ rest) = subst (IsClean s.memory) full clean in
        rw e (
          bind (grant-IsPool (get_current_pid (atomic_up s.kernel)) s.memory x rest ys pool zeroed)
            λ r (at, pool', clean', owner, zeros, starts).
              returns (given full at pool' clean' owner zeros starts refl))
  ]

  -- What giving a block back comes to.
  pub data Released (pid address : ℕ) : ℕ × System → Type 0 where
    rejected :
        {code : ℕ} {r : System}
        → code ≢ 0
        → GiveBack v pid address (code, r.memory)
        → r ≡ record s { kernel = kernel_after; memory = r.memory }
        → Released pid address (code, r)
    freed :
        {r : System}
        → GiveBack v pid address (0, r.memory)
        → FirstUnblocked kernel_after a mem r.kernel
        → r ≡ record s { kernel = r.kernel; memory = r.memory }
        → Released pid address (0, r)

  pub release_memory_block-Released :
      (address : ℕ)
      → Returns (Released (get_current_pid s.kernel) address) (release_memory_block address s)
  unfolding release_memory_block atomic_up atomic_down
  release_memory_block-Released address =
      let valid = IsValid-other (atomic 0 (atomic 1 s.kernel.atomic)) k in
      bind (give_back-GiveBack v (get_current_pid s.kernel) address) λ (code, m') g.
        elim (Bool-cases (code == 0)) [
          | inl e ↦
              let zero_code : code ≡ 0 = ground arith in
              rw e (
                bind (unblock_process_by_type-FirstUnblocked mem valid)
                  λ k' u. returns (freed (rw zero_code at g) u refl))
          | inr e ↦ rw e (returns (rejected (ground arith) g refl))
        ]
