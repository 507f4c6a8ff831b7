-- ===== src/Core/Lookup/Finds.antt =====
-- get_process_by_pid looks through the running process and all queues: it returns, with a process of
-- that pid that runs or waits in a queue, or with NULL if there is none.
use ece_354_real_time_operat.Base.{
  ℕ, zero, suc, ◌+◌, ◌≤◌, ◌<◌, ◌≡◌, refl, ◌≢◌, ◌⊎◌, inl, inr, true, false, not, ◌&&◌, arith, ◌==◌,
  Bool-cases, Returns, returns, bind, mono,
}
use ece_354_real_time_operat.Chain.{Ptr, null, has, Chain-live}
use ece_354_real_time_operat.Chain.Find.{find_first, find-Chain, find_first-passes, find_first-null}
use ece_354_real_time_operat.Chain.Bound.{Chain-below}
use ece_354_real_time_operat.Core.State.{
  Atomic, QueueName, ready_queue, mem_blocked_queue, msg_blocked_queue, Kernel, levels, pcb_limit,
  Queues,
}
use ece_354_real_time_operat.Core.Invariant.{IsPlaced}
use ece_354_real_time_operat.Core.Lookup.{find_in_levels, get_queued, get_process_by_pid}

pub data Lookup (k : Kernel) (a : Queues) (pid : ℕ) : Ptr → Type 0 where
  running :
      k.running_process ≢ null → k.pid k.running_process ≡ pid → Lookup k a pid k.running_process
  queued :
      {p : Ptr} (q : QueueName) (i : ℕ)
      → has p (a q i) ≡ true
      → p ≢ null
      → k.pid p ≡ pid
      → Lookup k a pid p
  missing :
      {p : Ptr}
      → p ≡ null
      → (k.running_process ≢ null → k.pid k.running_process ≢ pid)
      → ((q : QueueName) (i : ℕ) (b : Ptr) → has b (a q i) ≡ true → k.pid b ≢ pid)
      → Lookup k a pid p

module _ {k : Kernel} {a : Queues} (v : IsPlaced k a) (pid : ℕ) where
  abbrev InLevels : QueueName → ℕ → ℕ → Ptr → Type 0
  InLevels q i n p =
      ((j : ℕ) × (has p (a q j) ≡ true) × (p ≢ null) × (k.pid p ≡ pid))
      ⊎ ((p ≡ null)
          × ((j : ℕ) (b : Ptr) → i ≤ j → j < i + n → has b (a q j) ≡ true → k.pid b ≢ pid))

  abbrev OutOf : QueueName → Type 0
  OutOf q = (j : ℕ) (b : Ptr) → 0 ≤ j → j < 0 + levels → has b (a q j) ≡ true → k.pid b ≢ pid

  find_in_levels-InLevels :
      (n i : ℕ) (q : QueueName) → Returns (InLevels q i n) (find_in_levels n i q pid k)
  unfolding find_in_levels
  find_in_levels-InLevels zero i q = returns (inr (refl, λ j b h h'. absurd (omega arith)))
  find_in_levels-InLevels (suc n) i q =
      let test = λ (p : Ptr). k.pid p == pid in
      let chain = v.held.chains q i in
      let p = find_first test (a q i) in
      let dead = Chain-live k.links.next (k.links.heads q i) (a q i) chain in
      rw
        (find-Chain pcb_limit k.links.next test (k.links.heads q i) (a q i) chain (
          Chain-below pcb_limit k.links.next (k.links.heads q i) (a q i) chain (omega arith)
            (v.held.small q i)))
        (elim (Bool-cases (p == null)) [
          | inl e ↦ rw e (
              mono (find_in_levels-InLevels n (i + 1) q) λ p' r. elim r [
                | inl found ↦ inl found
                | inr (none_left, others) ↦ inr (
                  none_left,
                  λ j b h h' u. elim (Bool-cases (i == j)) [
                    | inl same ↦
                        let same' : j ≡ i = ground arith in
                        let missed =
                          find_first-null test (a q i) b (ground arith) dead (rw same' at u) in
                        λ e'. ground arith
                    | inr later ↦ others j b (ground arith) (omega arith) u
                  ],
                )
              ])
          | inr e ↦
              let (inside, passes) = find_first-passes test (a q i) (ground arith) in
              rw e (returns (inl (i, inside, ground arith, ground arith)))
        ])

  -- The three queues in turn, when the running process is not the one.
  queues-Lookup :
      (k.running_process ≢ null → k.pid k.running_process ≢ pid)
      → Returns (Lookup k a pid) (get_queued pid k)
  unfolding get_queued
  queues-Lookup other = bind (find_in_levels-InLevels levels 0 ready_queue) λ p r. elim r [
    | inl (i, u, live, e) ↦
        let named : (p == null) ≡ false = ground arith in
        rw named (returns (queued ready_queue i u live e))
    | inr (none_left, out) ↦ rw none_left (
        bind (find_in_levels-InLevels levels 0 mem_blocked_queue) λ p' r'. elim r' [
          | inl (i, u, live, e) ↦
              let named : (p' == null) ≡ false = ground arith in
              rw named (returns (queued mem_blocked_queue i u live e))
          | inr (none_left', out') ↦ rw none_left' (
              mono (find_in_levels-InLevels levels 0 msg_blocked_queue) λ p'' r''. elim r'' [
                | inl (i, u, live, e) ↦ queued msg_blocked_queue i u live e
                | inr (none_left'', out'') ↦ missing none_left'' other (in_none_of out out' out'')
              ])
        ])
  ]
    where
      in_none_of :
          OutOf ready_queue
          → OutOf mem_blocked_queue
          → OutOf msg_blocked_queue
          → (q : QueueName) (i : ℕ) (b : Ptr) → has b (a q i) ≡ true
          → k.pid b ≢ pid
      in_none_of x y z ready_queue i b u = x i b (omega arith) (v.placed ready_queue i b u).2 u
      in_none_of x y z mem_blocked_queue i b u =
          y i b (omega arith) (v.placed mem_blocked_queue i b u).2 u
      in_none_of x y z msg_blocked_queue i b u =
          z i b (omega arith) (v.placed msg_blocked_queue i b u).2 u

  -- Where the queues and the PCBs agree, get_process_by_pid returns the running process or a
  -- queued one, which has the pid, or NULL if none of them has it.
  pub get_process_by_pid-Lookup : Returns (Lookup k a pid) (get_process_by_pid pid k)
  unfolding get_process_by_pid
  get_process_by_pid-Lookup =
      elim (Bool-cases (not (k.running_process == null) && k.pid k.running_process == pid)) [
        | inl e ↦ rw e (returns (running (ground arith) (ground arith)))
        | inr e ↦ rw e (queues-Lookup (λ live e'. ground arith))
      ]

-- The lookup does not read the counter of `atomic`.
pub Lookup-other :
    {k : Kernel} {a : Queues} {pid : ℕ} {p : Ptr} (t : Atomic)
    → Lookup (record k { atomic = t }) a pid p
    → Lookup k a pid p
Lookup-other t (running live e) = running live e
Lookup-other t (queued q i inside live e) = queued q i inside live e
Lookup-other t (missing gone out none_left) = missing gone out none_left
