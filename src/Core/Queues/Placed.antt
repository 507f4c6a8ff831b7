-- ===== src/Core/Queues/Placed.antt =====
-- remove_process and enqueue_process keep the queues and the PCBs in agreement, and end. Writes to
-- the PCB of a process that stands in no queue keep it too.
use ece_354_real_time_operat.Base.{
  ℕ, ◌<◌, ◌≡◌, refl, sym, ap, subst, ◌∙◌, ◌≢◌, inl, inr, true, false, [], ◌∷◌, ◌++◌, arith, ◌==◌,
  update, Bool-cases, Returns, returns, bind,
}
use ece_354_real_time_operat.Chain.{Ptr, null, has, erase, has-append, has-erase}
use ece_354_real_time_operat.Chain.Bound.{has-erase_self}
use ece_354_real_time_operat.Core.State.{
  Atomic, Registers, ProcessState, QueueName, Links, set_queue, Kernel, levels, pcb_limit, Queues,
  Waits, Holds, place_cases,
}
use ece_354_real_time_operat.Core.Queues.{queue_of, enqueue_process, remove_process}
use ece_354_real_time_operat.Core.Queues.Holds.{link_last-Holds, unlink-Holds, outside}
use ece_354_real_time_operat.Core.Invariant.{IsPlaced}

-- The kernel differs from `k` in its links only, and they hold the queues `a`.
abbrev pub Relinked : Kernel → Queues → Kernel → Type 0
Relinked k a k' = (l : Links) × (k' ≡ record k { links = l }) × IsPlaced (record k { links = l }) a

-- The queues with the process `p` at the end of its queue.
abbrev pub appended : QueueName → ℕ → Ptr → Queues → Queues
appended q i p a = set_queue a q i (a q i ++ (p ∷ []))

abbrev pub removed : QueueName → ℕ → Ptr → Queues → Queues
removed q i p a = set_queue a q i (erase p (a q i))

module _ {k : Kernel} {a : Queues} (q : QueueName) (p : Ptr) (v : IsPlaced k a) where
  pub enqueue_process-IsPlaced :
      p ≢ null
      → p ≢ k.main_process
      → Waits a p
      → p < pcb_limit
      → k.priority p < levels
      → queue_of (k.state p) ≡ q
      → Returns (Relinked k (appended q (k.priority p) p a)) (enqueue_process q p k)
  unfolding enqueue_process
  enqueue_process-IsPlaced live other waits low level at =
      let i = k.priority p in
      let named : (p == null) ≡ false = ground arith in
      rw named (
        bind (link_last-Holds q i p v.held waits live low) λ l held. returns (
          l,
          refl,
          record {
            held = held;
            placed = λ r j b u. elim (place_cases q i r j) [
              | inl (hit, eq, ei) ↦ elim (Bool-cases (b == p)) [
                | inl e ↦
                    let e' : p ≡ b = ground arith in
                    subst (λ c. (queue_of (k.state c) ≡ r) × (k.priority c ≡ j) × (j < levels)) e'
                      (at ∙ eq, ei, rw (← ei) level)
                | inr e ↦
                    let old : has b (a q i) ≡ true =
                      let u' : has b (a q i ++ (p ∷ [])) ≡ true = rw hit at u in
                      ground (arith, has-append b (a q i) (p ∷ [])) in
                    let (s, t, w) = v.placed q i b old in (s ∙ eq, t ∙ ei, rw (← ei) level)
              ]
              | inr miss ↦ v.placed r j b (rw miss at u)
            ];
            main_live = v.main_live;
            main_waits = λ r j. elim (place_cases q i r j) [
              | inl (hit, eq, ei) ↦
                  let out = v.main_waits q i in rw (hit, has-append) (ground arith)
              | inr miss ↦ rw miss (v.main_waits r j)
            ];
            main_ready = v.main_ready;
          },
        ))

  removed-within :
      (i : ℕ) (r : QueueName) (j : ℕ) (b : Ptr)
      → has b (removed q i p a r j) ≡ true
      → has b (a r j) ≡ true
  removed-within i r j b u = elim (place_cases q i r j) [
    | inl (hit, eq, ei) ↦
        subst (λ s. has b (a s j) ≡ true) eq
          (subst (λ m. has b (a q m) ≡ true) ei (has-erase b p (a q i) (rw hit at u)))
    | inr miss ↦ rw miss at u
  ]

  -- A process that has been taken out of its queue stands in none.
  pub removed-Waits : (i : ℕ) → has p (a q i) ≡ true → Waits (removed q i p a) p
  removed-Waits i inside r j = elim (place_cases q i r j) [
    | inl (hit, eq, ei) ↦
        rw hit (has-erase_self k.links.next (k.links.heads q i) p (a q i) (v.held.chains q i))
    | inr miss ↦ rw miss (outside q i r j p v.held inside miss)
  ]

  pub removed-IsPlaced :
      (i : ℕ) {l : Links}
      → Holds l (removed q i p a)
      → IsPlaced (record k { links = l }) (removed q i p a)
  removed-IsPlaced i held = record {
    held = held;
    placed = λ r j b u. v.placed r j b (removed-within i r j b u);
    main_live = v.main_live;
    main_waits = λ r j. elim (Bool-cases (has k.main_process (removed q i p a r j))) [
      | inl u ↦ cc (sym (removed-within i r j k.main_process u) ∙ v.main_waits r j)
      | inr u ↦ u
    ];
    main_ready = v.main_ready;
  }

  pub remove_process-IsPlaced :
      (i : ℕ)
      → has p (a q i) ≡ true
      → p ≢ k.running_process
      → Returns (Relinked k (removed q i p a)) (remove_process p k)
  unfolding remove_process
  remove_process-IsPlaced i inside idle =
      let other : (p == k.running_process) ≡ false = ground arith in
      let (at, prio, low) = v.placed q i p inside in
      rw (other, at, prio)
        (bind (unlink-Holds q i p v.held inside)
          λ l held. returns (l, refl, removed-IsPlaced i held))

-- A write to the state of a process that stands in no queue.
pub set_state-IsPlaced :
    {k : Kernel} {a : Queues} (p : Ptr) (s : ProcessState)
    → IsPlaced k a
    → Waits a p
    → p ≢ k.main_process
    → IsPlaced (record k { state = update k.state p s }) a
set_state-IsPlaced {k} {a} p s v waits other = record {
  held = v.held;
  placed = λ q i b u. elim (Bool-cases (p == b)) [
    | inl e ↦ let e' : b ≡ p = ground arith in cc (sym u ∙ (ap (λ x. has x (a q i)) e' ∙ waits q i))
    | inr e ↦ rw e (v.placed q i b u)
  ];
  main_live = v.main_live;
  main_waits = v.main_waits;
  main_ready = let miss : (p == k.main_process) ≡ false = ground arith in rw miss v.main_ready;
}

pub set_priority-IsPlaced :
    {k : Kernel} {a : Queues} (p : Ptr) (n : ℕ)
    → IsPlaced k a
    → Waits a p
    → IsPlaced (record k { priority = update k.priority p n }) a
set_priority-IsPlaced {k} {a} p n v waits = record {
  held = v.held;
  placed = λ q i b u. elim (Bool-cases (p == b)) [
    | inl e ↦ let e' : b ≡ p = ground arith in cc (sym u ∙ (ap (λ x. has x (a q i)) e' ∙ waits q i))
    | inr e ↦ rw e (v.placed q i b u)
  ];
  main_live = v.main_live;
  main_waits = v.main_waits;
  main_ready = v.main_ready;
}

-- The other fields do not matter to the queues.
pub IsPlaced-other :
    {k : Kernel} {a : Queues} (registers : Ptr → Registers) (running : Ptr) (cpu : Registers)
    (atomic : Atomic)
    → IsPlaced k a
    → IsPlaced
        (record k { registers = registers; running_process = running; cpu = cpu; atomic = atomic })
        a
IsPlaced-other registers running cpu atomic v = record {
  held = v.held;
  placed = v.placed;
  main_live = v.main_live;
  main_waits = v.main_waits;
  main_ready = v.main_ready;
}

-- A process in no queue stays out when another one is moved.
pub Waits-appended :
    (a : Queues) (q : QueueName) (i : ℕ) (p r : Ptr)
    → Waits a r
    → r ≢ p
    → Waits (appended q i p a) r
Waits-appended a q i p r w ne s j = elim (place_cases q i s j) [
  | inl (hit, eq, ei) ↦ let out = w q i in rw (hit, has-append) (ground arith)
  | inr miss ↦ rw miss (w s j)
]

pub Waits-removed :
    (a : Queues) (q : QueueName) (i : ℕ) (p r : Ptr) → Waits a r → Waits (removed q i p a) r
Waits-removed a q i p r w s j = elim (place_cases q i s j) [
  | inl (hit, eq, ei) ↦ rw hit (elim (Bool-cases (has r (erase p (a q i)))) [
    | inl u ↦ cc (sym (has-erase r p (a q i) u) ∙ w q i)
    | inr u ↦ u
  ])
  | inr miss ↦ rw miss (w s j)
]
