-- ===== src/Startup/Loads.antt =====
-- The loop of initialize_processes: every process waits, new, in the ready queue of its priority.
use ece_354_real_time_operat.Core.Present.{InQueues, append-has, append-has_self}
use ece_354_real_time_operat.Base.{
  ℕ, suc, ◌+◌, ◌-◌, ◌≤◌, ◌<◌, ◌≡◌, refl, subst, sym, ap, ◌∙◌, ◌≢◌, inl, inr, true, false, List, [],
  ◌∷◌, ◌++◌, arith, ◌==◌, update, Bool-cases, Returns, returns, bind, mono,
}
use ece_354_real_time_operat.Chain.{Ptr, null, has, has-append, frame}
use ece_354_real_time_operat.Core.State.{
  new, ready_queue, QueueName, Kernel, Queues, Waits, Holds, Links, levels, pcb_limit, place_cases,
}
use ece_354_real_time_operat.Core.Queues.{enqueue_process}
use ece_354_real_time_operat.Core.Queues.Holds.{link_last-Holds}
use ece_354_real_time_operat.Core.Queues.Placed.{appended}
use ece_354_real_time_operat.Startup.{Pib, filled, pcb_size, init_process, init_from}

-- The queues with the PCBs from `block` on.
abbrev pub loaded : Ptr → List Pib → Queues → Queues
loaded block [] a = a
loaded block (b ∷ bs) a = loaded (suc block) bs (appended ready_queue b.priority block a)

-- The number behind the last of them.
abbrev pub past : Ptr → List Pib → Ptr
past block [] = block
past block (b ∷ bs) = past (suc block) bs

-- A field of the PCBs from `block` on.
abbrev pub stored {ℓ} : {A : Type ℓ} → (Pib → A) → Ptr → List Pib → (Ptr → A) → Ptr → A
stored field block [] f = f
stored field block (b ∷ bs) f = stored field (suc block) bs (update f block (field b))

-- Every priority is one of the five.
abbrev pub IsLevelled : List Pib → Type 0
IsLevelled [] = 0 ≤ 0
IsLevelled (b ∷ bs) = (b.priority < levels) × IsLevelled bs

-- The first ready process of priority 0.
abbrev pub IsFirst : Queues → Ptr → Type 0
IsFirst a p = (rest : List Ptr) × (a ready_queue 0 ≡ p ∷ rest)

-- Before the PCB `block` is made: those before it are new and stand in the ready queues.
pub record IsLoading (block : Ptr) (k : Kernel) (a : Queues) : Type 0 where
  pub held : Holds k.links a
  pub placed :
      (q : QueueName) (i : ℕ) (p : Ptr)
      → has p (a q i) ≡ true
      → (q ≡ ready_queue) × (k.state p ≡ new) × (k.priority p ≡ i) × (i < levels) × (p < block)
  pub everyone : (p : Ptr) → 0 < p → p < block → InQueues a p

-- A PCB that is in no queue may get another `next` field.
pub next-Holds :
    {l : Links} {a : Queues} (p : Ptr)
    → Waits a p
    → Holds l a
    → Holds (record l { next = update l.next p null }) a
next-Holds {l} {a} p waits h = record {
  chains = λ q i. frame l.next p null (l.heads q i) (a q i) (h.chains q i) (waits q i);
  apart = h.apart;
  small = h.small;
}

loading-Waits : {block : Ptr} {k : Kernel} {a : Queues} → IsLoading block k a → Waits a block
loading-Waits {block} {k} {a} v q i = elim (Bool-cases (has block (a q i))) [
  | inl e ↦ let (at, st, prio, level, below) = v.placed q i block e in absurd (omega arith)
  | inr e ↦ e
]

-- What the loop leaves from the PCB `block` on, in a kernel with the queues `a`.
pub record Loaded (block : Ptr) (bs : List Pib) (k : Kernel) (a : Queues) (k' : Kernel)
    : Type 0 where
  pub loading : IsLoading (past block bs) k' (loaded block bs a)
  pub same_pid : k'.pid ≡ stored (λ b. b.pid) block bs k.pid

link_step :
    {k : Kernel} {a : Queues} (block stack_top : ℕ) (b : Pib)
    → IsLoading block k a
    → block ≢ null
    → block < pcb_limit
    → Returns
        (λ k'.
          (l : Links) × Holds l (appended ready_queue b.priority block a)
          × (k' ≡ record (filled block b stack_top k) { links = l }))
        (enqueue_process ready_queue block (filled block b stack_top k))
unfolding enqueue_process
link_step {k} {a} block stack_top b v live low =
    let waits = loading-Waits v in
    let held = next-Holds block waits v.held in
    let named : (block == null) ≡ false = ground arith in
    let self : (block == block) ≡ true = ground arith in
    rw (named, self)
      (bind (link_last-Holds ready_queue b.priority block held waits live low)
        λ l held'. returns (l, held', refl))

init_process-Loaded :
    {k : Kernel} {a : Queues} (block heap : ℕ) (b : Pib)
    → IsLoading block k a
    → block ≢ null
    → block < pcb_limit
    → b.priority < levels
    → Returns
        (λ (heap', k').
          IsLoading (suc block) k' (appended ready_queue b.priority block a)
          × (k'.pid ≡ update k.pid block b.pid))
        (init_process block b (heap, k))
unfolding init_process enqueue_process
init_process-Loaded {k} {a} block heap b v live low level =
    bind (link_step block (heap + pcb_size + b.stack_size - 1) b v live low) λ k1 (l, held', e).
      rw e (
        returns (
          record {
            held = held';
            placed = λ q i p u. elim (place_cases ready_queue b.priority q i) [
              | inl (hit, eq, ei) ↦ elim (Bool-cases (block == p)) [
                | inl e ↦ rw e (sym eq, refl, ei, rw (← ei) level, ground arith)
                | inr e ↦
                    let old : has p (a ready_queue b.priority) ≡ true =
                      let u' : has p (a ready_queue b.priority ++ (block ∷ [])) ≡ true =
                        rw hit at u in
                      ground (arith, has-append p (a ready_queue b.priority) (block ∷ [])) in
                    let (at, st, prio, lev, below) = v.placed ready_queue b.priority p old in
                    rw e (sym eq, st, prio ∙ ei, rw (← ei) level, omega arith)
              ]
              | inr miss ↦
                  let (at, st, prio, lev, below) = v.placed q i p (rw miss at u) in
                  let apart : (block == p) ≡ false = ground arith in
                  rw apart (at, st, prio, lev, omega arith)
            ];
            everyone = λ p live' below. elim (Bool-cases (p == block)) [
              | inl e ↦
                  let same : block ≡ p = ground arith in
                  subst (InQueues _) same (append-has_self a ready_queue b.priority block)
              | inr e ↦
                  append-has a ready_queue b.priority block p (v.everyone p live' (ground arith))
            ];
          },
          refl,
        ))

past_above : (block : Ptr) (bs : List Pib) → block ≤ past block bs
past_above block [] = omega arith
past_above block (b ∷ bs) = let h = past_above (suc block) bs in omega arith

pub init_from-Loaded :
    (block heap : ℕ) (bs : List Pib) (k : Kernel) (a : Queues)
    → IsLoading block k a
    → block ≢ null
    → past block bs ≤ pcb_limit
    → IsLevelled bs
    → Returns (λ (heap', k'). Loaded block bs k a k') (init_from block bs (heap, k))
unfolding init_from
init_from-Loaded block heap [] k a v live low levelled =
    returns (record { loading = v; same_pid = refl })
init_from-Loaded block heap (b ∷ bs) k a v live low (level, levelled) =
    let h = past_above (suc block) bs in
    bind (init_process-Loaded block heap b v live (omega arith) level) λ (heap', k1) (v', e).
      mono
        (init_from-Loaded (suc block) heap' bs k1 (appended ready_queue b.priority block a) v'
          (omega arith) low levelled)
        λ (heap2, k2) r. record {
          loading = r.loading;
          same_pid = r.same_pid ∙ ap (stored (λ b. b.pid) (suc block) bs) e;
        }

-- The first process of the highest priority stays the first.
pub IsFirst-loaded :
    (p block : Ptr) (bs : List Pib) (a : Queues) → IsFirst a p → IsFirst (loaded block bs a) p
IsFirst-loaded p block [] a first = first
IsFirst-loaded p block (b ∷ bs) a (rest, e) =
    IsFirst-loaded p (suc block) bs (appended ready_queue b.priority block a)
      (elim (place_cases ready_queue b.priority ready_queue 0) [
        | inl (hit, eq, ei) ↦ (rest ++ (block ∷ []), rw (hit, ei, e) refl)
        | inr miss ↦ (rest, rw (miss, e) refl)
      ])
