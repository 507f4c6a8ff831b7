-- ===== src/Core/Switch/Schedules.antt =====
-- The scheduler picks the first process of the highest priority that has one, and `main` only if no
-- process is ready.
use ece_354_real_time_operat.Base.{
  ℕ, ◌<◌, ◌≤◌, ◌≡◌, refl, ◌≢◌, ◌⊎◌, inl, inr, true, false, List, [], ◌∷◌, arith, ◌==◌, ltb,
  Bool-cases, sym, subst, ◌∙◌,
}
use ece_354_real_time_operat.Chain.{Ptr, null, has, Chain, Chain-nil, Chain-head, Chain-live}
use ece_354_real_time_operat.Core.State.{
  ProcessState, new, ready, blocked_mem, blocked_msg, QueueName, Links, ready_queue, set_queue,
  Kernel, levels, pcb_limit, Queues, Waits, Holds, place_cases,
}
use ece_354_real_time_operat.Core.Queues.{queue_of, first_level, unlink_first}
use ece_354_real_time_operat.Core.Queues.Holds.{unlink_first-Holds, outside}
use ece_354_real_time_operat.Core.Queues.TopLevel.{top_level, unlink_first-none}
use ece_354_real_time_operat.Core.Invariant.{IsPlaced, Picked, idle, first}
use ece_354_real_time_operat.Core.Switch.{choose}

pub ready_states : (s : ProcessState) → queue_of s ≡ ready_queue → (s ≡ new) ⊎ (s ≡ ready)
unfolding queue_of
ready_states new e = inl refl
ready_states ready e = inr refl
ready_states blocked_mem e = cc
ready_states blocked_msg e = cc

-- Taking a process out of a queue leaves the others in place.
IsPlaced-shrink :
    {k : Kernel} {a : Queues} (q : QueueName) (i : ℕ) (p : Ptr) (rest : List Ptr)
    → IsPlaced k a
    → a q i ≡ p ∷ rest
    → (r : QueueName) (j : ℕ) (b : Ptr) → has b (set_queue a q i rest r j) ≡ true
    → has b (a r j) ≡ true
IsPlaced-shrink {k} {a} q i p rest v e r j b u = elim (place_cases q i r j) [
  | inl (hit, eq, ei) ↦
      subst (λ s. has b (a s j) ≡ true) eq
        (subst (λ m. has b (a q m) ≡ true) ei
          (rw e (let u' : has b rest ≡ true = rw hit at u in ground arith)))
  | inr miss ↦ rw miss at u
]

-- What the choice of a process leaves: its links `l`, the process `p`, and the queues `a'`.
pub record Choice (k : Kernel) (a : Queues) (l : Links) (p : Ptr) (a' : Queues) : Type 0 where
  pub picked : Picked a k.main_process p a'
  pub held : Holds l a'
  pub within : (r : QueueName) (j : ℕ) (b : Ptr) → has b (a' r j) ≡ true → has b (a r j) ≡ true

pub choose-Choice :
    {k : Kernel} {a : Queues}
    → IsPlaced k a
    → (a' : Queues) × Choice k a (choose k).links (choose k).running_process a'
unfolding choose
choose-Choice {k} {a} v =
    let i = first_level levels 0 (k.links.heads ready_queue) in
    let (skipped, most, live) = top_level (k.links.heads ready_queue) in
    let higher = λ (j : ℕ) (h : j < i).
      Chain-nil k.links.next (k.links.heads ready_queue j) (a ready_queue j)
        (v.held.chains ready_queue j) (skipped j h) in
    elim (Bool-cases (i == levels)) [
      | inl e ↦
          let none_left : unlink_first k.links ready_queue i ≡ (null, k.links) =
            unlink_first-none k.links ready_queue i e in
          (
            a,
            rw none_left (record {
              picked = idle (λ j h. higher j (ground arith));
              held = v.held;
              within = λ r j b u. u;
            }),
          )
      | inr e ↦
          let p = k.links.heads ready_queue i in
          let p_live : p ≢ null = live (ground arith) in
          let (rest, full, out, tail) =
            Chain-head k.links.next p (a ready_queue i) (v.held.chains ready_queue i) p_live in
          let taken = unlink_first-Holds ready_queue i p v.held e full in
          let named : (p == null) ≡ false = ground arith in
          (
            set_queue a ready_queue i rest,
            record {
              picked = rw (taken.0, named) (first (ground arith) full higher);
              held = taken.1;
              within = IsPlaced-shrink ready_queue i p rest v full;
            },
          )
    ]

empty_beyond :
    {k : Kernel} {a : Queues} (q : QueueName) (i : ℕ) (xs : List Ptr)
    → IsPlaced k a
    → levels ≤ i
    → a q i ≡ xs
    → xs ≡ []
empty_beyond q i [] v h e = refl
empty_beyond {k} {a} q i (x ∷ xs) v h e =
    let inside : has x (a q i) ≡ true = rw e (ground arith) in
    absurd (let low = (v.placed q i x inside).2 in omega arith)

pub Picked-Waits :
    {l : Links} {a a' : Queues} {main p : Ptr}
    → Holds l a
    → Waits a main
    → Picked a main p a'
    → Waits a' p
Picked-Waits h w (idle none_left) r j = w r j
Picked-Waits {l} {a} h w (first {p} {i} {rest} low e above) r j =
    elim (place_cases ready_queue i r j) [
      | inl (hit, eq, ei) ↦
          rw hit (subst (Chain l.next (l.heads ready_queue i)) e (h.chains ready_queue i)).2
      | inr miss ↦ rw miss (outside ready_queue i r j p h (rw e (ground arith)) miss)
    ]

-- The state of the process that is picked, and its place before.
pub record Pick (k : Kernel) (p : Ptr) : Type 0 where
  pub live : p ≢ null
  pub able : queue_of (k.state p) ≡ ready_queue
  pub low : p ≢ k.main_process → p < pcb_limit
  pub level : p ≢ k.main_process → k.priority p < levels

pub Picked-Pick :
    {k : Kernel} {a a' : Queues} {main p : Ptr}
    → IsPlaced k a
    → main ≡ k.main_process
    → Picked a main p a'
    → Pick k p × ((i : ℕ) → i < k.priority p → a' ready_queue i ≡ [])
unfolding queue_of
Picked-Pick {k} {a} {main} v m (idle none_left) =
    let able : queue_of (k.state main) ≡ ready_queue = rw (m, v.main_ready) in
    (
      record {
        live = λ e. v.main_live (sym m ∙ e);
        able = able;
        low = λ ne. absurd (ne m);
        level = λ ne. absurd (ne m);
      },
      λ i h. elim (Bool-cases (ltb i levels)) [
        | inl below ↦ none_left i (ground arith)
        | inr beyond ↦ empty_beyond ready_queue i (a ready_queue i) v (ground arith) refl
      ],
    )
Picked-Pick {k} {a} v m (first {p} {i} {rest} low e above) =
    let inside : has p (a ready_queue i) ≡ true = rw e (ground arith) in
    let (able, prio, lev) = v.placed ready_queue i p inside in
    (
      record {
        live = λ e'.
            let dead =
              Chain-live k.links.next (k.links.heads ready_queue i) (a ready_queue i)
                (v.held.chains ready_queue i) in
            ground arith;
        able = able;
        low = λ _. v.held.small ready_queue i p inside;
        level = λ _. omega arith;
      },
      λ j h. ground (arith, above j),
    )
