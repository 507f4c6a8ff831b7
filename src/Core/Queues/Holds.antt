-- ===== src/Core/Queues/Holds.antt =====
-- The queue operations of core/core.c refine operations on lists: they append at the end of a queue,
-- take out of the middle, and take the first.
use ece_354_real_time_operat.Base.{
  ℕ, ◌<◌, ◌≤◌, ◌≡◌, refl, ap, sym, subst, ◌∙◌, ◌≢◌, ◌⊎◌, inl, inr, true, false, ◌&&◌, List, [], ◌∷◌,
  ◌++◌, arith, ◌==◌, update, Bool-cases, Returns, returns, bind,
}
use ece_354_real_time_operat.Chain.{
  Ptr, null, has, Chain, frame, length, erase, has-append, has-erase, Chain-head, last-Chain,
  before-Chain, Chain-nil, erase-head,
}
use ece_354_real_time_operat.Chain.Bound.{Chain-bound}
use ece_354_real_time_operat.Core.State.{
  place_cases, place_self, QueueName, same_queue, set_queue, Links, levels, pcb_limit, Queues,
  Waits, Holds,
}
use ece_354_real_time_operat.Core.Queues.{unlink, link_last, unlink_first}

-- What a queue operation leaves to prove: the queue it changes, the others, and who is in it now.
pub change-Holds :
    {l : Links} {a : Queues} (l' : Links) (q : QueueName) (i : ℕ) (v : List Ptr)
    → Holds l a
    → Chain l'.next (l'.heads q i) v
    → ((r : QueueName) (j : ℕ)
        → (same_queue q r && i == j) ≡ false
        → Chain l'.next (l'.heads r j) (a r j))
    → ((p : Ptr) → has p v ≡ true → (has p (a q i) ≡ true) ⊎ (Waits a p × (p < pcb_limit)))
    → Holds l' (set_queue a q i v)
change-Holds {l} {a} l' q i v h here there members = record {
  chains = λ r j. elim (place_cases q i r j) [
    | inl (e, eq, ei) ↦ rw e (
        subst (λ s. Chain l'.next (l'.heads s j) v) eq
          (subst (λ m. Chain l'.next (l'.heads q m) v) ei here))
    | inr e ↦ rw e (there r j e)
  ];
  apart = λ q' i' r j p u w. elim (place_cases q i q' i') [
    | inl (e, eq, ei) ↦ elim (place_cases q i r j) [
      | inl (e', eq', ei') ↦ (sym eq ∙ eq', sym ei ∙ ei')
      | inr e' ↦ absurd (moved r j p (rw e at u) (rw e' at w) e')
    ]
    | inr e ↦ elim (place_cases q i r j) [
      | inl (e', eq', ei') ↦ absurd (moved q' i' p (rw e' at w) (rw e at u) e)
      | inr e' ↦ h.apart q' i' r j p (rw e at u) (rw e' at w)
    ]
  ];
  small = λ r j p u. elim (place_cases q i r j) [
    | inl (e, eq, ei) ↦ elim (members p (rw e at u)) [
      | inl old ↦ h.small q i p old
      | inr (waits, low) ↦ low
    ]
    | inr e ↦ h.small r j p (rw e at u)
  ];
}
  where
    moved :
        (r : QueueName) (j : ℕ) (p : Ptr)
        → has p v ≡ true
        → has p (a r j) ≡ true
        → (same_queue q r && i == j) ≡ false
        → ⊥
    moved r j p u w e = elim (members p u) [
      | inl old ↦
          let (eq, ei) = h.apart q i r j p old w in
          let yes_same : (same_queue q r && i == j) ≡ true =
            subst (λ s. (same_queue q s && i == j) ≡ true) eq
              (subst (λ m. (same_queue q q && i == m) ≡ true) ei (place_self q i)) in
          cc
      | inr (waits, low) ↦ let out = waits r j in cc
    ]

queue_bound :
    {l : Links} {a : Queues} (q : QueueName) (i : ℕ) → Holds l a → length (a q i) ≤ pcb_limit
queue_bound {l} {a} q i h =
    Chain-bound pcb_limit l.next (l.heads q i) (a q i) (h.chains q i) (h.small q i)

-- A process that stands at the place `q`, `i` stands at no other.
pub outside :
    {l : Links} {a : Queues} (q : QueueName) (i : ℕ) (r : QueueName) (j : ℕ) (p : Ptr)
    → Holds l a
    → has p (a q i) ≡ true
    → (same_queue q r && i == j) ≡ false
    → has p (a r j) ≡ false
outside {l} {a} q i r j p h u e = elim (Bool-cases (has p (a r j))) [
  | inr out ↦ out
  | inl w ↦
      let (eq, ei) = h.apart q i r j p u w in
      let same : (same_queue q r && i == j) ≡ true =
        subst (λ s. (same_queue q s && i == j) ≡ true) eq
          (subst (λ m. (same_queue q q && i == m) ≡ true) ei (place_self q i)) in
      cc
]

module _ {l : Links} {a : Queues} (q : QueueName) (i : ℕ) (p : Ptr) (h : Holds l a) where
  link_members :
      Waits a p
      → p < pcb_limit
      → (b : Ptr) → has b (a q i ++ (p ∷ [])) ≡ true
      → (has b (a q i) ≡ true) ⊎ (Waits a b × (b < pcb_limit))
  link_members waits low b u = elim (Bool-cases (b == p)) [
    | inl e ↦
        let e' : p ≡ b = ground arith in
        inr (subst (λ c. Waits a c × (c < pcb_limit)) e' (waits, low))
    | inr e ↦ inl (ground (arith, has-append b (a q i) (p ∷ [])))
  ]

  -- The body of enqueue_process returns, for a process that is in no queue: the process stands at
  -- the end of its queue, and every other queue is as it was.
  pub link_last-Holds :
      Waits a p
      → p ≢ null
      → p < pcb_limit
      → Returns (λ l'. Holds l' (set_queue a q i (a q i ++ (p ∷ [])))) (link_last l q i p)
  unfolding link_last
  link_last-Holds waits live low = elim (Bool-cases (l.heads q i == null)) [
    | inl e ↦
        let empty : a q i ≡ [] =
          Chain-nil l.next (l.heads q i) (a q i) (h.chains q i) (ground arith) in
        rw e (
          returns (
            change-Holds _ q i _ h (rw (place_self q i, empty) (refl, live, refl, ground arith))
              (λ r j miss.
                rw miss (frame l.next p null (l.heads r j) (a r j) (h.chains r j) (waits r j)))
              (link_members waits low)))
    | inr e ↦
        let (rest, full, out, tail) =
          Chain-head l.next (l.heads q i) (a q i) (h.chains q i) (ground arith) in
        rw e (
          bind
            (last-Chain pcb_limit l.next p (l.heads q i) (l.heads q i) rest
              (rw full at (h.chains q i)) (rw full at (waits q i)) live
              (rw full at (queue_bound q i h)))
            λ z (chain, inside). returns (
              change-Holds _ q i _ h (rw full chain)
                (λ r j miss.
                  frame (update l.next z p) p null (l.heads r j) (a r j)
                    (frame l.next z p (l.heads r j) (a r j) (h.chains r j)
                      (outside q i r j z h (rw full inside) miss))
                    (waits r j))
                (link_members waits low)))
  ]

  -- The head of a queue is its first process, and taking it out leaves the others.
  pub detach-Holds :
      {rest : List Ptr}
      → a q i ≡ p ∷ rest
      → Holds
          (record { next = update l.next p null; heads = set_queue l.heads q i (l.next p) })
          (set_queue a q i rest)
  detach-Holds {rest} e =
      let chain = subst (Chain l.next (l.heads q i)) e (h.chains q i) in
      let inside : has p (a q i) ≡ true = rw e (ground arith) in
      change-Holds _ q i rest h
        (rw (place_self q i) (frame l.next p null (l.next p) rest chain.3 chain.2))
        (λ r j miss. rw miss (
          frame l.next p null (l.heads r j) (a r j) (h.chains r j)
            (outside q i r j p h inside miss)))
        (λ b u. inl (rw e (ground arith)))

  -- The body of remove_process returns, for a process that is in its queue: the queue has lost
  -- the process and kept the order of the others, and every other queue is as it was.
  pub unlink-Holds :
      has p (a q i) ≡ true
      → Returns (λ l'. Holds l' (set_queue a q i (erase p (a q i)))) (unlink l q i p)
  unfolding unlink erase
  unlink-Holds inside = elim (Bool-cases (l.heads q i == p)) [
    | inl e ↦
        let at_head : l.heads q i ≡ p = ground arith in
        let live : l.heads q i ≢ null = λ e'.
          let none_left = Chain-nil l.next (l.heads q i) (a q i) (h.chains q i) e' in
          cc (ap (has p) none_left) in
        let (rest, full, out, tail) = Chain-head l.next (l.heads q i) (a q i) (h.chains q i) live in
        let full' : a q i ≡ p ∷ rest = subst (λ x. a q i ≡ x ∷ rest) at_head full in
        let erased : erase p (a q i) ≡ rest = ap (erase p) full' ∙ erase-head p rest in
        rw (e, erased) (returns (detach-Holds full'))
    | inr e ↦ rw e (
        bind
          (before-Chain pcb_limit l.next p (l.heads q i) (a q i) (h.chains q i) inside
            (ground arith) (queue_bound q i h))
          λ z (live, chain, kept).
            let found : (z == null) ≡ false = ground arith in
            rw found (
              returns (
                change-Holds _ q i _ h chain
                  (λ r j miss.
                    frame (update l.next z (l.next p)) p null (l.heads r j) (a r j)
                      (frame l.next z (l.next p) (l.heads r j) (a r j) (h.chains r j)
                        (outside q i r j z h (has-erase z p (a q i) kept) miss))
                      (outside q i r j p h inside miss))
                  (λ b u. inl (has-erase b p (a q i) u)))))
  ]

  -- dequeue_process, at the level that it settles on, takes out the head.
  pub unlink_first-Holds :
      {rest : List Ptr}
      → (i == levels) ≡ false
      → a q i ≡ p ∷ rest
      → ((unlink_first l q i).0 ≡ p) × Holds (unlink_first l q i).1 (set_queue a q i rest)
  unfolding unlink_first
  unlink_first-Holds {rest} below e =
      let chain = subst (Chain l.next (l.heads q i)) e (h.chains q i) in
      rw below (chain.0, rw chain.0 (detach-Holds e))
