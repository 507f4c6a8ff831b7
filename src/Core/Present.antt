-- ===== src/Core/Present.antt =====
-- Which processes the kernel knows: the running one, and those that stand in a queue. No operation of
-- core/core.c may lose one.
use ece_354_real_time_operat.Base.{
  ℕ, ◌≡◌, refl, sym, ap, subst, ◌∙◌, ◌≢◌, ◌⊎◌, inl, inr, true, false, List, [], ◌∷◌, ◌++◌, arith,
  ◌==◌, Bool-cases,
}
use ece_354_real_time_operat.Chain.{Ptr, has, Chain, erase, has-append, has-erase_ne}
use ece_354_real_time_operat.Core.State.{
  QueueName, Links, Kernel, Queues, Holds, set_queue, place_cases, place_self,
}

-- The process stands in a queue of these lists.
abbrev pub InQueues : Queues → Ptr → Type 0
InQueues a p = (q : QueueName) × (i : ℕ) × (has p (a q i) ≡ true)

-- The process runs, or stands in a queue of the kernel.
abbrev pub IsPresent : Kernel → Ptr → Type 0
IsPresent k p = (k.running_process ≡ p) ⊎ ((a : Queues) × Holds k.links a × InQueues a p)

-- No process but `main` is lost between the two kernels.
abbrev pub Keeps : Kernel → Kernel → Type 0
Keeps k k' = (p : Ptr) → p ≢ k.main_process → IsPresent k p → IsPresent k' p

-- Heads and `next` fields hold one list only.
Chain-unique :
    (next : Ptr → Ptr) (p : Ptr) (xs ys : List Ptr) → Chain next p xs → Chain next p ys → xs ≡ ys
Chain-unique next p [] [] c d = refl
Chain-unique next p [] (y ∷ ys) c d = absurd (d.1 (sym d.0 ∙ c))
Chain-unique next p (x ∷ xs) [] c d = absurd (c.1 (sym c.0 ∙ d))
Chain-unique next p (x ∷ xs) (y ∷ ys) (at, live, out, more) (at', live', out', more') =
    let same : y ≡ x = sym at' ∙ at in
    let rest =
      Chain-unique next (next x) xs ys more (subst (λ z. Chain next (next z) ys) same more') in
    ap (λ l. x ∷ l) rest ∙ ap (λ z. z ∷ ys) (sym same)

-- What the links say of a process, the lists that they hold say.
pub Holds-InQueues :
    {l : Links} {a b : Queues} (p : Ptr) → Holds l a → Holds l b → InQueues b p → InQueues a p
Holds-InQueues {l} {a} {b} p h h' (q, i, u) =
    let same = Chain-unique l.next (l.heads q i) (b q i) (a q i) (h'.chains q i) (h.chains q i) in
    (q, i, subst (λ xs. has p xs ≡ true) same u)

-- A process stays in the queues if it stays in the one that changes.
pub set_queue-has :
    (a : Queues) (r : QueueName) (j : ℕ) (xs : List Ptr) (p : Ptr)
    → (has p (a r j) ≡ true → has p xs ≡ true)
    → InQueues a p
    → InQueues (set_queue a r j xs) p
set_queue-has a r j xs p stays (q, i, u) = (
  q,
  i,
  elim (place_cases r j q i) [
    | inl (hit, eq, ei) ↦
        let u' : has p (a r j) ≡ true =
          subst (λ s. has p (a s j) ≡ true) (sym eq)
            (subst (λ m. has p (a q m) ≡ true) (sym ei) u) in
        rw hit (stays u')
    | inr miss ↦ rw miss u
  ],
)

-- At the end of a queue, a process joins the others.
pub append-has :
    (a : Queues) (r : QueueName) (j : ℕ) (x p : Ptr)
    → InQueues a p
    → InQueues (set_queue a r j (a r j ++ (x ∷ []))) p
append-has a r j x p u =
    set_queue-has a r j (a r j ++ (x ∷ [])) p (λ h. rw has-append (ground arith)) u

pub append-has_self :
    (a : Queues) (r : QueueName) (j : ℕ) (x : Ptr)
    → InQueues (set_queue a r j (a r j ++ (x ∷ []))) x
append-has_self a r j x = (r, j, rw (place_self r j, has-append) (ground arith))

-- A process that moves from one queue to another is in the other, and the others stay.
pub moved-has :
    (a : Queues) (r : QueueName) (j : ℕ) (x : Ptr) (r' : QueueName) (j' : ℕ) (p : Ptr)
    → InQueues a p
    → InQueues
        (set_queue
          (set_queue a r j (erase x (a r j)))
          r'
          j'
          (set_queue a r j (erase x (a r j)) r' j' ++ (x ∷ [])))
        p
moved-has a r j x r' j' p u = elim (Bool-cases (p == x)) [
  | inl e ↦
      let same : x ≡ p = ground arith in
      subst (InQueues _) same (append-has_self (set_queue a r j (erase x (a r j))) r' j' x)
  | inr e ↦
      append-has (set_queue a r j (erase x (a r j))) r' j' x p (
        set_queue-has a r j (erase x (a r j)) p (λ h. has-erase_ne p x (a r j) (ground arith) ∙ h)
          u)
]

-- What leaves a queue is the process that is taken out.
pub removed-has :
    (a : Queues) (r : QueueName) (j : ℕ) (x p : Ptr)
    → InQueues a p
    → (p ≡ x) ⊎ InQueues (set_queue a r j (erase x (a r j))) p
removed-has a r j x p u = elim (Bool-cases (p == x)) [
  | inl e ↦ inl (ground arith)
  | inr e ↦
      inr (
        set_queue-has a r j (erase x (a r j)) p (λ h. has-erase_ne p x (a r j) (ground arith) ∙ h)
          u)
]

rest_has :
    (p x : Ptr) (rest : List Ptr) → has p (x ∷ rest) ≡ true → (p == x) ≡ false → has p rest ≡ true
rest_has p x rest h miss = ground arith

pub first-has :
    (a : Queues) (r : QueueName) (j : ℕ) (x : Ptr) (rest : List Ptr) (p : Ptr)
    → a r j ≡ x ∷ rest
    → InQueues a p
    → (p ≡ x) ⊎ InQueues (set_queue a r j rest) p
first-has a r j x rest p e u = elim (Bool-cases (p == x)) [
  | inl hit ↦ inl (ground arith)
  | inr miss ↦ inr (set_queue-has a r j rest p (λ h. rest_has p x rest (rw e at h) miss) u)
]
