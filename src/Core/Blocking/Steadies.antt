-- ===== src/Core/Blocking/Steadies.antt =====
-- The outcomes of block_process and of the two ways to unblock keep the invariant and leave a running
-- process of highest priority; so the calls, which return, do.
use ece_354_real_time_operat.Core.Present.{
  InQueues, IsPresent, Keeps, append-has, append-has_self, moved-has, removed-has, first-has,
}
use ece_354_real_time_operat.Base.{
  Bool, ◌≢◌, ℕ, ◌<◌, ◌≡◌, ◌∙◌, ◌⊎◌, ◌==◌, Bool-cases, subst, sym, refl, inl, inr, true, false, ◌&&◌,
  List, [], arith, ltb, Returns, mono,
}
use ece_354_real_time_operat.Chain.{Ptr}
use ece_354_real_time_operat.Core.State.{
  Links, ready, BlockType, ready_queue, Kernel, Queues, set_queue, place_cases,
}
use ece_354_real_time_operat.Core.Interrupts.{atomic, atomic_up}
use ece_354_real_time_operat.Core.Invariant.{IsValid, IsTop, IsScheduled, IsSteady, IsSteady-trans}
use ece_354_real_time_operat.Core.Switch.Releases.{saved, IsValid-other}
use ece_354_real_time_operat.Core.Switch.Stays.{
  IsScheduled-IsPresent, joined-IsPresent, IsPresent-InQueues,
}
use ece_354_real_time_operat.Core.Queues.Placed.{appended, removed}
use ece_354_real_time_operat.Core.Blocking.{
  block_queue, block_process, unblock_process_by_pid, unblock_process_by_type,
}
use ece_354_real_time_operat.Core.Blocking.Blocks.{
  IsSteady-refl, ready_stays_empty, blocked-ne-ready_queue,
}
use ece_354_real_time_operat.Core.Blocking.Unblocks.{removed_stays_empty}
use ece_354_real_time_operat.Core.Blocking.Blocked.{
  block_process-Blocked, Blocked, ignored, gave_way, moved,
}
use ece_354_real_time_operat.Core.Blocking.Woken.{
  woken_queues, relinked, unblock_process_by_pid-Unblocked, unblock_process_by_type-FirstUnblocked,
  Woken, queued_up, switched, Unblocked, unblocked, FirstUnblocked, none_waits, first_unblocked,
}

pub woken-has :
    (k : Kernel) (a : Queues) (p x : Ptr) → (x ≡ p) ⊎ InQueues a x → InQueues (woken_queues k p a) x
woken-has k a p x (inl e) =
    subst (InQueues _) (sym e) (append-has_self a ready_queue (k.priority p) p)
woken-has k a p x (inr u) = append-has a ready_queue (k.priority p) p x u

IsScheduled-IsSteady :
    {k k' : Kernel} (k0 : Kernel) {a a' : Queues}
    → k0.pid ≡ k.pid
    → k0.priority ≡ k.priority
    → k0.main_process ≡ k.main_process
    → Keeps k k'
    → IsScheduled (saved k0) a k' a'
    → IsSteady k k'
IsScheduled-IsSteady k0 {a' = a'} e f m c s = record {
  queues = a';
  valid = s.valid;
  top = s.top;
  same_pid = s.same_pid ∙ e;
  same_priority = s.same_priority ∙ f;
  same_main = s.same_main ∙ m;
  keeps = c;
}

-- Once a process has been woken, it and all others are there.
Woken-IsPresent :
    {k : Kernel} {a : Queues} {p : Ptr} {k' : Kernel} {allowed : Bool} (x : Ptr)
    → k.state k.running_process ≡ ready
    → Woken k a p allowed k'
    → x ≢ k.main_process
    → (k.running_process ≡ x) ⊎ ((x ≡ p) ⊎ InQueues a x)
    → IsPresent k' x
Woken-IsPresent x able (queued_up lower valid) other (inl e) = inl e
Woken-IsPresent {k} {a} {p} x able (queued_up lower valid) other (inr there) =
    inr (woken_queues k p a, valid.placed.held, woken-has k a p x there)
Woken-IsPresent {k} {a} {p} x able (switched higher s) other there =
    joined-IsPresent _ _ x s
      (elim (Bool-cases (p == k.running_process)) [ inl e ↦ ground arith | inr e ↦ ground arith ])
      other (elim there [ inl e ↦ inl e | inr u ↦ inr (woken-has k a p x u) ])

-- A process that may preempt the running one but does not has no higher priority.
not_higher : (p r i : ℕ) → (ltb p r && true) ≡ false → i < r → p ≡ i → ⊥
not_higher p r i e h e' = ground arith

Woken-IsSteady :
    {k : Kernel} {a : Queues} {p : Ptr} {l : Links} {k' : Kernel}
    → IsTop k a
    → Keeps k k'
    → Woken (relinked k l) a p true k'
    → IsSteady k k'
Woken-IsSteady {k} {a} {p} top c (queued_up lower valid) = record {
  queues = appended ready_queue (k.priority p) p a;
  valid = valid;
  top = λ i h. elim (place_cases ready_queue (k.priority p) ready_queue i) [
    | inl (hit, eq, ei) ↦
        absurd (not_higher (k.priority p) (k.priority k.running_process) i lower h ei)
    | inr miss ↦ rw miss (top i h)
  ];
  same_pid = refl;
  same_priority = refl;
  same_main = refl;
  keeps = c;
}
Woken-IsSteady top c (switched higher s) = IsScheduled-IsSteady _ refl refl refl c s

other_queue :
    (a : Queues) (type : BlockType) (i j : ℕ) (rest : List Ptr)
    → a ready_queue j ≡ []
    → set_queue a (block_queue type) i rest ready_queue j ≡ []
other_queue a type i j rest e = elim (place_cases (block_queue type) i ready_queue j) [
  | inl (hit, eq, ei) ↦ absurd (blocked-ne-ready_queue type eq)
  | inr miss ↦ rw miss e
]

module _ {k : Kernel} {a : Queues} (v : IsValid k a) (top : IsTop k a) where
  -- A process that leaves the queues `a` for `b` and is woken is not lost, nor any other.
  woken-Keeps :
      {b : Queues} {p : Ptr} {l : Links} {allowed : Bool} {k' : Kernel}
      → ((x : Ptr) → InQueues a x → (x ≡ p) ⊎ InQueues b x)
      → Woken (relinked k l) b p allowed k'
      → Keeps k k'
  woken-Keeps left w x other h =
      Woken-IsPresent x v.running.is_ready w other
        (elim (IsPresent-InQueues k x v.placed.held h) [ inl e ↦ inl e | inr u ↦ inr (left x u) ])

  pub Unblocked-IsSteady : {k' : Kernel} (pid : ℕ) → Unblocked k a pid true k' → IsSteady k k'
  Unblocked-IsSteady pid (Unblocked.ignored found e) =
      IsSteady-refl (atomic 0 (atomic 1 k.atomic)) v top
  Unblocked-IsSteady pid (unblocked {p} q i inside e blocked w) =
      Woken-IsSteady (λ j h. removed_stays_empty a q p i j (top j h))
        (woken-Keeps (λ x. removed-has a q i p x) w) w

  pub FirstUnblocked-IsSteady :
      {k' : Kernel} (type : BlockType) → FirstUnblocked k a type k' → IsSteady k k'
  FirstUnblocked-IsSteady type (none_waits gone) =
      IsSteady-refl (atomic 0 (atomic 1 k.atomic)) v top
  FirstUnblocked-IsSteady type (first_unblocked {p = p} {i = i} {rest = rest} full above w) =
      Woken-IsSteady (λ j h. other_queue a type i j rest (top j h))
        (woken-Keeps (λ x. first-has a (block_queue type) i p rest x full) w) w

  pub Blocked-IsSteady :
      (pid : ℕ) (type : BlockType) {k' : Kernel} → Blocked k a pid type k' → IsSteady k k'
  Blocked-IsSteady pid type (ignored found e) = IsSteady-refl (atomic 0 k.atomic) v top
  Blocked-IsSteady pid type (gave_way e s) =
      IsScheduled-IsSteady _ refl refl refl
        (λ x other h. IsScheduled-IsPresent x s (elim (IsPresent-InQueues k x v.placed.held h) [
          | inl e' ↦ subst (InQueues _) e' (
              append-has_self a (block_queue type) (k.priority k.running_process) k.running_process)
          | inr u ↦
              append-has a (block_queue type) (k.priority k.running_process) k.running_process x u
        ]))
        s
  Blocked-IsSteady pid type (moved {p} i inside e valid) = record {
    queues = appended (block_queue type) (k.priority p) p (removed ready_queue i p a);
    valid = valid;
    top = λ j h.
        ready_stays_empty a p i j (k.priority p) (block_queue type) (blocked-ne-ready_queue type)
          (top j h);
    same_pid = refl;
    same_priority = refl;
    same_main = refl;
    keeps = λ x other h. elim (IsPresent-InQueues k x v.placed.held h) [
      | inl e' ↦ inl e'
      | inr u ↦ inr (
        appended (block_queue type) (k.priority p) p (removed ready_queue i p a),
        valid.placed.held,
        moved-has a ready_queue i p (block_queue type) (k.priority p) x u,
      )
    ];
  }

  -- Where the invariant holds and no ready process has a higher priority than the running one,
  -- both are so after unblock_process_by_pid with leave to release the processor, which returns.
  -- No pid or priority changes.
  pub unblock_process_by_pid-IsSteady :
      (pid : ℕ) → Returns (IsSteady k) (unblock_process_by_pid pid true k)
  unblock_process_by_pid-IsSteady pid =
      mono (unblock_process_by_pid-Unblocked pid true v) λ k' u. Unblocked-IsSteady pid u

  -- Where the invariant holds and no ready process has a higher priority than the running one, both
  -- are so after unblock_process_by_type, which returns. No pid or priority changes.
  pub unblock_process_by_type-IsSteady :
      (type : BlockType) → Returns (IsSteady k) (unblock_process_by_type type k)
  unblock_process_by_type-IsSteady type =
      mono (unblock_process_by_type-FirstUnblocked type v) λ k' u. FirstUnblocked-IsSteady type u

-- Where the invariant holds and no ready process has a higher priority than the running one, both
-- are so after block_process, which returns, if its pid is not that of `main`. No pid or priority
-- changes.
pub block_process-IsSteady :
    {k : Kernel} {a : Queues} (pid : ℕ) (type : BlockType)
    → IsValid k a
    → IsTop k a
    → pid ≢ k.pid k.main_process
    → Returns (IsSteady k) (block_process pid type k)
unfolding atomic_up
block_process-IsSteady {k} pid type v top other =
    mono (block_process-Blocked pid type v other) λ k' b.
      IsSteady-trans _ refl refl refl (λ x other h. h)
        (Blocked-IsSteady (IsValid-other (atomic 1 k.atomic) v) top pid type b)
