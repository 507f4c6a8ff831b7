-- ===== src/Core/Blocking/Woken.antt =====
-- What unblocking does to one process, and to all others: where the process goes, and who runs.
use ece_354_real_time_operat.Base.{
  ℕ, ◌≡◌, sym, ap, subst, ◌∙◌, ◌≢◌, inl, inr, Bool, true, false, not, ◌&&◌, ◌||◌, [], arith, ◌==◌,
  ltb, Bool-cases, Returns, returns, bind, mono, ◌<◌, ◌>>=◌, List, ◌∷◌,
}
use ece_354_real_time_operat.Chain.{Ptr, null, has, erase, Chain-head, Chain-nil, erase-head}
use ece_354_real_time_operat.Core.State.{
  ready_queue, QueueName, BlockType, Links, Kernel, levels, Queues, set_queue, Holds,
}
use ece_354_real_time_operat.Core.Queues.{first_level, unlink_first, remove_process}
use ece_354_real_time_operat.Core.Queues.Holds.{unlink_first-Holds}
use ece_354_real_time_operat.Core.Queues.TopLevel.{top_level}
use ece_354_real_time_operat.Core.Queues.Placed.{appended, removed, remove_process-IsPlaced}
use ece_354_real_time_operat.Core.Interrupts.{atomic, atomic_up, atomic_down}
use ece_354_real_time_operat.Core.Lookup.{is_blocked}
use ece_354_real_time_operat.Core.Lookup.Finds.{
  Lookup, running, queued, missing, get_process_by_pid-Lookup, Lookup-other,
}
use ece_354_real_time_operat.Core.Invariant.{IsValid, IsScheduled}
use ece_354_real_time_operat.Core.Switch.Releases.{
  IsValid-other, saved, joined, release_processor-IsScheduled, IsValid-IsSwitchable,
}
use ece_354_real_time_operat.Core.Blocking.{
  block_queue, make_ready, unblock_process_by_pid, unblock_process_by_type,
}
use ece_354_real_time_operat.Core.Blocking.Unblocks.{
  IsLoose, readied, readied-IsValid, make_ready_step, removed-IsLoose, blocked_not_ready,
  blocked_queue_state,
}

-- The process is ready, at the end of the ready queue of its priority.
abbrev pub woken_queues : Kernel → Ptr → Queues → Queues
woken_queues k p a = appended ready_queue (k.priority p) p a

abbrev pub woken_kernel : Kernel → Ptr → Links → Kernel
woken_kernel k p l = record (readied k p l) { atomic = atomic 0 k.atomic }

abbrev pub preempts : Kernel → Ptr → Bool → Bool
preempts k p allowed = ltb (k.priority p) (k.priority k.running_process) && allowed

-- The kernel `k'` after the process `p`, which has left its queue in `k`, is made ready: it waits in its
-- ready queue, or the scheduler has run with it there.
pub data Woken (k : Kernel) (a : Queues) (p : Ptr) (allowed : Bool) : Kernel → Type 0 where
  queued_up :
      {l : Links}
      → preempts k p allowed ≡ false
      → IsValid (woken_kernel k p l) (woken_queues k p a)
      → Woken k a p allowed (woken_kernel k p l)
  switched :
      {l : Links} {k' : Kernel} {a' : Queues}
      → preempts k p allowed ≡ true
      → IsScheduled
          (saved (woken_kernel k p l))
          (joined (woken_kernel k p l) (woken_queues k p a))
          k'
          a'
      → Woken k a p allowed k'

make_ready-Woken :
    {k : Kernel} {a : Queues} (p : Ptr) (allowed : Bool)
    → IsLoose k a p
    → Returns (Woken k a p allowed) (make_ready p allowed k)
unfolding make_ready atomic_down
make_ready-Woken {k} {a} p allowed v = bind (make_ready_step p v) λ k1 (l, e, placed).
    let valid = IsValid-other (atomic 0 k.atomic) (readied-IsValid v placed) in
    rw e (elim (Bool-cases (preempts k p allowed)) [
      | inl higher ↦ rw higher (
          mono (release_processor-IsScheduled (IsValid-IsSwitchable valid))
            λ k' (a', s). switched {l = l} higher s)
      | inr lower ↦ rw lower (returns (queued_up lower valid))
    ])

-- The kernel in atomic mode, with other links.
abbrev pub relinked : Kernel → Links → Kernel
relinked k l = record k { links = l; atomic = atomic 1 k.atomic }

-- What unblock_process_by_pid finds and does.
pub data Unblocked (k : Kernel) (a : Queues) (pid : ℕ) (allowed : Bool) : Kernel → Type 0 where
  ignored :
      {p : Ptr}
      → Lookup k a pid p
      → (p == null || not (is_blocked (k.state p))) ≡ true
      → Unblocked k a pid allowed (record k { atomic = atomic 0 (atomic 1 k.atomic) })
  unblocked :
      {p : Ptr} {l : Links} {k' : Kernel} (q : QueueName) (i : ℕ)
      → has p (a q i) ≡ true
      → k.pid p ≡ pid
      → is_blocked (k.state p) ≡ true
      → Woken (relinked k l) (removed q i p a) p allowed k'
      → Unblocked k a pid allowed k'

wake_found :
    {k : Kernel} {a : Queues} {p : Ptr} (pid : ℕ) (allowed : Bool)
    → IsValid k a
    → Lookup k a pid p
    → p ≢ null
    → is_blocked (k.state p) ≡ true
    → Returns
        (Unblocked k a pid allowed)
        (do k1 ← remove_process p (atomic_up k); make_ready p allowed k1)
unfolding atomic_up
wake_found pid allowed v (running live e) named blocked =
    absurd (blocked_not_ready _ blocked v.running.is_ready)
wake_found {k} {a} pid allowed v (queued {p} q i inside live e) named blocked =
    let waiting = blocked_not_ready (k.state p) blocked in
    let up = IsValid-other (atomic 1 k.atomic) v in
    bind
      (remove_process-IsPlaced q p up.placed i inside
        (λ e'. waiting (ap k.state e' ∙ v.running.is_ready)))
      λ k1 (l, e', placed). rw e' (
        mono (make_ready-Woken p allowed (removed-IsLoose q i p up inside live waiting placed.held))
          λ k' w. unblocked {l = l} q i inside e blocked w)
wake_found pid allowed v (missing gone out none_left) named blocked = absurd (named gone)

-- Where the invariant holds, unblock_process_by_pid returns. If no process of that pid is
-- blocked, nothing but the counter of atomic has changed. Otherwise the process leaves its
-- blocked queue for the end of the ready queue of its priority and is ready; the scheduler runs
-- if that priority is higher than that of the running process and the caller allows it, and else
-- only links, states and the counter change.
pub unblock_process_by_pid-Unblocked :
    {k : Kernel} {a : Queues} (pid : ℕ) (allowed : Bool)
    → IsValid k a
    → Returns (Unblocked k a pid allowed) (unblock_process_by_pid pid allowed k)
unfolding unblock_process_by_pid atomic_up atomic_down
unblock_process_by_pid-Unblocked {k} {a} pid allowed v =
    bind (get_process_by_pid-Lookup (IsValid-other (atomic 1 k.atomic) v).placed pid) λ p found.
      let found' = Lookup-other (atomic 1 k.atomic) found in
      elim (Bool-cases (p == null || not (is_blocked (k.state p)))) [
        | inl e ↦ rw e (returns (ignored found' e))
        | inr e ↦ rw e (wake_found pid allowed v found' (ground arith) (ground arith))
      ]

-- What unblock_process_by_type finds and does.
pub data FirstUnblocked (k : Kernel) (a : Queues) (type : BlockType) : Kernel → Type 0 where
  none_waits :
      ((i : ℕ) → i < levels → a (block_queue type) i ≡ [])
      → FirstUnblocked k a type (record k { atomic = atomic 0 (atomic 1 k.atomic) })
  first_unblocked :
      {p : Ptr} {i : ℕ} {rest : List Ptr} {l : Links} {k' : Kernel}
      → a (block_queue type) i ≡ p ∷ rest
      → ((j : ℕ) → j < i → a (block_queue type) j ≡ [])
      → Woken (relinked k l) (set_queue a (block_queue type) i rest) p true k'
      → FirstUnblocked k a type k'

-- Where the invariant holds, unblock_process_by_type returns. If no process waits for the
-- resource, nothing but the counter of atomic has changed. Otherwise it makes the first process
-- of highest priority that waits ready, at the end of the ready queue of its priority, and the
-- scheduler runs if that priority is higher than that of the running process.
pub unblock_process_by_type-FirstUnblocked :
    {k : Kernel} {a : Queues} (type : BlockType)
    → IsValid k a
    → Returns (FirstUnblocked k a type) (unblock_process_by_type type k)
unfolding unblock_process_by_type atomic_up atomic_down
unblock_process_by_type-FirstUnblocked {k} {a} type v =
    let q = block_queue type in
    let i = first_level levels 0 (k.links.heads q) in
    let (skipped, most, live) = top_level (k.links.heads q) in
    let chains = v.placed.held.chains q in
    let above : (j : ℕ) → j < i → a q j ≡ [] =
      λ j h. Chain-nil k.links.next (k.links.heads q j) (a q j) (chains j) (skipped j h) in
    elim (Bool-cases (i == levels)) [
      | inl e ↦ rw e (returns (none_waits (λ j h. above j (ground arith))))
      | inr e ↦
          let p = k.links.heads q i in
          let named = live (ground arith) in
          let (rest, full, out, tail) = Chain-head k.links.next p (a q i) (chains i) named in
          let (first, held) = unlink_first-Holds q i p v.placed.held e full in
          let erased : erase p (a q i) ≡ rest = ap (erase p) full ∙ erase-head p rest in
          let held' =
            subst (λ xs. Holds (unlink_first k.links q i).1 (set_queue a q i xs)) (sym erased)
              held in
          let inside : has p (a q i) ≡ true = rw full (ground arith) in
          let loose =
            removed-IsLoose q i p (IsValid-other (atomic 1 k.atomic) v) inside named
              (blocked_queue_state type (k.state p) (v.placed.placed q i p inside).0) held' in
          rw (e, first)
            (mono (make_ready-Woken p true loose) λ k' w.
              first_unblocked {l = (unlink_first k.links q i).1} full above (
                subst
                  (λ xs.
                    Woken (relinked k (unlink_first k.links q i).1) (set_queue a q i xs) p true k')
                  erased w))
    ]
