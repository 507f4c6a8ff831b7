-- ===== src/Core/Switch/Stays.antt =====
-- A switch loses no process.
use ece_354_real_time_operat.Core.Switch.Releases.{
  saved, joined, release_processor-IsScheduled, IsValid-IsSwitchable,
}
use ece_354_real_time_operat.Core.Present.{
  InQueues, IsPresent, Holds-InQueues, append-has, append-has_self, first-has,
}
use ece_354_real_time_operat.Core.Invariant.{Picked, idle, first}
use ece_354_real_time_operat.Base.{
  ◌≡◌, sym, subst, ◌∙◌, ◌⊎◌, ◌≢◌, inl, inr, true, not, ◌&&◌, arith, ◌==◌, Bool-cases, Returns, mono,
}
use ece_354_real_time_operat.Chain.{Ptr}
use ece_354_real_time_operat.Core.State.{ready, ready_queue, Kernel, Queues, Holds}
use ece_354_real_time_operat.Core.Invariant.{IsScheduled, IsValid, IsSteady}
use ece_354_real_time_operat.Core.Switch.{is_ready, release_processor}

-- What stands in a queue stays there, or is picked.
Picked-has :
    {a a' : Queues} {main x p : Ptr} → Picked a main x a' → InQueues a p → (x ≡ p) ⊎ InQueues a' p
Picked-has (idle none_ready) u = inr u
Picked-has {a = a} {p = p} (first {p = x} {i = i} {rest = rest} low e above) u =
    elim (first-has a ready_queue i x rest p e u) [
      | inl same ↦ inl (sym same)
      | inr there ↦ inr there
    ]

pub IsScheduled-IsPresent :
    {k k' : Kernel} {a a' : Queues} (p : Ptr)
    → IsScheduled k a k' a'
    → InQueues a p
    → IsPresent k' p
IsScheduled-IsPresent {a' = a'} p s u = elim (Picked-has s.picked u) [
  | inl e ↦ inl e
  | inr there ↦ inr (a', s.valid.placed.held, there)
]

-- A switch loses neither the ready process that runs nor one in a queue.
pub joined-IsPresent :
    (k : Kernel) (a : Queues) {k' : Kernel} {a' : Queues} (p : Ptr)
    → IsScheduled (saved k) (joined k a) k' a'
    → k.state k.running_process ≡ ready
    → p ≢ k.main_process
    → (k.running_process ≡ p) ⊎ InQueues a p
    → IsPresent k' p
joined-IsPresent k a p s able other (inl e) =
    let test : (not (k.running_process == k.main_process) && is_ready (k.state k.running_process))
        ≡ true =
      rw able (
        let ne = λ (e' : k.running_process ≡ k.main_process). other (sym e ∙ e') in ground arith) in
    IsScheduled-IsPresent p s (
      rw test (
        subst (InQueues _) e
          (append-has_self a ready_queue (k.priority k.running_process) k.running_process)))
joined-IsPresent k a p s able other (inr u) =
    IsScheduled-IsPresent p s
      (elim (Bool-cases
        (not (k.running_process == k.main_process) && is_ready (k.state k.running_process))) [
          | inl e ↦
              rw e (append-has a ready_queue (k.priority k.running_process) k.running_process p u)
          | inr e ↦ rw e u
        ])

-- What is present runs, or stands in the queues that the links hold.
pub IsPresent-InQueues :
    (k : Kernel) {a : Queues} (p : Ptr)
    → Holds k.links a
    → IsPresent k p
    → (k.running_process ≡ p) ⊎ InQueues a p
IsPresent-InQueues k p held (inl e) = inl e
IsPresent-InQueues k p held (inr (b, held', u)) = inr (Holds-InQueues p held held' u)

-- A switch from a kernel in which the invariant holds ends in a steady one.
pub release_processor-IsSteady :
    {k : Kernel} {a : Queues} → IsValid k a → Returns (IsSteady k) (release_processor k)
release_processor-IsSteady {k} {a} v =
    mono (release_processor-IsScheduled (IsValid-IsSwitchable v)) λ k' (a', s). record {
      queues = a';
      valid = s.valid;
      top = s.top;
      same_pid = s.same_pid;
      same_priority = s.same_priority;
      same_main = s.same_main;
      keeps = λ p other h.
          joined-IsPresent k a p s v.running.is_ready other
            (IsPresent-InQueues k p v.placed.held h);
    }
