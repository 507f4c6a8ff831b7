-- ===== src/Core/Lookup/Answers.antt =====
-- is_pid_valid, is_process_blocked and get_process_priority_handler by what get_process_by_pid finds.
use ece_354_real_time_operat.Base.{
  ℕ, ◌≡◌, refl, false, not, ◌==◌, Bool-cases, inl, inr, if◌then◌else◌, Returns, returns, bind,
}
use ece_354_real_time_operat.Chain.{Ptr, null}
use ece_354_real_time_operat.Core.State.{Kernel, Queues, minus_one}
use ece_354_real_time_operat.Core.Interrupts.{atomic, atomic_up, atomic_down}
use ece_354_real_time_operat.Core.Lookup.{
  is_pid_valid, is_blocked, is_process_blocked, get_process_priority,
}
use ece_354_real_time_operat.Core.Lookup.Finds.{Lookup, get_process_by_pid-Lookup, Lookup-other}
use ece_354_real_time_operat.Core.Invariant.{IsPlaced}
use ece_354_real_time_operat.Core.Queues.Placed.{IsPlaced-other}

module _ {k : Kernel} {a : Queues} (v : IsPlaced k a) (pid : ℕ) where
  -- Where the queues and the PCBs agree, is_pid_valid returns whether a process has the pid.
  pub is_pid_valid-Lookup :
      Returns
        (λ valid. (p : Ptr) × Lookup k a pid p × (valid ≡ not (p == null)))
        (is_pid_valid pid k)
  unfolding is_pid_valid
  is_pid_valid-Lookup = bind (get_process_by_pid-Lookup v pid) λ p found. returns (p, found, refl)

  -- The same for is_process_blocked: whether the process that has the pid is blocked; no, if none has.
  pub is_process_blocked-Lookup :
      Returns
        (λ blocked.
          (p : Ptr) × Lookup k a pid p
          × (blocked ≡ (if p == null then false else is_blocked (k.state p))))
        (is_process_blocked pid k)
  unfolding is_process_blocked
  is_process_blocked-Lookup =
      bind (get_process_by_pid-Lookup v pid) λ p found. returns (p, found, refl)

  -- Where the queues and the PCBs agree, get_process_priority_handler returns the priority of a process
  -- that has the pid, and -1 if none has; only the counter of atomic changes.
  pub get_process_priority-Lookup :
      Returns
        (λ (answer, k').
          (p : Ptr) × Lookup k a pid p
          × (answer ≡ (if p == null then minus_one else k.priority p))
          × (k' ≡ record k { atomic = atomic 0 (atomic 1 k.atomic) }))
        (get_process_priority pid k)
  unfolding get_process_priority atomic_up atomic_down
  get_process_priority-Lookup =
      bind
        (get_process_by_pid-Lookup
          (IsPlaced-other k.registers k.running_process k.cpu (atomic 1 k.atomic) v) pid)
        λ p found. elim (Bool-cases (p == null)) [
          | inl e ↦
              rw e (returns (p, Lookup-other {k = k} (atomic 1 k.atomic) found, rw e refl, refl))
          | inr e ↦
              rw e (returns (p, Lookup-other {k = k} (atomic 1 k.atomic) found, rw e refl, refl))
        ]
