-- ===== src/Core/Priority/Outcomes.antt =====
-- set_process_priority_handler, whole: the code that each branch returns, and the kernel after it.
use ece_354_real_time_operat.Base.{
  ℕ, ◌<◌, ◌≡◌, ◌^◌, refl, sym, ap, ◌∙◌, ◌≢◌, inl, inr, true, false, ◌||◌, arith, ◌==◌, ltb,
  if◌then◌else◌, Bool-cases, Returns, returns, bind,
}
use ece_354_real_time_operat.Chain.{Ptr, null, has}
use ece_354_real_time_operat.Core.State.{Kernel, levels, minus_one, is_negative, Queues}
use ece_354_real_time_operat.Core.Interrupts.{atomic, atomic_up, atomic_down}
use ece_354_real_time_operat.Core.Lookup.Finds.{
  Lookup, running, queued, missing, get_process_by_pid-Lookup, Lookup-other,
}
use ece_354_real_time_operat.Core.Invariant.{IsValid, IsTop, IsSteady, IsSteady-trans}
use ece_354_real_time_operat.Core.Switch.Releases.{IsValid-other}
use ece_354_real_time_operat.Core.Blocking.Blocks.{IsSteady-refl}
use ece_354_real_time_operat.Core.Priority.{
  change_running, move_process, change_priority, set_process_priority,
}
use ece_354_real_time_operat.Core.Priority.Changes.{
  with_priority, change_running-IsSteady, move_process-IsSteady,
}

-- A positive pid, and one of the four priorities that a process may have.
pub record IsAllowed (pid priority : ℕ) : Type 0 where
  pub positive : (0 < pid) × (pid < 2 ^ 31)
  pub level : priority < 4

-- What the call answers and leaves.
pub data Answer (k : Kernel) (a : Queues) (pid priority : ℕ) : ℕ × Kernel → Type 0 where
  bad_pid :
      {k' : Kernel}
      → (pid == 0 || is_negative pid) ≡ true
      → IsSteady k k'
      → Answer k a pid priority (2, k')
  bad_priority :
      {k' : Kernel}
      → (pid == 0 || is_negative pid) ≡ false
      → (is_negative priority || ltb 3 priority) ≡ true
      → IsSteady k k'
      → Answer k a pid priority (3, k')
  no_process :
      {k' : Kernel}
      → IsAllowed pid priority
      → Lookup k a pid null
      → IsSteady k k'
      → Answer k a pid priority (4, k')
  unchanged :
      {p : Ptr} {k' : Kernel}
      → IsAllowed pid priority
      → Lookup k a pid p
      → p ≢ null
      → k.priority p ≡ priority
      → IsSteady k k'
      → Answer k a pid priority (0, k')
  changed :
      {p : Ptr} {k' : Kernel}
      → IsAllowed pid priority
      → Lookup k a pid p
      → p ≢ null
      → k.priority p ≢ priority
      → IsSteady (with_priority k p priority) k'
      → Answer k a pid priority (0, k')

-- A process that is found takes the new priority, in its queue or on the processor.
change_found :
    {k : Kernel} {a : Queues} {p : Ptr} (pid n : ℕ)
    → IsValid k a
    → IsTop k a
    → n < levels
    → k.pid k.main_process ≢ pid
    → p ≢ null
    → Lookup k a pid p
    → Returns
        (IsSteady (with_priority k p n))
        (if p == k.running_process then change_running p n k else move_process p n k)
change_found {k} pid n v top low other named (running live e) =
    let self : (k.running_process == k.running_process) ≡ true = ground arith in
    rw self (change_running-IsSteady n v top low)
change_found {k} {a} pid n v top low other named (queued {p} q i inside live e) =
    let apart : p ≢ k.running_process =
      λ e'. cc (sym inside ∙ (ap (λ x. has x (a q i)) e' ∙ v.running.waits q i)) in
    let miss : (p == k.running_process) ≡ false = ground arith in
    rw miss (move_process-IsSteady q i p n v top low inside live)
change_found pid n v top low other named (missing gone out none_left) = absurd (named gone)

-- Where the invariant holds, no ready process has a higher priority than the running one and the
-- pid of `main` is -1, set_process_priority_handler returns, with 2 on a pid that is not
-- positive, 3 only on a positive pid and a priority outside 0 to 3, 4 only if both are allowed and
-- no process has the pid, and 0 only if both are allowed and a process has the pid; then that
-- process has the priority. On every branch the invariant holds after it, all other priorities are
-- as they were, and no ready process has a higher priority than the running one.
pub set_process_priority-Answer :
    {k : Kernel} {a : Queues} (pid priority : ℕ)
    → IsValid k a
    → IsTop k a
    → k.pid k.main_process ≡ minus_one
    → Returns (Answer k a pid priority) (set_process_priority pid priority k)
unfolding set_process_priority change_priority atomic_up atomic_down
set_process_priority-Answer {k} {a} pid n v top main =
    let t = atomic 1 k.atomic in
    let up = IsValid-other t v in
    let still = IsSteady-refl (atomic 0 t) v top in
    elim (Bool-cases (pid == 0 || is_negative pid)) [
      | inl e ↦ rw e (returns (bad_pid e still))
      | inr e ↦ rw e (elim (Bool-cases (is_negative n || ltb 3 n)) [
        | inl e' ↦ rw e' (returns (bad_priority e e' still))
        | inr e' ↦
            let allowed : IsAllowed pid n = record {
              positive = (ground arith, ground arith);
              level = ground arith;
            } in
            rw e' (
              bind (get_process_by_pid-Lookup up.placed pid) λ p found.
                elim (Bool-cases (p == null)) [
                  | inl none_left ↦
                      let gone : p ≡ null = ground arith in
                      rw none_left
                        (returns (no_process allowed (Lookup-other t (rw gone at found)) still))
                  | inr named ↦ rw named (elim (Bool-cases (n == k.priority p)) [
                    | inl same ↦ rw same (
                        returns (
                          unchanged allowed (Lookup-other t found) (ground arith) (ground arith)
                            still))
                    | inr differs ↦ rw differs (
                        bind
                          (change_found pid n up top (ground arith) (ground arith) (ground arith)
                            found)
                          λ k' s. returns (
                            changed allowed (Lookup-other t found) (ground arith) (ground arith)
                              (IsSteady-trans _ refl refl refl (λ x other' h. h) s)))
                  ])
                ])
      ])
    ]
