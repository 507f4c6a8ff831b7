-- ===== src/Core/Blocking/Preempts.antt =====
-- A blocked process of higher priority than the running one gets the processor once it is unblocked.
use ece_354_real_time_operat.Base.{
  ℕ, ◌≡◌, refl, sym, ap, ◌∙◌, ◌≢◌, ◌<◌, inl, inr, true, false, not, ◌&&◌, [], ◌∷◌, arith, ◌==◌, ltb,
  Bool-cases, Returns, mono,
}
use ece_354_real_time_operat.Chain.{Ptr, has}
use ece_354_real_time_operat.Core.State.{
  ready_queue, QueueName, Links, Kernel, levels, Queues, place_self,
}
use ece_354_real_time_operat.Core.Lookup.{is_blocked}
use ece_354_real_time_operat.Core.Lookup.Finds.{running, queued, missing}
use ece_354_real_time_operat.Core.Invariant.{IsValid, IsTop, Picked, idle, first}
use ece_354_real_time_operat.Core.Switch.{is_ready}
use ece_354_real_time_operat.Core.Switch.Releases.{joined}
use ece_354_real_time_operat.Core.Blocking.{unblock_process_by_pid}
use ece_354_real_time_operat.Core.Blocking.Unblocks.{removed_stays_empty}
use ece_354_real_time_operat.Core.Blocking.Woken.{
  woken_kernel, woken_queues, Woken, queued_up, switched, Unblocked, ignored, unblocked,
  unblock_process_by_pid-Unblocked,
}

-- A process that is alone in the first ready queue that is not empty is the one that is picked.
Picked-alone :
    {a a' : Queues} {main p' : Ptr} (p : Ptr) (n : ℕ)
    → Picked a main p' a'
    → n < levels
    → a ready_queue n ≡ p ∷ []
    → ((j : ℕ) → j < n → a ready_queue j ≡ [])
    → p' ≡ p
Picked-alone {a} p n (idle none_ready) low at above = cc (sym at ∙ none_ready n low)
Picked-alone {a} p n (first {p = p'} {i} {rest} low' at' above') low at above =
    elim (Bool-cases (ltb i n)) [
      | inl e ↦ cc (sym at' ∙ above i (ground arith))
      | inr e ↦ elim (Bool-cases (ltb n i)) [
        | inl e' ↦ cc (sym at ∙ above' n (ground arith))
        | inr e' ↦
            let same : i ≡ n = ground arith in
            let both : p' ∷ rest ≡ p ∷ [] = sym at' ∙ (ap (a ready_queue) same ∙ at) in cc both
      ]
    ]

-- The queues that the scheduler finds: the process alone at its level, and nothing above.
joined_alone :
    (k : Kernel) (a : Queues) (p : Ptr) (l : Links)
    → IsTop k a
    → ltb (k.priority p) (k.priority k.running_process) ≡ true
    → (joined (woken_kernel k p l) (woken_queues k p a) ready_queue (k.priority p) ≡ p ∷ [])
      × ((j : ℕ)
          → j < k.priority p
          → joined (woken_kernel k p l) (woken_queues k p a) ready_queue j ≡ [])
joined_alone k a p l top higher =
    let r = k.running_process in
    let n = k.priority p in
    let at : woken_queues k p a ready_queue n ≡ p ∷ [] =
      rw (place_self ready_queue n, top n (ground arith)) refl in
    let above : (j : ℕ) → j < n → woken_queues k p a ready_queue j ≡ [] =
      λ j h. let apart : (n == j) ≡ false = ground arith in rw apart (top j (ground arith)) in
    elim (Bool-cases (not (r == k.main_process) && is_ready ((woken_kernel k p l).state r))) [
      | inl e ↦
          let apart : (k.priority r == n) ≡ false = ground arith in
          rw (e, apart)
            (
              at,
              λ j h.
                  let apart' : (k.priority r == j) ≡ false = ground arith in rw apart' (above j h),
            )
      | inr e ↦ rw e (at, above)
    ]

-- What the scheduler picks once the process `p` is made ready.
Woken-runs :
    {k : Kernel} {a : Queues} {p : Ptr} {k' : Kernel}
    → IsTop k a
    → k.priority p < levels
    → ltb (k.priority p) (k.priority k.running_process) ≡ true
    → Woken k a p true k'
    → k'.running_process ≡ p
Woken-runs top low higher (queued_up never placed) = absurd (ground arith)
Woken-runs {k} {a} {p} top low higher (switched {l = l} now s) =
    let (at, above) = joined_alone k a p l top higher in
    Picked-alone p (k.priority p) s.picked low at above

-- Where `p` is blocked and the only process of its pid, it is the one that is unblocked.
Unblocked-runs :
    {k : Kernel} {a : Queues} (p : Ptr) (q : QueueName) (i : ℕ)
    → IsValid k a
    → IsTop k a
    → has p (a q i) ≡ true
    → is_blocked (k.state p) ≡ true
    → ltb (k.priority p) (k.priority k.running_process) ≡ true
    → k.pid k.running_process ≢ k.pid p
    → ((r : QueueName) (j : ℕ) (b : Ptr) → has b (a r j) ≡ true → k.pid b ≡ k.pid p → b ≡ p)
    → {k' : Kernel} → Unblocked k a (k.pid p) true k'
    → k'.running_process ≡ p
Unblocked-runs p q i v top inside blocked higher other only (ignored (running live e) skipped) =
    absurd (other e)
Unblocked-runs {k} p q i v top inside blocked higher other only
      (ignored (queued {p = b} r j there live e) skipped) =
    let same = only r j b there e in
    let blocked' : is_blocked (k.state b) ≡ true =
      ap (λ x. is_blocked (k.state x)) same ∙ blocked in
    absurd (ground arith)
Unblocked-runs p q i v top inside blocked higher other only
      (ignored (missing gone out none_left) skipped) =
    absurd (none_left q i p inside refl)
Unblocked-runs {k} {a} p q i v top inside blocked higher other only
      (unblocked {p = b} r j there e held w) =
    let same = only r j b there e in
    let (at, prio, level) = v.placed.placed r j b there in
    Woken-runs (λ m h. removed_stays_empty a r b j m (top m h)) (rw prio level) (rw same higher) w
    ∙ same

-- Where the invariant holds and no ready process has a higher priority than the running one, and
-- `p` is blocked, is the only process of its pid and has a higher priority than the running
-- process, unblock_process_by_pid with leave to release the processor returns, and `p` runs after
-- it.
pub unblock_process_by_pid-running_process :
    {k : Kernel} {a : Queues} (p : Ptr) (q : QueueName) (i : ℕ)
    → IsValid k a
    → IsTop k a
    → has p (a q i) ≡ true
    → is_blocked (k.state p) ≡ true
    → ltb (k.priority p) (k.priority k.running_process) ≡ true
    → k.pid k.running_process ≢ k.pid p
    → ((r : QueueName) (j : ℕ) (b : Ptr) → has b (a r j) ≡ true → k.pid b ≡ k.pid p → b ≡ p)
    → Returns (λ k'. k'.running_process ≡ p) (unblock_process_by_pid (k.pid p) true k)
unblock_process_by_pid-running_process {k} {a} p q i v top inside blocked higher other only =
    mono (unblock_process_by_pid-Unblocked (k.pid p) true v)
      λ k' u. Unblocked-runs p q i v top inside blocked higher other only u
