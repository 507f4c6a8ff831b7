-- ===== src/Messaging/Wakes.antt =====
-- check_existing_delayed_message makes receivers ready, and notes the highest priority among them: no
-- ready process of a still higher priority waits for the processor.
use ece_354_real_time_operat.Core.Present.{removed-has}
use ece_354_real_time_operat.Core.Blocking.Steadies.{woken-has}
use ece_354_real_time_operat.Base.{
  ℕ, ◌<◌, ◌≡◌, refl, sym, ap, ◌∙◌, ◌≢◌, inl, inr, Bool, true, false, not, ◌&&◌, ◌||◌, arith, ◌==◌,
  ltb, if◌then◌else◌, Bool-cases, Returns, returns, bind, mono,
}
use ece_354_real_time_operat.Chain.{Ptr, null, has, has-append, Chain-live}
use ece_354_real_time_operat.Core.State.{
  ready_queue, QueueName, Kernel, Links, Queues, minus_one, place_cases, place_self, Atomic,
}
use ece_354_real_time_operat.Core.Queues.Placed.{removed}
use ece_354_real_time_operat.Core.Interrupts.{atomic}
use ece_354_real_time_operat.Core.Lookup.{is_blocked}
use ece_354_real_time_operat.Core.Lookup.Finds.{Lookup, queued, Lookup-other}
use ece_354_real_time_operat.Core.Lookup.Answers.{
  is_process_blocked-Lookup, get_process_priority-Lookup,
}
use ece_354_real_time_operat.Core.Invariant.{IsValid}
use ece_354_real_time_operat.Core.Switch.Releases.{IsValid-other}
use ece_354_real_time_operat.Core.Switch.Stays.{IsPresent-InQueues}
use ece_354_real_time_operat.Core.Blocking.Unblocks.{removed_stays_empty}
use ece_354_real_time_operat.Core.Blocking.Woken.{
  woken_kernel, woken_queues, relinked, Woken, queued_up, switched, Unblocked, ignored, unblocked,
  unblock_process_by_pid-Unblocked,
}
use ece_354_real_time_operat.Messaging.Handlers.{noted, wake_receiver}
use ece_354_real_time_operat.Messaging.Awake.{HasDistinctPids, IsAwake, Lookup-unique}

-- The priority that get_process_priority answers.
abbrev answer_of : Kernel → Ptr → ℕ
answer_of k p = if p == null then minus_one else k.priority p

abbrev lower_of : ℕ → ℕ → ℕ
lower_of m n = if ltb m n then m else n

lower_min : {answer m : ℕ} (n : ℕ) → answer ≡ m → ltb answer n ≡ true → lower_of m n ≡ m
lower_min n e lower = rw (sym e, lower) refl

upper_min : {answer m : ℕ} (n : ℕ) → answer ≡ m → ltb answer n ≡ false → lower_of m n ≡ n
upper_min n e upper = rw (sym e, upper) refl

below_both : (j m n : ℕ) → j < lower_of m n → (j < m) × (j < n)
below_both j m n = ground arith

noted_lem :
    {k : Kernel} {a : Queues} {p : Ptr} (receiver highest : ℕ)
    → IsValid k a
    → HasDistinctPids k
    → Lookup k a receiver p
    → Returns
        (λ (n, k').
          (t : Atomic) × (n ≡ lower_of (answer_of k p) highest) × (k' ≡ record k { atomic = t }))
        (noted receiver highest k)
unfolding noted
noted_lem {k} {a} {p} receiver highest v d found =
    bind (get_process_priority-Lookup v.placed receiver) λ (answer, k') (q, found', e, e').
      let same : q ≡ p = Lookup-unique v d found' found in
      let said : answer ≡ answer_of k p = e ∙ ap (answer_of k) same in
      let t = atomic 0 (atomic 1 k.atomic) in
      let v' = IsValid-other t v in
      elim (Bool-cases (ltb answer highest)) [
        | inl lower ↦
            rw (lower, e')
              (mono (get_process_priority-Lookup v'.placed receiver)
                λ (answer', k2) (q', found2, e2, e2').
                  let same' : q' ≡ p = Lookup-unique v d (Lookup-other {k = k} t found2) found in
                  (
                    atomic 0 (atomic 1 t),
                    e2 ∙ ap (answer_of k) same' ∙ sym (lower_min highest said lower),
                    e2',
                  ))
        | inr upper ↦ rw (upper, e') (returns (t, sym (upper_min highest said upper), refl))
      ]

has_appended :
    (k : Kernel) (a : Queues) (p : Ptr)
    → has p (woken_queues k p a ready_queue (k.priority p)) ≡ true
has_appended k a p = rw (place_self ready_queue (k.priority p), has-append) (ground arith)

-- A blocked process `p` waits in its ready queue now, and a loop that notes its priority stays right.
queued_up-IsAwake :
    {k0 k : Kernel} {highest : ℕ} {p : Ptr} {l : Links} (q : QueueName) (i receiver : ℕ)
    (v : IsAwake k0 highest k)
    → HasDistinctPids k
    → p ≢ null
    → k.pid p ≡ receiver
    → IsValid
        (woken_kernel (relinked k l) p l)
        (woken_queues (relinked k l) p (removed q i p v.queues))
    → Returns
        (λ (n, k'). IsAwake k0 n k')
        (noted receiver highest (woken_kernel (relinked k l) p l))
queued_up-IsAwake {k0} {k} {highest} {p} {l} q i receiver v d live name valid =
    let k1 = woken_kernel (relinked k l) p l in
    let b = removed q i p v.queues in
    let found = queued ready_queue (k.priority p) (has_appended k1 b p) live name in
    mono
      (noted_lem receiver highest valid (record { distinct = d.distinct; main_low = d.main_low })
        found)
      λ (n, k') (t, e, e').
        let named : (p == null) ≡ false = ground arith in
        let same : n ≡ lower_of (k.priority p) highest = e ∙ (rw named refl) in
        let both =
          λ (j : ℕ) (below : j < n). below_both j (k.priority p) highest (rw same at below) in
        rw e' (record {
          queues = woken_queues k1 p b;
          valid = IsValid-other t valid;
          same_pid = v.same_pid;
          same_priority = v.same_priority;
          same_main = v.same_main;
          same_running = v.same_running;
          keeps = λ x other h.
              elim (IsPresent-InQueues k x v.valid.placed.held (v.keeps x other h)) [
                | inl e2 ↦ inl e2
                | inr u ↦ inr (
                  woken_queues k1 p b,
                  valid.placed.held,
                  woken-has k1 b p x (removed-has v.queues q i p x u),
                )
              ];
          above = λ j before below. elim (place_cases ready_queue (k.priority p) ready_queue j) [
            | inl (hit, eq, ei) ↦ absurd (let (h, h') = both j below in omega arith)
            | inr miss ↦
                rw miss (removed_stays_empty v.queues q p i j (v.above j before (both j below).1))
          ];
        })

Woken-IsAwake :
    {k0 k : Kernel} {highest : ℕ} {p : Ptr} {l : Links} {k1 : Kernel} (q : QueueName)
    (i receiver : ℕ) (v : IsAwake k0 highest k)
    → HasDistinctPids k
    → p ≢ null
    → k.pid p ≡ receiver
    → Woken (relinked k l) (removed q i p v.queues) p false k1
    → Returns (λ (n, k'). IsAwake k0 n k') (noted receiver highest k1)
Woken-IsAwake q i receiver v d live name (queued_up lower valid) =
    queued_up-IsAwake q i receiver v d live name valid
Woken-IsAwake {k = k} {p = p} q i receiver v d live name (switched higher s) =
    absurd (never (ltb (k.priority p) (k.priority k.running_process)) higher)
  where
    never : (b : Bool) → (b && false) ≡ true → ⊥
    never true e = ground arith
    never false e = ground arith

Unblocked-IsAwake :
    {k0 k k1 : Kernel} {highest : ℕ} {p : Ptr} (receiver : ℕ) (v : IsAwake k0 highest k)
    → HasDistinctPids k
    → Lookup k v.queues receiver p
    → (if p == null then false else is_blocked (k.state p)) ≡ true
    → Unblocked k v.queues receiver false k1
    → Returns (λ (n, k'). IsAwake k0 n k') (noted receiver highest k1)
Unblocked-IsAwake {k = k} {p = p} receiver v d found waits (ignored {p = q} found' e) =
    let same : q ≡ p = Lookup-unique v.valid d found' found in absurd (nobody (rw same at e))
  where
    nobody : (p == null || not (is_blocked (k.state p))) ≡ true → ⊥
    nobody h = elim (Bool-cases (p == null)) [ inl z ↦ ground arith | inr z ↦ ground arith ]
Unblocked-IsAwake {k = k} receiver v d found waits (unblocked {p = p} q i inside name is w) =
    let chain = v.valid.placed.held.chains q i in
    let dead = Chain-live k.links.next (k.links.heads q i) (v.queues q i) chain in
    Woken-IsAwake q i receiver v d (λ e. let gone = rw e at inside in ground arith) name w

pub wake_receiver-IsAwake :
    {k0 k : Kernel} (receiver highest : ℕ)
    → IsAwake k0 highest k
    → HasDistinctPids k
    → Returns (λ (n, k'). IsAwake k0 n k') (wake_receiver receiver highest k)
unfolding wake_receiver
wake_receiver-IsAwake {k0} {k} receiver highest v d =
    bind (is_process_blocked-Lookup v.valid.placed receiver) λ blocked (p, found, e).
      elim (Bool-cases blocked) [
        | inl waits ↦ rw waits (
            bind (unblock_process_by_pid-Unblocked receiver false v.valid)
              λ k1 u. Unblocked-IsAwake receiver v d found (sym e ∙ waits) u)
        | inr runs ↦ rw runs (returns v)
      ]
