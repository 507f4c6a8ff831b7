-- ===== src/Core/Priority/Changes.antt =====
-- set_process_priority_handler on every branch: what it returns, and that it keeps the invariant.
use ece_354_real_time_operat.Core.Present.{IsPresent, moved-has}
use ece_354_real_time_operat.Base.{
  ℕ, ◌<◌, ◌≡◌, refl, sym, ap, subst, ◌∙◌, ◌≢◌, inl, inr, true, false, ◌&&◌, arith, ◌==◌, ltb,
  update, Bool-cases, Returns, returns, bind, mono,
}
use ece_354_real_time_operat.Chain.{Ptr, null, has}
use ece_354_real_time_operat.Core.State.{
  QueueName, ready_queue, same_queue, Kernel, levels, Queues, place_cases,
}
use ece_354_real_time_operat.Core.Queues.Placed.{
  appended, removed, enqueue_process-IsPlaced, remove_process-IsPlaced, removed-Waits,
  set_priority-IsPlaced, Waits-appended, Waits-removed,
}
use ece_354_real_time_operat.Core.Interrupts.{atomic, atomic_down}
use ece_354_real_time_operat.Core.Invariant.{IsPlaced, IsValid, IsTop, IsSteady, IsSteady-trans}
use ece_354_real_time_operat.Core.Switch.Releases.{IsValid-other}
use ece_354_real_time_operat.Core.Switch.Stays.{IsPresent-InQueues, release_processor-IsSteady}
use ece_354_real_time_operat.Core.Blocking.Blocks.{IsSteady-refl}
use ece_354_real_time_operat.Core.Blocking.Unblocks.{removed_stays_empty}
use ece_354_real_time_operat.Core.Priority.{move_process, change_running}

-- The kernel with another priority of one process.
abbrev pub with_priority : Kernel → Ptr → ℕ → Kernel
with_priority k p n = record k { priority = update k.priority p n }

pub change_running-IsSteady :
    {k : Kernel} {a : Queues} (n : ℕ)
    → IsValid k a
    → IsTop k a
    → n < levels
    → Returns
        (IsSteady (with_priority k k.running_process n))
        (change_running k.running_process n k)
unfolding change_running atomic_down
change_running-IsSteady {k} {a} n v top low =
    let p = k.running_process in
    let self : (p == p) ≡ true = ground arith in
    let valid : IsValid (with_priority k p n) a = record {
      placed = set_priority-IsPlaced p n v.placed v.running.waits;
      running = record {
        live = v.running.live;
        waits = v.running.waits;
        is_ready = v.running.is_ready;
        low = v.running.low;
        level = λ _. rw self low;
      };
    } in
    elim (Bool-cases (ltb (k.priority p) n)) [
      | inl lower ↦ rw lower (
          mono (release_processor-IsSteady (IsValid-other (atomic 0 k.atomic) valid))
            λ k' s. IsSteady-trans _ refl refl refl (λ x other h. h) s)
      | inr higher ↦ rw higher (
          returns (
            IsSteady-refl (atomic 0 k.atomic) valid
              λ i h. let h' : i < n = rw self at h in top i (ground arith)))
    ]

no_higher :
    (n j m : ℕ) (q : QueueName)
    → (ltb n m && same_queue q ready_queue) ≡ false
    → q ≡ ready_queue
    → n ≡ j
    → j < m
    → ⊥
no_higher n j m q later eq ei h =
    let later' : (ltb n m && same_queue ready_queue ready_queue) ≡ false = rw eq at later in
    ground arith

pub move_process-IsSteady :
    {k : Kernel} {a : Queues} (q : QueueName) (i : ℕ) (p : Ptr) (n : ℕ)
    → IsValid k a
    → IsTop k a
    → n < levels
    → has p (a q i) ≡ true
    → p ≢ null
    → Returns (IsSteady (with_priority k p n)) (move_process p n k)
unfolding move_process atomic_down
move_process-IsSteady {k} {a} q i p n v top low inside live =
    let idle : p ≢ k.running_process =
      λ e. cc (sym inside ∙ (ap (λ x. has x (a q i)) e ∙ v.running.waits q i)) in
    let other : p ≢ k.main_process =
      λ e. cc (sym inside ∙ (ap (λ x. has x (a q i)) e ∙ v.placed.main_waits q i)) in
    let apart : (p == k.running_process) ≡ false = ground arith in
    let self : (p == p) ≡ true = ground arith in
    let (at, prio, level) = v.placed.placed q i p inside in
    let waits = removed-Waits q p v.placed i inside in
    bind (remove_process-IsPlaced q p v.placed i inside idle) λ k1 (l, e, placed).
      rw (e, at)
        (bind
          (enqueue_process-IsPlaced {k = with_priority (record k { links = l }) p n} q p
            (set_priority-IsPlaced p n placed waits) live other waits
            (v.placed.held.small q i p inside) (rw self low) at)
          λ k2 (l', e', placed').
            let own : update k.priority p n p ≡ n = rw self in
            let valid : IsValid (record k { links = l'; priority = update k.priority p n })
                (appended q n p (removed q i p a)) =
              record {
                placed =
                    subst
                      (λ m.
                        IsPlaced (record k { links = l'; priority = update k.priority p n })
                          (appended q m p (removed q i p a)))
                      own placed';
                running = record {
                  live = v.running.live;
                  waits =
                      Waits-appended _ q n p k.running_process
                        (Waits-removed a q i p k.running_process v.running.waits)
                        (λ e'. idle (sym e'));
                  is_ready = v.running.is_ready;
                  low = v.running.low;
                  level = λ ne. rw apart (v.running.level ne);
                };
              } in
            let up = IsValid-other (atomic 0 k.atomic) valid in
            let stays = λ (x : Ptr) (h : IsPresent k x).
              elim (IsPresent-InQueues k x v.placed.held h)
                as (λ _. IsPresent (record k { links = l'; priority = update k.priority p n }) x) [
                  | inl e2 ↦ inl e2
                  | inr u ↦ inr (
                    appended q n p (removed q i p a),
                    valid.placed.held,
                    moved-has a q i p q n x u,
                  )
                ] in
            rw (e', apart)
              (elim (Bool-cases
                (ltb n (k.priority k.running_process) && same_queue q ready_queue)) [
                  | inl now ↦ rw now (
                      mono (release_processor-IsSteady up)
                        λ k' s. IsSteady-trans _ refl refl refl (λ x ne h. stays x h) s)
                  | inr later ↦ rw later (
                      returns (record {
                        queues = appended q n p (removed q i p a);
                        valid = up;
                        top = λ j h.
                            let h' : j < k.priority k.running_process = rw apart at h in
                            elim (place_cases q n ready_queue j) [
                              | inl (hit, eq, ei) ↦ absurd (no_higher n j _ q later eq ei h')
                              | inr miss ↦ rw miss (removed_stays_empty a q p i j (top j h'))
                            ];
                        same_pid = refl;
                        same_priority = refl;
                        same_main = refl;
                        keeps = λ x ne h. stays x h;
                      }))
                ]))
