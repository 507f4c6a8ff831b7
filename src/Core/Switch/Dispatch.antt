-- ===== src/Core/Switch/Dispatch.antt =====
-- `dispatch`, the second half of proc_switch_handler: from well-formed queues it reaches a kernel in
-- which the invariant holds and the running process has the highest priority.
use ece_354_real_time_operat.Base.{
  ℕ, ◌≡◌, refl, sym, ap, ◌∙◌, ◌≢◌, inl, inr, true, arith, ◌==◌, update, Bool-cases,
}
use ece_354_real_time_operat.Chain.{Ptr, has}
use ece_354_real_time_operat.Core.State.{ProcessState, new, ready, QueueName, Links, Kernel, Queues}
use ece_354_real_time_operat.Core.Invariant.{IsPlaced, IsScheduled}
use ece_354_real_time_operat.Core.Switch.{choose, start, dispatch}
use ece_354_real_time_operat.Core.Switch.Schedules.{
  Choice, choose-Choice, Picked-Pick, Picked-Waits, ready_states,
}

-- The kernel that is left when process `p` runs, and the states of the PCBs are `s`.
abbrev run_next : Kernel → Links → Ptr → (Ptr → ProcessState) → Kernel
run_next k l p s = record k { links = l; running_process = p; cpu = k.registers p; state = s }

Choice-IsScheduled :
    {k : Kernel} {a a' : Queues} {l : Links} {p : Ptr} (s : Ptr → ProcessState)
    → IsPlaced k a
    → Choice k a l p a'
    → s p ≡ ready
    → ((b : Ptr) → b ≢ p → s b ≡ k.state b)
    → IsScheduled k a (run_next k l p s) a'
Choice-IsScheduled {k} {a} {a'} {l} {p} s v c is_ready others =
    let waits = Picked-Waits v.held v.main_waits c.picked in
    let (pick, top) = Picked-Pick v refl c.picked in
    let apart : (r : QueueName) (j : ℕ) (b : Ptr) → has b (a' r j) ≡ true → b ≢ p =
      λ r j b u e. cc (sym u ∙ (ap (λ x. has x (a' r j)) e ∙ waits r j)) in
    record {
      picked = c.picked;
      valid = record {
        placed = record {
          held = c.held;
          placed = λ r j b u.
              let old = v.placed r j b (c.within r j b u) in
              (rw (others b (apart r j b u)) old.0, old.1, old.2);
          main_live = v.main_live;
          main_waits = λ r j. elim (Bool-cases (has k.main_process (a' r j))) [
            | inl u ↦ cc (sym (c.within r j k.main_process u) ∙ v.main_waits r j)
            | inr u ↦ u
          ];
          main_ready = elim (Bool-cases (k.main_process == p)) [
            | inl e ↦ let e' : p ≡ k.main_process = ground arith in rw (← e') is_ready
            | inr e ↦ rw (others k.main_process (ground arith)) v.main_ready
          ];
        };
        running = record {
          live = pick.live;
          waits = waits;
          is_ready = is_ready;
          low = pick.low;
          level = pick.level;
        };
      };
      top = top;
      restored = refl;
      same_pid = refl;
      same_priority = refl;
      same_registers = refl;
      same_main = refl;
      same_state = others;
    }

start-new :
    (k : Kernel)
    → k.state k.running_process ≡ new
    → start k ≡ record k { state = update k.state k.running_process ready }
unfolding start
start-new k e = rw (e, start)

start-ready : (k : Kernel) → k.state k.running_process ≡ ready → start k ≡ k
unfolding start
start-ready k e = rw (e, start)

pub dispatch-IsScheduled :
    {k : Kernel} {a : Queues} → IsPlaced k a → (a' : Queues) × IsScheduled k a (dispatch k) a'
unfolding dispatch choose
dispatch-IsScheduled {k} {a} v =
    let (a', c) = choose-Choice v in
    let (pick, top) = Picked-Pick v refl c.picked in
    let p = (choose k).running_process in
    (
      a',
      elim (ready_states (k.state p) pick.able) [
        | inl fresh ↦
            rw (start-new (choose k) fresh)
              (Choice-IsScheduled (update k.state p ready) v c (ground arith) λ b ne. ground arith)
        | inr able ↦
            rw (start-ready (choose k) able) (Choice-IsScheduled k.state v c able λ b ne. refl)
      ],
    )
