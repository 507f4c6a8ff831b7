-- ===== src/Messaging/Ticks.antt =====
-- check_existing_delayed_message and timer_isr as wholes: what a tick does to the mailboxes and to the
-- processes.
use ece_354_real_time_operat.Base.{
  ℕ, ◌+◌, ◌%◌, ◌^◌, ◌≤◌, ◌<◌, ◌≡◌, refl, false, List, [], ◌++◌, arith, ◌==◌, ltb, inl, inr,
  Bool-cases, Returns, returns, bind, mono,
}
use ece_354_real_time_operat.Chain.{null, length}
use ece_354_real_time_operat.Core.State.{Kernel, Queues}
use ece_354_real_time_operat.Core.Interrupts.{atomic}
use ece_354_real_time_operat.Core.Lookup.{get_current_pid, get_process_priority}
use ece_354_real_time_operat.Core.Lookup.Finds.{running}
use ece_354_real_time_operat.Core.Lookup.Answers.{get_process_priority-Lookup}
use ece_354_real_time_operat.Core.Invariant.{IsValid, IsTop, IsSteady, IsSteady-trans}
use ece_354_real_time_operat.Core.Switch.Releases.{IsValid-other}
use ece_354_real_time_operat.Core.Switch.Stays.{release_processor-IsSteady}
use ece_354_real_time_operat.Memory.State.{mem_block_count}
use ece_354_real_time_operat.Messaging.Boxes.Compact.{Compact}
use ece_354_real_time_operat.Messaging.Handlers.{
  is_due, check_from, check_fuel, check_existing_delayed_message, timer_isr,
}
use ece_354_real_time_operat.Messaging.Awake.{
  HasDistinctPids, IsAwake, IsAwake-HasDistinctPids, Lookup-unique,
}
use ece_354_real_time_operat.Messaging.Delivers.{replaced}
use ece_354_real_time_operat.Messaging.Scans.{
  passing, failing, length-passing, Scanned, check_from-Scanned,
}
use ece_354_real_time_operat.System.{System}

-- The priority of the running process.
running_priority :
    {k : Kernel} {a : Queues}
    → IsValid k a
    → HasDistinctPids k
    → Returns
        (λ (answer, k').
          (answer ≡ k.priority k.running_process)
          × (k' ≡ record k { atomic = atomic 0 (atomic 1 k.atomic) }))
        (get_process_priority (get_current_pid k) k)
unfolding get_current_pid
running_priority {k} v d =
    let named : (k.running_process == null) ≡ false = let live = v.running.live in ground arith in
    rw named (
      mono (get_process_priority-Lookup v.placed (k.pid k.running_process))
        λ (answer, k') (p, found, e, e').
          let same : p ≡ k.running_process =
            Lookup-unique v d found (running v.running.live refl) in
          (rw (same, named) at e, e'))

-- What a tick comes to, in a state with the messages `xs` in the mailbox, and `ds` in the delayed
-- mailbox: the invariant holds, and the process of highest priority runs; the messages that are due
-- have moved to the end of the mailbox, in order.
abbrev pub Ticked : System → List ℕ → List ℕ → System → Type 0
Ticked s xs ds s' =
    IsSteady s.kernel s'.kernel
    × Compact s'.mailbox 0 (xs ++ passing (is_due s) ds)
    × Compact s'.delayed_mailbox 0 (failing (is_due s) ds)
    × (s' ≡ replaced s s'.kernel s'.mailbox s'.delayed_mailbox)

-- The end of the loop: the scheduler runs if a process was made ready that has a higher priority.
awake-IsSteady :
    {k0 k : Kernel} {highest : ℕ} (t : ℕ)
    → IsAwake k0 highest k
    → ltb highest (k.priority k.running_process) ≡ false
    → IsSteady k0 (record k { atomic = atomic 0 (atomic 1 k.atomic) })
awake-IsSteady {k = k} t v lower = record {
  queues = v.queues;
  valid = IsValid-other (atomic 0 (atomic 1 k.atomic)) v.valid;
  top = λ i h. v.above i h (ground arith);
  same_pid = v.same_pid;
  same_priority = v.same_priority;
  same_main = v.same_main;
  keeps = v.keeps;
}

module _ (s : System) {a : Queues} (xs ds : List ℕ) (v : IsValid s.kernel a)
    (top : IsTop s.kernel a) (d : HasDistinctPids s.kernel) (inbox : Compact s.mailbox 0 xs)
    (waiting : Compact s.delayed_mailbox 0 ds) (fits : length ds < mem_block_count)
    (room : length xs + length (passing (is_due s) ds) ≤ mem_block_count) where
  -- The loop.
  pub check_from_lem : Returns (Scanned s.kernel [] ds xs s) (check_from check_fuel 0 4 s)
  check_from_lem =
      check_from-Scanned s.kernel check_fuel 0 4 [] ds xs s d
        (record {
          awake = record {
            queues = a;
            valid = v;
            same_pid = refl;
            same_priority = refl;
            same_main = refl;
            same_running = refl;
            keeps = λ x other h. h;
            above = λ j before below. top j before;
          };
          passed = refl;
          coming = waiting;
          inbox = inbox;
        })
        (omega arith) room (omega arith)

  pub check_existing_delayed_message-Ticked :
      Returns (Ticked s xs ds) (check_existing_delayed_message s)
  unfolding check_existing_delayed_message
  check_existing_delayed_message-Ticked =
      bind check_from_lem λ (highest, s') (k', mailbox, delayed_mailbox, e, awake, c, c'). rw e (
        bind (running_priority awake.valid (IsAwake-HasDistinctPids awake d))
          λ (answer, k2) (e2, e3).
            rw (e2, e3)
              (elim (Bool-cases (ltb highest (k'.priority k'.running_process))) [
                | inl higher ↦ rw higher (
                    bind (release_processor-IsSteady (IsValid-other _ awake.valid)) λ k3 steady.
                      returns (
                        IsSteady-trans _ awake.same_pid awake.same_priority awake.same_main
                            awake.keeps steady,
                        c,
                        c',
                        refl,
                      ))
                | inr lower ↦ rw lower (returns (awake-IsSteady 0 awake lower, c, c', refl))
              ]))

-- Where the invariant holds, no ready process has a higher priority than the running one, no two
-- processes have the same pid, neither mailbox has gaps, there are less than 30 delayed messages
-- and at most 30 messages altogether, timer_isr returns: the clock is one tick on, the messages
-- that are due then are at the end of the mailbox, in order, the others stay in the delayed
-- mailbox, and the invariant holds with a running process of highest priority.
pub timer_isr-Ticked :
    (s : System) {a : Queues} (xs ds : List ℕ)
    → IsValid s.kernel a
    → IsTop s.kernel a
    → HasDistinctPids s.kernel
    → Compact s.mailbox 0 xs
    → Compact s.delayed_mailbox 0 ds
    → length ds < mem_block_count
    → length xs + length ds ≤ mem_block_count
    → Returns (Ticked (record s { ticks = (s.ticks + 1) % 2 ^ 32 }) xs ds) (timer_isr s)
unfolding timer_isr
timer_isr-Ticked s xs ds v top d inbox waiting fits room =
    check_existing_delayed_message-Ticked (record s { ticks = (s.ticks + 1) % 2 ^ 32 }) xs ds v top
      d inbox waiting fits
      (let h = length-passing (is_due (record s { ticks = (s.ticks + 1) % 2 ^ 32 })) ds in
        omega arith)
