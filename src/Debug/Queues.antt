-- ===== src/Debug/Queues.antt =====
-- The three listings of the kernel's queues show the processes of each, in order.
use ece_354_real_time_operat.Base.{
  ℕ, zero, suc, ◌+◌, ◌<◌, ◌≡◌, refl, false, List, [], ◌∷◌, ◌++◌, some, arith, ◌==◌,
}
use ece_354_real_time_operat.Chain.{Ptr, null, length, Chain}
use ece_354_real_time_operat.Chain.Bound.{Chain-below}
use ece_354_real_time_operat.Core.State.{
  QueueName, ready_queue, mem_blocked_queue, msg_blocked_queue, Kernel, levels, pcb_limit, Queues,
  Holds,
}
use ece_354_real_time_operat.Debug.Listings.{
  rule, arrow, line_end, printing, Out, said, number, outs_int, print_chain, print_levels,
  print_queues, print_mem_blocked, print_msg_blocked,
}

-- The pids of a queue, each with an arrow behind it.
abbrev pub pid_items : (Ptr → ℕ) → List Ptr → List Out
pid_items pid [] = []
pid_items pid (p ∷ ps) = number (pid p) ∷ said arrow ∷ pid_items pid ps

-- The levels of an array of queues, from `i` on.
abbrev pub level_items : ℕ → ℕ → QueueName → (Ptr → ℕ) → Queues → List Out
level_items zero i q pid a = []
level_items (suc rounds) i q pid a =
    outs_int (printing q) i
    ++ (pid_items pid (a q i) ++ (said line_end ∷ level_items rounds (i + 1) q pid a))

abbrev pub queue_items : QueueName → (Ptr → ℕ) → Queues → List Out
queue_items q pid a = said rule ∷ (level_items levels 0 q pid a ++ (said rule ∷ []))

print_chain-pid_items :
    (fuel : ℕ) (next : Ptr → Ptr) (pid : Ptr → ℕ) (p : Ptr) (ps : List Ptr)
    → Chain next p ps
    → length ps < fuel
    → print_chain fuel next pid p ≡ some (pid_items pid ps)
unfolding print_chain
print_chain-pid_items zero next pid p ps c enough = absurd (omega arith)
print_chain-pid_items (suc fuel) next pid p [] c enough = rw c refl
print_chain-pid_items (suc fuel) next pid p (x ∷ ps) c enough =
    let live : (x == null) ≡ false = let n = c.1 in ground arith in
    rw (c.0, live, print_chain-pid_items fuel next pid (next x) ps c.3 (omega arith)) refl

print_levels-level_items :
    (rounds i : ℕ) (q : QueueName) (k : Kernel) (a : Queues)
    → Holds k.links a
    → print_levels rounds i q k ≡ some (level_items rounds i q k.pid a)
unfolding print_levels
print_levels-level_items zero i q k a v = refl
print_levels-level_items (suc rounds) i q k a v =
    let chain = v.chains q i in
    let short =
      Chain-below pcb_limit k.links.next (k.links.heads q i) (a q i) chain (omega arith)
        (v.small q i) in
    rw
      (
        print_chain-pid_items pcb_limit k.links.next k.pid (k.links.heads q i) (a q i) chain short,
        print_levels-level_items rounds (i + 1) q k a v,
      )
      refl

-- If the linked queues hold the queues `a`, print_queues, print_mem_blocked and print_msg_blocked
-- return, and write, between two rules, for each of the five priorities its number and then the
-- pids of the processes in that ready queue, or blocked queue, from its head to its end.
pub print_queues-queue_items :
    (k : Kernel) (a : Queues)
    → Holds k.links a
    → (print_queues k ≡ some (queue_items ready_queue k.pid a))
      × (print_mem_blocked k ≡ some (queue_items mem_blocked_queue k.pid a))
      × (print_msg_blocked k ≡ some (queue_items msg_blocked_queue k.pid a))
unfolding print_queues print_mem_blocked print_msg_blocked
print_queues-queue_items k a v = (
  rw (print_levels-level_items levels 0 ready_queue k a v) refl,
  rw (print_levels-level_items levels 0 mem_blocked_queue k a v) refl,
  rw (print_levels-level_items levels 0 msg_blocked_queue k a v) refl,
)
