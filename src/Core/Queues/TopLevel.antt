-- ===== src/Core/Queues/TopLevel.antt =====
-- dequeue_process searches the queues from the highest priority (0) to the lowest.
use ece_354_real_time_operat.Base.{
  ℕ, zero, suc, ◌+◌, ◌<◌, ◌≤◌, ◌≡◌, ◌≢◌, inl, inr, true, arith, ◌==◌, Bool-cases,
}
use ece_354_real_time_operat.Chain.{Ptr, null}
use ece_354_real_time_operat.Core.State.{QueueName, Links, levels}
use ece_354_real_time_operat.Core.Queues.{first_level, unlink_first}

first_level-skips :
    (rounds i : ℕ) (queue : ℕ → Ptr)
    → (i ≤ first_level rounds i queue)
      × (first_level rounds i queue ≤ i + rounds)
      × ((j : ℕ) → i ≤ j → j < first_level rounds i queue → queue j ≡ null)
      × (first_level rounds i queue < i + rounds → queue (first_level rounds i queue) ≢ null)
unfolding first_level
first_level-skips zero i queue =
    (omega arith, omega arith, λ j h h'. absurd (omega arith), λ h. absurd (omega arith))
first_level-skips (suc rounds) i queue = elim (Bool-cases (queue i == null)) [
  | inl e ↦
      let (lo, hi, skipped, live) = first_level-skips rounds (i + 1) queue in
      rw e (
        omega arith,
        omega arith,
        λ j h h'. elim (Bool-cases (i == j)) [
          | inl same ↦ ground arith
          | inr later ↦ skipped j (ground arith) h'
        ],
        λ h. live (omega arith),
      )
  | inr e ↦ rw e (omega arith, omega arith, λ j h h'. absurd (omega arith), λ h. ground arith)
]

-- The search for the first queue stops at the lowest level whose queue is not empty, and at
-- `levels` if all are empty.
pub top_level :
    (queue : ℕ → Ptr)
    → ((j : ℕ) → j < first_level levels 0 queue → queue j ≡ null)
      × (first_level levels 0 queue ≤ levels)
      × (first_level levels 0 queue < levels → queue (first_level levels 0 queue) ≢ null)
top_level queue =
    let (lo, hi, skipped, live) = first_level-skips levels 0 queue in
    (λ j h. skipped j (omega arith) h, hi, live)

pub unlink_first-none :
    (l : Links) (q : QueueName) (i : ℕ) → (i == levels) ≡ true → unlink_first l q i ≡ (null, l)
unfolding unlink_first
unlink_first-none l q i e = rw e
