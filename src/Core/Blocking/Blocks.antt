-- ===== src/Core/Blocking/Blocks.antt =====
-- The states and queues that block_process of core/core.c chooses, and what moving a process out of
-- a ready queue leaves empty.
use ece_354_real_time_operat.Base.{ℕ, ◌≡◌, refl, ◌≢◌, inl, inr, false, []}
use ece_354_real_time_operat.Chain.{Ptr, erase}
use ece_354_real_time_operat.Core.State.{
  Atomic, ProcessState, new, ready, blocked_mem, blocked_msg, BlockType, mem, msg, QueueName,
  ready_queue, Kernel, Queues, place_cases,
}
use ece_354_real_time_operat.Core.Queues.{queue_of}
use ece_354_real_time_operat.Core.Queues.Placed.{appended, removed}
use ece_354_real_time_operat.Core.Lookup.{is_blocked}
use ece_354_real_time_operat.Core.Invariant.{IsValid, IsTop, IsSteady}
use ece_354_real_time_operat.Core.Switch.Releases.{IsValid-other}
use ece_354_real_time_operat.Core.Blocking.{block_queue, blocked_state}

-- The call leaves the kernel as it was, but for the counter of `atomic`.
pub IsSteady-refl :
    {k : Kernel} {a : Queues} (t : Atomic)
    → IsValid k a
    → IsTop k a
    → IsSteady k (record k { atomic = t })
IsSteady-refl {a = a} t v top = record {
  queues = a;
  valid = IsValid-other t v;
  top = top;
  same_pid = refl;
  same_priority = refl;
  same_main = refl;
  keeps = λ p other h. h;
}

pub queue-blocked : (type : BlockType) → queue_of (blocked_state type) ≡ block_queue type
unfolding queue_of blocked_state block_queue
queue-blocked mem = refl
queue-blocked msg = refl

pub blocked_ne_ready : (type : BlockType) → blocked_state type ≢ ready
unfolding blocked_state
blocked_ne_ready mem = λ e. cc
blocked_ne_ready msg = λ e. cc

-- Taking a process out of a ready queue, and putting one into another array, leaves the empty ready
-- queues empty.
pub ready_stays_empty :
    (a : Queues) (p : Ptr) (i j m : ℕ) (q : QueueName)
    → q ≢ ready_queue
    → a ready_queue j ≡ []
    → appended q m p (removed ready_queue i p a) ready_queue j ≡ []
unfolding erase
ready_stays_empty a p i j m q other e = elim (place_cases q m ready_queue j) [
  | inl (hit, eq, ei) ↦ absurd (other eq)
  | inr miss ↦ rw miss (elim (place_cases ready_queue i ready_queue j) [
    | inl (hit, eq, ei) ↦ rw (hit, ei, e)
    | inr miss' ↦ rw miss' e
  ])
]

pub blocked-ne-ready_queue : (type : BlockType) → block_queue type ≢ ready_queue
unfolding block_queue
blocked-ne-ready_queue mem = λ e. cc
blocked-ne-ready_queue msg = λ e. cc

pub unblocked_states : (s : ProcessState) → is_blocked s ≡ false → queue_of s ≡ ready_queue
unfolding queue_of
unblocked_states new e = refl
unblocked_states ready e = refl
unblocked_states blocked_mem e = cc
unblocked_states blocked_msg e = cc
