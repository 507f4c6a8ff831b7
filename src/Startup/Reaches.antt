-- ===== src/Startup/Reaches.antt =====
-- Every kernel that is reached from start-up by the calls of the kernel.
use ece_354_real_time_operat.Core.Present.{IsPresent}
use ece_354_real_time_operat.Core.Queues.{queue_of}
use ece_354_real_time_operat.Base.{
  List, [], ◌∷◌, ◌⊎◌, inl, inr, ℕ, ◌<◌, ◌≡◌, ◌≢◌, true, false, some, arith, ◌==◌, Returns-at,
}
use ece_354_real_time_operat.Chain.{Ptr, null, has}
use ece_354_real_time_operat.Core.State.{BlockType, Kernel, Queues, levels, minus_one}
use ece_354_real_time_operat.Core.Lookup.{get_current_pid}
use ece_354_real_time_operat.Core.Invariant.{IsScheduled, IsValid, IsTop, IsSteady}
use ece_354_real_time_operat.Core.Switch.{release_processor, terminate_process}
use ece_354_real_time_operat.Core.Switch.Stays.{
  IsScheduled-IsPresent, IsPresent-InQueues, release_processor-IsSteady,
}
use ece_354_real_time_operat.Core.Switch.Ends.{terminate_process-IsScheduled}
use ece_354_real_time_operat.Core.Blocking.{
  block_process, unblock_process_by_pid, unblock_process_by_type,
}
use ece_354_real_time_operat.Core.Blocking.Steadies.{
  block_process-IsSteady, unblock_process_by_pid-IsSteady, unblock_process_by_type-IsSteady,
}
use ece_354_real_time_operat.Core.Priority.{set_process_priority}
use ece_354_real_time_operat.Core.Priority.Outcomes.{
  Answer, bad_pid, bad_priority, no_process, unchanged, changed, set_process_priority-Answer,
}
use ece_354_real_time_operat.Messaging.Awake.{HasDistinctPids}
use ece_354_real_time_operat.Startup.{TestProc, main}
use ece_354_real_time_operat.Startup.Boots.{main-Booted}
use ece_354_real_time_operat.System.{System}

-- What the running process, or an interrupt, may make of the kernel: to give up the processor, to be
-- blocked, to unblock a process, to change a priority, or to end.
pub data Step (k : Kernel) : Kernel → Type 0 where
  released : {k' : Kernel} → release_processor k ≡ some k' → Step k k'
  blocked :
      {k' : Kernel} (type : BlockType)
      → k.running_process ≢ k.main_process
      → block_process (get_current_pid k) type k ≡ some k'
      → Step k k'
  unblocked : {k' : Kernel} (pid : ℕ) → unblock_process_by_pid pid true k ≡ some k' → Step k k'
  unblocked_first :
      {k' : Kernel} (type : BlockType) → unblock_process_by_type type k ≡ some k' → Step k k'
  prioritised :
      {k' : Kernel} {answer : ℕ} (pid priority : ℕ)
      → set_process_priority pid priority k ≡ some (answer, k')
      → Step k k'
  ended : {k' : Kernel} → terminate_process k.running_process k ≡ some k' → Step k k'

pub data Reachable (k0 : Kernel) : Kernel → Type 0 where
  here : Reachable k0 k0
  next : {k k' : Kernel} → Reachable k0 k → Step k k' → Reachable k0 k'

-- The processes that have ended.
abbrev pub gone_by : {k k' : Kernel} → Step k k' → List Ptr → List Ptr
gone_by (released e) gone = gone
gone_by (blocked type other e) gone = gone
gone_by (unblocked pid e) gone = gone
gone_by (unblocked_first type e) gone = gone
gone_by (prioritised pid priority e) gone = gone
gone_by {k} (ended e) gone = k.running_process ∷ gone

abbrev pub ended_processes : {k0 k : Kernel} → Reachable k0 k → List Ptr
ended_processes here = []
ended_processes (next reached step) = gone_by step (ended_processes reached)

-- The process runs, or stands in the queue of its state at its priority.
abbrev pub IsAccounted : Kernel → Queues → Ptr → Type 0
IsAccounted k a p =
    (k.running_process ≡ p) ⊎ (has p (a (queue_of (k.state p)) (k.priority p)) ≡ true)

-- What holds between two steps, where the processes `gone` have ended. The PCBs of the processes are
-- those before the one of `main`.
pub record IsSafe (gone : List Ptr) (k : Kernel) : Type 0 where
  pub queues : Queues
  pub valid : IsValid k queues
  pub top : IsTop k queues
  pub distinct : HasDistinctPids k
  pub of_main : k.pid k.main_process ≡ minus_one
  pub everyone :
      (p : Ptr) → 0 < p → p < k.main_process → has p gone ≡ false → IsAccounted k queues p

pub IsPresent-IsAccounted :
    {k : Kernel} {a : Queues} (p : Ptr) → IsValid k a → IsPresent k p → IsAccounted k a p
IsPresent-IsAccounted {k} {a} p v h = elim (IsPresent-InQueues k p v.placed.held h) [
  | inl e ↦ inl e
  | inr (q, i, u) ↦ let (at, prio, level) = v.placed.placed q i p u in inr (rw (at, prio) u)
]

-- A step that changes no pid.
pub kept-IsSafe :
    {gone gone' : List Ptr} {k k' : Kernel} (a : Queues)
    → IsSafe gone k
    → IsValid k' a
    → IsTop k' a
    → k'.pid ≡ k.pid
    → k'.main_process ≡ k.main_process
    → ((p : Ptr)
        → p ≢ k.main_process
        → has p gone' ≡ false
        → (has p gone ≡ false) × (IsPresent k p → IsPresent k' p))
    → IsSafe gone' k'
kept-IsSafe {k = k} a s valid top same same' stays = record {
  queues = a;
  valid = valid;
  top = top;
  distinct = record {
    distinct = rw same s.distinct.distinct;
    main_low = rw same' s.distinct.main_low;
  };
  of_main = rw (same, same') s.of_main;
  everyone = λ p live below here_still.
      let (before, still) = stays p (omega arith) here_still in
      IsPresent-IsAccounted p valid (
        still (elim (s.everyone p live (omega arith) before) [
          | inl e ↦ inl e
          | inr u ↦ inr (s.queues, s.valid.placed.held, (queue_of (k.state p), k.priority p, u))
        ]));
}

pub IsSteady-IsSafe :
    {gone : List Ptr} {k k' : Kernel} → IsSafe gone k → IsSteady k k' → IsSafe gone k'
IsSteady-IsSafe s t =
    kept-IsSafe t.queues s t.valid t.top t.same_pid t.same_main
      λ p other still. (still, t.keeps p other)

-- The running process ends.
pub ended-IsSafe :
    {gone : List Ptr} {k k' : Kernel} {a : Queues} (s : IsSafe gone k)
    → IsScheduled k s.queues k' a
    → IsSafe (k.running_process ∷ gone) k'
ended-IsSafe {gone} {k} {k'} {a} s t =
    kept-IsSafe a s t.valid t.top t.same_pid t.same_main λ p other still. (
      ground arith,
      λ h. elim (IsPresent-InQueues k p s.valid.placed.held h) [
        | inl e ↦ absurd (ground arith)
        | inr u ↦ IsScheduled-IsPresent p t u
      ],
    )

pub Answer-IsSafe :
    {gone : List Ptr} {k : Kernel} {a : Queues} {pid priority : ℕ} {x : ℕ × Kernel}
    → IsSafe gone k
    → Answer k a pid priority x
    → IsSafe gone x.1
Answer-IsSafe s (bad_pid e t) = IsSteady-IsSafe s t
Answer-IsSafe s (bad_priority e e' t) = IsSteady-IsSafe s t
Answer-IsSafe s (no_process allowed found t) = IsSteady-IsSafe s t
Answer-IsSafe s (unchanged allowed found live e t) = IsSteady-IsSafe s t
Answer-IsSafe s (changed allowed found live differs t) =
    kept-IsSafe t.queues s t.valid t.top t.same_pid t.same_main
      λ p other still. (still, t.keeps p other)

-- The running process, if it is not `main`, has another pid.
pub other_pid :
    {gone : List Ptr} {k : Kernel}
    → IsSafe gone k
    → k.running_process ≢ k.main_process
    → get_current_pid k ≢ k.pid k.main_process
unfolding get_current_pid
other_pid {k} s other =
    let live = s.valid.running.live in
    let named : (k.running_process == null) ≡ false = ground arith in
    let live' = s.valid.placed.main_live in
    rw named λ e. other (
      s.distinct.distinct k.running_process k.main_process (ground arith)
        (s.valid.running.low other) (ground arith) s.distinct.main_low e)

Step-IsSafe :
    {gone : List Ptr} {k k' : Kernel}
    → IsSafe gone k
    → (step : Step k k') → IsSafe (gone_by step gone) k'
Step-IsSafe s (released e) = IsSteady-IsSafe s (Returns-at (release_processor-IsSteady s.valid) e)
Step-IsSafe {k} s (blocked type other e) = IsSteady-IsSafe s (
    Returns-at (block_process-IsSteady (get_current_pid k) type s.valid s.top (other_pid s other))
      e)
Step-IsSafe s (unblocked pid e) =
    IsSteady-IsSafe s (Returns-at (unblock_process_by_pid-IsSteady s.valid s.top pid) e)
Step-IsSafe s (unblocked_first type e) =
    IsSteady-IsSafe s (Returns-at (unblock_process_by_type-IsSteady s.valid s.top type) e)
Step-IsSafe s (prioritised pid priority e) =
    Answer-IsSafe s
      (Returns-at (set_process_priority-Answer pid priority s.valid s.top s.of_main) e)
Step-IsSafe s (ended e) =
    let (a, t) = Returns-at (terminate_process-IsScheduled s.valid) e in ended-IsSafe s t

pub Answer-pid :
    {k : Kernel} {a : Queues} {pid priority : ℕ} {x : ℕ × Kernel}
    → Answer k a pid priority x
    → x.1.pid ≡ k.pid
Answer-pid (bad_pid e t) = t.same_pid
Answer-pid (bad_priority e e' t) = t.same_pid
Answer-pid (no_process allowed found t) = t.same_pid
Answer-pid (unchanged allowed found live e t) = t.same_pid
Answer-pid (changed allowed found live differs t) = t.same_pid

Reachable-IsSafe :
    {k0 k : Kernel} → IsSafe [] k0 → (reached : Reachable k0 k) → IsSafe (ended_processes reached) k
Reachable-IsSafe s here = s
Reachable-IsSafe s (next reached step) = Step-IsSafe (Reachable-IsSafe s reached) step

-- From the kernel that main leaves, with tests of priorities below 5, every kernel that is reached
-- by any sequence of the kernel's calls is safe: a process gives up the processor, is blocked while
-- it runs and is not `main`, unblocks another one or the first that waits for a resource, sets a priority, or ends;
-- after each, every process but `main` that has not ended runs or stands in the queue of its state at its
-- priority, what stands in a queue is there by its state and priority, no ready process has a higher
-- priority than the running one, and no two processes have the same pid.
pub main-IsSafe :
    (code : ℕ → ℕ) (tests : ℕ → TestProc) (end : ℕ) (s : System) {s0 : System} {k : Kernel}
    → ((i : ℕ) → i < 6 → (tests i).priority < levels)
    → main code tests end s ≡ some s0
    → (reached : Reachable s0.kernel k) → IsSafe (ended_processes reached) k
main-IsSafe code tests end s fits started reached =
    let b = Returns-at (main-Booted code tests end s fits) started in
    Reachable-IsSafe
      (record {
        queues = b.queues;
        valid = b.valid;
        top = b.top;
        distinct = b.distinct;
        of_main = b.of_main;
        everyone = λ p live below still. IsPresent-IsAccounted p b.valid (b.everyone p live below);
      })
      reached
