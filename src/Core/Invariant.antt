-- ===== src/Core/Invariant.antt =====
-- What holds of the kernel between two calls: the queues are well formed, every process in a queue
-- stands in that of its state at its priority, the running process stands in none, and no process that
-- could run has a higher priority. `IsSteady` says besides that a call loses no process.
use ece_354_real_time_operat.Core.Present.{Keeps}
use ece_354_real_time_operat.Base.{ℕ, ◌<◌, ◌≡◌, ◌≢◌, ◌∙◌, true, List, [], ◌∷◌}
use ece_354_real_time_operat.Chain.{Ptr, null, has}
use ece_354_real_time_operat.Core.State.{
  ready, QueueName, ready_queue, set_queue, Kernel, levels, pcb_limit, Queues, Waits, Holds,
}
use ece_354_real_time_operat.Core.Queues.{queue_of}

-- The queues and the PCBs agree. `main` is in no queue.
pub record IsPlaced (k : Kernel) (a : Queues) : Type 0 where
  pub held : Holds k.links a
  pub placed :
      (q : QueueName) (i : ℕ) (p : Ptr)
      → has p (a q i) ≡ true
      → (queue_of (k.state p) ≡ q) × (k.priority p ≡ i) × (i < levels)
  pub main_live : k.main_process ≢ null
  pub main_waits : Waits a k.main_process
  pub main_ready : k.state k.main_process ≡ ready

-- The running process is `main` or a PCB outside of the queues.
pub record IsRunning (k : Kernel) (a : Queues) (p : Ptr) : Type 0 where
  pub live : p ≢ null
  pub waits : Waits a p
  pub is_ready : k.state p ≡ ready
  pub low : p ≢ k.main_process → p < pcb_limit
  pub level : p ≢ k.main_process → k.priority p < levels

-- No ready process has a higher priority (a lower number) than the running one.
abbrev pub IsTop : Kernel → Queues → Type 0
IsTop k a = (i : ℕ) → i < k.priority k.running_process → a ready_queue i ≡ []

pub record IsValid (k : Kernel) (a : Queues) : Type 0 where
  pub placed : IsPlaced k a
  pub running : IsRunning k a k.running_process

-- What the scheduler does to the queues `a`: the process that it picks, and the queues after it.
pub data Picked (a : Queues) (main : Ptr) : Ptr → Queues → Type 0 where
  idle : ((i : ℕ) → i < levels → a ready_queue i ≡ []) → Picked a main main a
  first :
      {p : Ptr} {i : ℕ} {rest : List Ptr}
      → i < levels
      → a ready_queue i ≡ p ∷ rest
      → ((j : ℕ) → j < i → a ready_queue j ≡ [])
      → Picked a main p (set_queue a ready_queue i rest)

-- The kernel `k'` after the scheduler has run in `k` with the queues `a`: its process is picked, the
-- invariant holds, the processor has the registers of the PCB, and the PCBs are the same but for
-- the state of the process, which is ready now.
pub record IsScheduled (k : Kernel) (a : Queues) (k' : Kernel) (a' : Queues) : Type 0 where
  pub picked : Picked a k.main_process k'.running_process a'
  pub valid : IsValid k' a'
  pub top : IsTop k' a'
  pub restored : k'.cpu ≡ k.registers k'.running_process
  pub same_pid : k'.pid ≡ k.pid
  pub same_priority : k'.priority ≡ k.priority
  pub same_registers : k'.registers ≡ k.registers
  pub same_main : k'.main_process ≡ k.main_process
  pub same_state : (p : Ptr) → p ≢ k'.running_process → k'.state p ≡ k.state p

-- The kernel `k'` after a call made in `k`: the invariant holds with the queues `queues`, the running
-- process has the highest priority, no PCB has another pid or priority, and no process is lost.
pub record IsSteady (k k' : Kernel) : Type 0 where
  pub queues : Queues
  pub valid : IsValid k' queues
  pub top : IsTop k' queues
  pub same_pid : k'.pid ≡ k.pid
  pub same_priority : k'.priority ≡ k.priority
  pub same_main : k'.main_process ≡ k.main_process
  pub keeps : Keeps k k'

-- What a call does from a kernel that differs from `k` in other fields only.
pub IsSteady-trans :
    {k k' : Kernel} (k0 : Kernel)
    → k0.pid ≡ k.pid
    → k0.priority ≡ k.priority
    → k0.main_process ≡ k.main_process
    → Keeps k k0
    → IsSteady k0 k'
    → IsSteady k k'
IsSteady-trans k0 e f m c s = record {
  queues = s.queues;
  valid = s.valid;
  top = s.top;
  same_pid = s.same_pid ∙ e;
  same_priority = s.same_priority ∙ f;
  same_main = s.same_main ∙ m;
  keeps = λ p other h. s.keeps p (λ e'. other (e' ∙ m)) (c p other h);
}

-- After a call that never switches: the invariant holds and the same process runs, but a process
-- of higher priority may be ready.
pub record IsKept (k k' : Kernel) : Type 0 where
  pub queues : Queues
  pub valid : IsValid k' queues
  pub same_pid : k'.pid ≡ k.pid
  pub same_priority : k'.priority ≡ k.priority
  pub same_main : k'.main_process ≡ k.main_process
  pub same_running : k'.running_process ≡ k.running_process
