-- ===== src/Executive.antt =====
-- The handlers of core/core.c, mm/mem.c, messaging/messaging.c and timer/timer.c together: what the
-- processes and the interrupts may ask of the executive, one call after the other, and what holds of
-- the whole state between two calls. The handlers run without interruption.
pub mod Counts
pub mod Mailboxes
pub mod Blocks
pub mod Passes
pub mod Keeps
pub mod Messages
pub mod Reaches
pub mod Taken
pub mod Holds
mod Tests
use ece_354_real_time_operat.Base.{
  ℕ, ◌+◌, ◌^◌, ◌≤◌, ◌<◌, ◌≡◌, ◌≢◌, true, List, [], ◌∷◌, Option, some, update, ◌>>=◌,
}
use ece_354_real_time_operat.Chain.{Ptr, has, length, Chain}
use ece_354_real_time_operat.Core.State.{Kernel, pcb_limit}
use ece_354_real_time_operat.Memory.State.{Memory, mem_block_size, mem_block_count, IsPool, IsClean}
use ece_354_real_time_operat.Memory.Handlers.{request_memory_block, release_memory_block}
use ece_354_real_time_operat.Messaging.Boxes.Compact.{Compact}
use ece_354_real_time_operat.Messaging.Handlers.{
  send_message, receive_message, delayed_send, timer_isr,
}
use ece_354_real_time_operat.Core.Switch.{release_processor, terminate_process}
use ece_354_real_time_operat.Core.Priority.{set_process_priority}
use ece_354_real_time_operat.Startup.Reaches.{IsSafe}
use ece_354_real_time_operat.Executive.Counts.{count}
use ece_354_real_time_operat.System.{System}

-- No mailbox holds the envelope: the messages wait for their receivers in neither array.
pub record IsOut (s : System) (envelope : ℕ) : Type 0 where
  pub mailbox : (i : ℕ) → i < mem_block_count → s.mailbox i ≢ envelope
  pub delayed_mailbox : (i : ℕ) → i < mem_block_count → s.delayed_mailbox i ≢ envelope

-- The envelope is the address of a block in use.
pub record IsUsed (m : Memory) (envelope : ℕ) : Type 0 where
  pub blocks : List Ptr
  pub chain : Chain m.next m.used blocks
  pub block : Ptr
  pub inside : has block blocks ≡ true
  pub address : m.start_block block ≡ envelope

-- A process may send or fill a block only as long as it holds it.
pub record IsHeld (s : System) (envelope : ℕ) : Type 0 where
  pub used : IsUsed s.memory envelope
  pub out : IsOut s envelope

-- What the running process, or an interrupt, may ask of the executive: a block, the return of one that
-- is in no mailbox, to send a message, at once or with a delay, in a block that the process holds, to
-- receive one, to write a byte into a held block, to give up the processor, to change a priority, to
-- end, or a tick. The array of delayed messages is never filled up.
pub data Ask (s : System) : Type 0 where
  request : s.kernel.running_process ≢ s.kernel.main_process → Ask s
  release : (address : ℕ) → IsOut s address → Ask s
  send : (process_id envelope : ℕ) → process_id < 2 ^ 32 → IsHeld s envelope → Ask s
  receive : s.kernel.running_process ≢ s.kernel.main_process → Ask s
  delay :
      (process_id envelope delay : ℕ)
      → process_id < 2 ^ 32
      → IsHeld s envelope
      → s.delayed_mailbox 28 ≡ 0
      → Ask s
  write : (envelope i byte : ℕ) → IsHeld s envelope → i < mem_block_size → Ask s
  give_way : Ask s
  set_priority : (pid priority : ℕ) → Ask s
  finish : Ask s
  tick : Ask s

abbrev pub in_memory : System → ℕ → ℕ → System
in_memory s address byte = record s {
  memory = record s.memory { bytes = update s.memory.bytes address byte };
}

abbrev pub with_kernel : System → Option Kernel → Option System
with_kernel s m = do k ← m; some (record s { kernel = k })

-- The state after the call; none if it does not return.
unfoldable pub perform : (s : System) → Ask s → Option System
perform s (request other) = do r ← request_memory_block s; some r.1
perform s (release address out) = do r ← release_memory_block address s; some r.1
perform s (send process_id envelope small held) = do
  r ← send_message process_id envelope s
  some r.1
perform s (receive other) = do r ← receive_message s; some r.1
perform s (delay process_id envelope time small held room) = do
  r ← delayed_send process_id envelope time s
  some r.1
perform s (write envelope i byte held small) = some (in_memory s (envelope + i) byte)
perform s give_way = with_kernel s (release_processor s.kernel)
perform s (set_priority pid priority) =
    with_kernel s (do r ← set_process_priority pid priority s.kernel; some r.1)
perform s finish = with_kernel s (terminate_process s.kernel.running_process s.kernel)
perform s tick = timer_isr s

pub data Reachable (s0 : System) : System → Type 0 where
  here : Reachable s0 s0
  next :
      {s s' : System} → Reachable s0 s → (ask : Ask s) → perform s ask ≡ some s' → Reachable s0 s'

-- The processes that have ended.
abbrev pub gone_by : {s : System} → Ask s → List Ptr → List Ptr
gone_by (request other) gone = gone
gone_by (release address out) gone = gone
gone_by (send process_id envelope small held) gone = gone
gone_by (receive other) gone = gone
gone_by (delay process_id envelope time small held room) gone = gone
gone_by (write envelope i byte held small) gone = gone
gone_by give_way gone = gone
gone_by (set_priority pid priority) gone = gone
gone_by {s} finish gone = s.kernel.running_process ∷ gone
gone_by tick gone = gone

abbrev pub ended_processes : {s0 s : System} → Reachable s0 s → List Ptr
ended_processes here = []
ended_processes (next reached ask e) = gone_by ask (ended_processes reached)

-- The addresses of blocks.
abbrev pub addresses : (Ptr → ℕ) → List Ptr → List ℕ
addresses start [] = []
addresses start (b ∷ bs) = start b ∷ addresses start bs

-- What holds between two calls, where the processes `gone` have ended: the kernel is safe, the pool is whole and its available blocks are
-- cleared, the mailboxes have no gaps, and every message is a block in use, which stands in one mailbox
-- only and there once.
pub record IsSound (gone : List Ptr) (s : System) : Type 0 where
  pub safe : IsSafe gone s.kernel
  pub words : (p : Ptr) → 0 < p → p < pcb_limit → s.kernel.pid p < 2 ^ 32
  pub available : List Ptr
  pub used : List Ptr
  pub pool : IsPool s.memory available used
  pub clean : IsClean s.memory available
  pub messages : List ℕ
  pub waiting : List ℕ
  pub inbox : Compact s.mailbox 0 messages
  pub later : Compact s.delayed_mailbox 0 waiting
  pub held :
      (e : ℕ) → count e messages + count e waiting ≤ count e (addresses s.memory.start_block used)
  pub few : length waiting < mem_block_count
