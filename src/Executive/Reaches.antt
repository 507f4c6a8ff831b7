-- ===== src/Executive/Reaches.antt =====
-- Every state that is reached from start-up by calls of the executive is sound, and each call returns in it.
use ece_354_real_time_operat.Chain.{Ptr}
use ece_354_real_time_operat.Base.{
  List, ◌∷◌, ℕ, ◌<◌, ◌≡◌, [], arith, some, ◌>>=◌, Returns, returns, bind, Returns-at, mono,
}
use ece_354_real_time_operat.Core.State.{levels}
use ece_354_real_time_operat.Core.Switch.{terminate_process}
use ece_354_real_time_operat.Core.Priority.{set_process_priority}
use ece_354_real_time_operat.Core.Priority.Outcomes.{set_process_priority-Answer}
use ece_354_real_time_operat.Memory.State.{mem_block_count}
use ece_354_real_time_operat.Memory.Init.{numbers}
use ece_354_real_time_operat.Startup.{TestProc, main}
use ece_354_real_time_operat.Startup.Boots.{main-Booted}
use ece_354_real_time_operat.Core.Switch.Stays.{release_processor-IsSteady}
use ece_354_real_time_operat.Executive.Counts.{count}
use ece_354_real_time_operat.Startup.Reaches.{
  ended-IsSafe, IsPresent-IsAccounted, Answer-IsSafe, Answer-pid,
}
use ece_354_real_time_operat.Core.Switch.Ends.{terminate_process-IsScheduled}
use ece_354_real_time_operat.Executive.Passes.{switched-IsSound, kernel-IsSound}
use ece_354_real_time_operat.Executive.{
  Ask, request, release, send, receive, delay, write, give_way, set_priority, finish, tick, perform,
  Reachable, here, next, IsSound, gone_by, ended_processes,
}
use ece_354_real_time_operat.Executive.Keeps.{
  request_memory_block-IsSound, release_memory_block-IsSound, wrote-IsSound,
}
use ece_354_real_time_operat.Executive.Messages.{
  send_message-IsSound, receive_message-IsSound, delayed_send-IsSound, timer_isr-IsSound,
}
use ece_354_real_time_operat.System.{System}

module _ {gone : List Ptr} {s : System} (v : IsSound gone s) where
  set_priority-IsSound :
      (pid priority : ℕ)
      → Returns
          (λ k. IsSound gone (record s { kernel = k }))
          (do r ← set_process_priority pid priority s.kernel; some r.1)
  set_priority-IsSound pid priority =
      bind (set_process_priority-Answer pid priority v.safe.valid v.safe.top v.safe.of_main)
        λ r t. returns (switched-IsSound v (Answer-IsSafe v.safe t) (Answer-pid t))

  finish-IsSound :
      Returns
        (λ k. IsSound (s.kernel.running_process ∷ gone) (record s { kernel = k }))
        (terminate_process s.kernel.running_process s.kernel)
  finish-IsSound =
      mono (terminate_process-IsScheduled v.safe.valid)
        λ k (a, t). switched-IsSound v (ended-IsSafe v.safe t) t.same_pid

  -- Every call returns and leaves a sound state.
  perform-IsSound : (ask : Ask s) → Returns (IsSound (gone_by ask gone)) (perform s ask)
  unfolding perform
  perform-IsSound (request other) = bind (request_memory_block-IsSound v other) λ r q. returns q
  perform-IsSound (release address out) =
      bind (release_memory_block-IsSound v address out) λ r q. returns q
  perform-IsSound (send process_id envelope small held) =
      bind (send_message-IsSound v process_id envelope small held) λ r q. returns q
  perform-IsSound (receive other) = bind (receive_message-IsSound v other) λ r q. returns q
  perform-IsSound (delay process_id envelope time small held room) =
      bind (delayed_send-IsSound v process_id envelope time small held room) λ r q. returns q
  perform-IsSound (write envelope i byte held small) =
      returns (wrote-IsSound v envelope i byte held small)
  perform-IsSound give_way =
      bind (release_processor-IsSteady v.safe.valid) λ k t. returns (kernel-IsSound v t)
  perform-IsSound (set_priority pid priority) =
      bind (set_priority-IsSound pid priority) λ k q. returns q
  perform-IsSound finish = bind finish-IsSound λ k q. returns q
  perform-IsSound tick = timer_isr-IsSound v

Reachable-IsSound :
    {s0 s : System}
    → IsSound [] s0
    → (reached : Reachable s0 s) → IsSound (ended_processes reached) s
Reachable-IsSound v here = v
Reachable-IsSound v (next reached ask e) =
    Returns-at (perform-IsSound (Reachable-IsSound v reached) ask) e

-- What start-up leaves is sound: every block is available and no message is under way.
started-IsSound :
    (code : ℕ → ℕ) (tests : ℕ → TestProc) (end : ℕ) (s : System)
    → ((i : ℕ) → i < 6 → (tests i).priority < levels)
    → Returns (IsSound []) (main code tests end s)
unfolding count
started-IsSound code tests end s fits = mono (main-Booted code tests end s fits) λ s' b. record {
  safe = record {
    queues = b.queues;
    valid = b.valid;
    top = b.top;
    distinct = b.distinct;
    of_main = b.of_main;
    everyone = λ p live below still. IsPresent-IsAccounted p b.valid (b.everyone p live below);
  };
  words = b.words;
  available = numbers mem_block_count 1;
  used = [];
  pool = b.pool;
  clean = b.clean;
  messages = [];
  waiting = [];
  inbox = b.no_messages;
  later = b.no_delayed;
  held = λ e. omega arith;
  few = omega arith;
}

-- With tests of priorities below 5, every state that is reached from the one that main leaves, by any
-- sequence of calls for blocks, messages and the processor, of ticks, and of writes into blocks, is
-- sound, if a block is given back only while it is in no mailbox, and sent or written into only while
-- it is in use besides, no process but one other than `main` asks for a block or a message, pids of
-- receivers are 32-bit words, and less than 29 messages are delayed when one is sent with a delay:
-- every process but `main` that has not ended runs or stands in the queue of its state at its
-- priority, what stands in a queue is there by its state and priority, no ready process has a higher priority than
-- the running one, no two processes have the same pid, each of the 30 blocks is either available and
-- cleared or used, no mailbox has a gap, and every message is a block in use that stands in one
-- mailbox only and there once.
pub main-IsSound :
    (code : ℕ → ℕ) (tests : ℕ → TestProc) (end : ℕ) (s : System) {s0 s1 : System}
    → ((i : ℕ) → i < 6 → (tests i).priority < levels)
    → main code tests end s ≡ some s0
    → (reached : Reachable s0 s1) → IsSound (ended_processes reached) s1
main-IsSound code tests end s fits started reached =
    Reachable-IsSound (Returns-at (started-IsSound code tests end s fits) started) reached

-- In every state that is reached from start-up as above, whatever is asked of the executive next,
-- by the same rules, is done: no loop over the queues, the blocks or the mailboxes runs on for ever,
-- and a sound state follows.
pub main-serves :
    (code : ℕ → ℕ) (tests : ℕ → TestProc) (end : ℕ) (s : System) {s0 s1 : System}
    → ((i : ℕ) → i < 6 → (tests i).priority < levels)
    → main code tests end s ≡ some s0
    → (reached : Reachable s0 s1) (ask : Ask s1)
    → Returns (IsSound (gone_by ask (ended_processes reached))) (perform s1 ask)
main-serves code tests end s fits started reached ask =
    perform-IsSound (main-IsSound code tests end s fits started reached) ask
