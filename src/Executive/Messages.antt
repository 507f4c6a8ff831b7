-- ===== src/Executive/Messages.antt =====
-- The calls for messages and the tick return and keep the state sound.
use ece_354_real_time_operat.Base.{List}
use ece_354_real_time_operat.Chain.{Ptr}
use ece_354_real_time_operat.Base.{
  ℕ, ◌+◌, ◌%◌, ◌^◌, ◌<◌, ◌≡◌, ◌≢◌, [], ◌∷◌, ◌++◌, arith, ◌==◌, update, Returns, mono,
}
use ece_354_real_time_operat.Core.State.{msg}
use ece_354_real_time_operat.Core.Interrupts.{atomic_up}
use ece_354_real_time_operat.Core.Lookup.{get_current_pid}
use ece_354_real_time_operat.Core.Blocking.Steadies.{Unblocked-IsSteady, Blocked-IsSteady}
use ece_354_real_time_operat.Memory.Pool.{length-append}
use ece_354_real_time_operat.Messaging.Boxes.Takes.{drop_first}
use ece_354_real_time_operat.Messaging.Handlers.{
  is_due, send_message, receive_message, delayed_send, timer_isr,
}
use ece_354_real_time_operat.Messaging.Words.{rx, get_field}
use ece_354_real_time_operat.Messaging.Headers.{IsPool-other}
use ece_354_real_time_operat.Messaging.Calls.{
  Sent, no_envelope, sent, send_message-Sent, Delayed, delayed, delayed_send-Delayed, Received,
  received, receive_message-Received,
}
use ece_354_real_time_operat.Messaging.Scans.{passing, failing}
use ece_354_real_time_operat.Messaging.Ticks.{Ticked, timer_isr-Ticked}
use ece_354_real_time_operat.Startup.Reaches.{IsSteady-IsSafe}
use ece_354_real_time_operat.Executive.{IsSound, IsHeld}
use ece_354_real_time_operat.Executive.Blocks.{Filled-clean, FilledLate-clean}
use ece_354_real_time_operat.Executive.Counts.{
  count-append, count-passing, count-drop_first, length-failing, Compact-short,
}
use ece_354_real_time_operat.Executive.Mailboxes.{
  IsSound_limit, messages_room, held_more, current_word,
}
use ece_354_real_time_operat.Executive.Passes.{
  kernel-IsSound, passed-IsSteady, blocked-IsSteady, passing-IsValid, passing-IsTop, after-IsValid,
  after-IsTop, after-IsSteady, other_after,
}
use ece_354_real_time_operat.System.{System}

module _ {gone : List Ptr} {s : System} (v : IsSound gone s) where
  Sent-IsSound :
      {process_id envelope : ℕ} {r : ℕ × System}
      → IsHeld s envelope
      → Sent s v.safe.valid v.pool v.messages process_id envelope r
      → IsSound gone r.1
  Sent-IsSound h (no_envelope e) = kernel-IsSound v (passed-IsSteady v)
  Sent-IsSound h (Sent.no_receiver live gone) = kernel-IsSound v (passed-IsSteady v)
  Sent-IsSound {process_id} {envelope} h (sent {p} {r} live found there f c u e) =
      let t =
        after-IsSteady v (Unblocked-IsSteady (after-IsValid v) (after-IsTop v) process_id u) in
      rw e (record {
        safe = IsSteady-IsSafe v.safe t;
        words = rw t.same_pid v.words;
        available = v.available;
        used = v.used;
        pool =
            rw f.same (IsPool-other (update s.memory.pid f.block process_id) r.memory.bytes v.pool);
        clean = Filled-clean v.pool h.used f v.clean;
        messages = v.messages ++ (envelope ∷ []);
        waiting = v.waiting;
        inbox = c;
        later = v.later;
        held = λ e'.
            let more = held_more v h e' in
            rw f.same (omega (arith, count-append e' v.messages (envelope ∷ [])));
        few = v.few;
      })

  Delayed-IsSound :
      {process_id envelope delay : ℕ} {r : ℕ × System}
      → IsHeld s envelope
      → s.delayed_mailbox 28 ≡ 0
      → Delayed s v.safe.valid v.pool v.waiting process_id envelope delay r
      → IsSound gone r.1
  Delayed-IsSound h room (Delayed.no_envelope e) = kernel-IsSound v (passed-IsSteady v)
  Delayed-IsSound h room (Delayed.no_receiver live gone) = kernel-IsSound v (passed-IsSteady v)
  Delayed-IsSound {process_id} {envelope} h room (delayed {p} {r} live found there f c e) =
      rw e (record {
        safe = IsSteady-IsSafe v.safe (passed-IsSteady v);
        words = rw (passed-IsSteady v).same_pid v.words;
        available = v.available;
        used = v.used;
        pool =
            rw f.same (IsPool-other (update s.memory.pid f.block process_id) r.memory.bytes v.pool);
        clean = FilledLate-clean v.pool h.used f v.clean;
        messages = v.messages;
        waiting = v.waiting ++ (envelope ∷ []);
        inbox = v.inbox;
        later = c;
        held = λ e'.
            let more = held_more v h e' in
            rw f.same (omega (arith, count-append e' v.waiting (envelope ∷ [])));
        few =
            let short = Compact-short s.delayed_mailbox 0 28 v.waiting v.later room (omega arith) in
            omega (arith, length-append v.waiting (envelope ∷ []));
      })

  Received-IsSound :
      {r : ℕ × System} → Received s v.safe.valid v.pool v.messages r → IsSound gone r.1
  Received-IsSound (received {envelope} {r} live first c e) = rw e (record {
    safe = IsSteady-IsSafe v.safe (passed-IsSteady v);
    words = rw (passed-IsSteady v).same_pid v.words;
    available = v.available;
    used = v.used;
    pool = v.pool;
    clean = v.clean;
    messages = drop_first _ v.messages;
    waiting = v.waiting;
    inbox = c;
    later = v.later;
    held = λ e'.
        let h =
          count-drop_first e' (λ x. get_field x rx s.memory == get_current_pid (atomic_up s.kernel))
            v.messages in
        let before = v.held e' in omega arith;
    few = v.few;
  })
  Received-IsSound (Received.made_to_wait {r} none_there b e) = rw e (
      kernel-IsSound v
        (blocked-IsSteady v (Blocked-IsSteady (passing-IsValid v) (passing-IsTop v) _ msg b)))

  Ticked-IsSound :
      {s' : System}
      → Ticked (record s { ticks = (s.ticks + 1) % 2 ^ 32 }) v.messages v.waiting s'
      → IsSound gone s'
  Ticked-IsSound (t, c, c', e) =
      let due = is_due (record s { ticks = (s.ticks + 1) % 2 ^ 32 }) in
      rw e (record {
        safe = IsSteady-IsSafe v.safe t;
        words = rw t.same_pid v.words;
        available = v.available;
        used = v.used;
        pool = v.pool;
        clean = v.clean;
        messages = v.messages ++ passing due v.waiting;
        waiting = failing due v.waiting;
        inbox = c;
        later = c';
        held = λ e'.
            let before = v.held e' in
            let split = count-passing e' due v.waiting in
            omega (arith, count-append e' v.messages (passing due v.waiting));
        few = let h = length-failing due v.waiting in let few = v.few in omega arith;
      })

  pub send_message-IsSound :
      (process_id envelope : ℕ)
      → process_id < 2 ^ 32
      → IsHeld s envelope
      → Returns (λ r. IsSound gone r.1) (send_message process_id envelope s)
  send_message-IsSound process_id envelope small h =
      mono
        (send_message-Sent s v.safe.valid v.pool v.messages process_id envelope v.inbox
          (messages_room v h) small (current_word v))
        λ r q. Sent-IsSound h q

  pub delayed_send-IsSound :
      (process_id envelope delay : ℕ)
      → process_id < 2 ^ 32
      → IsHeld s envelope
      → s.delayed_mailbox 28 ≡ 0
      → Returns (λ r. IsSound gone r.1) (delayed_send process_id envelope delay s)
  delayed_send-IsSound process_id envelope delay small h room =
      mono
        (delayed_send-Delayed s v.safe.valid v.pool v.waiting process_id envelope delay v.later
          v.few small (current_word v))
        λ r q. Delayed-IsSound h room q

  pub receive_message-IsSound :
      s.kernel.running_process ≢ s.kernel.main_process
      → Returns (λ r. IsSound gone r.1) (receive_message s)
  receive_message-IsSound other =
      mono
        (receive_message-Received s v.safe.valid v.pool v.messages v.inbox
          (let h = IsSound_limit v in omega arith) (other_after v other))
        λ r q. Received-IsSound q

  pub timer_isr-IsSound : Returns (IsSound gone) (timer_isr s)
  timer_isr-IsSound =
      mono
        (timer_isr-Ticked s v.messages v.waiting v.safe.valid v.safe.top v.safe.distinct v.inbox
          v.later v.few (IsSound_limit v))
        λ s' t. Ticked-IsSound t
