-- ===== src/Messaging/Calls.antt =====
-- The three handlers as wholes: what they do to the mailboxes, the envelopes and the processes.
use ece_354_real_time_operat.Base.{
  ℕ, ◌+◌, ◌%◌, ◌^◌, ◌≤◌, ◌<◌, ◌≡◌, refl, ◌≢◌, inl, inr, Bool, true, List, [], ◌∷◌, ◌++◌, arith,
  ◌==◌, Bool-cases, Returns, returns, bind,
}
use ece_354_real_time_operat.Chain.{Ptr, null, length}
use ece_354_real_time_operat.Chain.Find.{find_first}
use ece_354_real_time_operat.Core.State.{Kernel, Queues, msg}
use ece_354_real_time_operat.Core.Interrupts.{atomic, atomic_up, atomic_down}
use ece_354_real_time_operat.Core.Lookup.{get_current_pid}
use ece_354_real_time_operat.Core.Lookup.Answers.{is_pid_valid-Lookup}
use ece_354_real_time_operat.Core.Lookup.Finds.{Lookup, Lookup-other}
use ece_354_real_time_operat.Core.Invariant.{IsValid}
use ece_354_real_time_operat.Core.Switch.Releases.{IsValid-other}
use ece_354_real_time_operat.Core.Blocking.Blocked.{Blocked, block_process-Blocked}
use ece_354_real_time_operat.Core.Blocking.Woken.{Unblocked, unblock_process_by_pid-Unblocked}
use ece_354_real_time_operat.Memory.State.{mem_block_count, IsPool}
use ece_354_real_time_operat.Messaging.Words.{rx, get_field}
use ece_354_real_time_operat.Messaging.Boxes.{take_from}
use ece_354_real_time_operat.Messaging.Boxes.Compact.{Compact, put_from-Put}
use ece_354_real_time_operat.Messaging.Boxes.Takes.{drop_first, take_from-Taken}
use ece_354_real_time_operat.Messaging.Handlers.{send_message, receive_message, delayed_send}
use ece_354_real_time_operat.Messaging.Headers.{
  Filled, fill_header-Filled, FilledLate, Filled-FilledLate,
}
use ece_354_real_time_operat.System.{System}

module _ (s : System) {a : Queues} {xs ys : List Ptr} (k : IsValid s.kernel a)
    (v : IsPool s.memory xs ys) where
  -- The kernel once a handler has entered and left atomic mode.
  abbrev pub kernel_after : Kernel
  kernel_after = atomic_down (atomic_up s.kernel)

  -- What send_message comes to, with the messages `es` in the mailbox.
  pub data Sent (es : List ℕ) (process_id envelope : ℕ) : ℕ × System → Type 0 where
    no_envelope : envelope ≡ 0 → Sent es process_id envelope (2, record s { kernel = kernel_after })
    no_receiver :
        envelope ≢ 0
        → Lookup s.kernel a process_id null
        → Sent es process_id envelope (1, record s { kernel = kernel_after })
    sent :
        {p : Ptr} {r : System}
        → envelope ≢ 0
        → Lookup s.kernel a process_id p
        → p ≢ null
        → Filled v (get_current_pid (atomic_up s.kernel)) process_id envelope r.memory
        → Compact r.mailbox 0 (es ++ (envelope ∷ []))
        → Unblocked kernel_after a process_id true r.kernel
        → r ≡ record s { kernel = r.kernel; memory = r.memory; mailbox = r.mailbox }
        → Sent es process_id envelope (0, r)

  -- Where the invariant and the pool hold, the mailbox has no gaps and a free place, and the pids
  -- are 32-bit words, send_message_handler returns: 2 without an envelope, 1 if no process has the
  -- pid, each with nothing changed but the counter of atomic. With 0 the header of the envelope
  -- names receiver and sender and no byte behind it has changed, its block belongs to the receiver,
  -- the envelope is the last of the mailbox, and the receiver is unblocked, to run at once if its
  -- priority is higher.
  pub send_message-Sent :
      (es : List ℕ) (process_id envelope : ℕ)
      → Compact s.mailbox 0 es
      → length es < mem_block_count
      → process_id < 2 ^ 32
      → get_current_pid (atomic_up s.kernel) < 2 ^ 32
      → Returns (Sent es process_id envelope) (send_message process_id envelope s)
  unfolding send_message atomic_up atomic_down
  send_message-Sent es process_id envelope c room small small' =
      let t = atomic 1 s.kernel.atomic in
      elim (Bool-cases (envelope == 0)) [
        | inl e ↦ rw e (returns (no_envelope (ground arith)))
        | inr e ↦
            let live : envelope ≢ 0 = ground arith in
            rw e (
              bind (is_pid_valid-Lookup (IsValid-other t k).placed process_id)
                λ valid (p, found, e').
                  let found' = Lookup-other {k = s.kernel} t found in
                  elim (Bool-cases (p == null)) [
                    | inl gone ↦
                        let none_there : p ≡ null = ground arith in
                        rw (e', gone) (returns (no_receiver live (rw none_there at found')))
                    | inr there ↦
                        rw (e', there)
                          (bind
                            (fill_header-Filled v (get_current_pid (atomic_up s.kernel)) process_id
                              envelope small' small)
                            λ m f.
                              bind
                                (unblock_process_by_pid-Unblocked process_id true
                                  (IsValid-other (atomic 0 t) k))
                                λ k1 u. returns (
                                  sent live found' (ground arith) f
                                    (put_from-Put mem_block_count 0 envelope s.mailbox es c live
                                      room).0
                                    u refl))
                  ])
      ]

  -- What delayed_send comes to, with the messages `ds` in the delayed mailbox.
  pub data Delayed (ds : List ℕ) (process_id envelope delay : ℕ) : ℕ × System → Type 0 where
    no_envelope :
        envelope ≡ 0 → Delayed ds process_id envelope delay (2, record s { kernel = kernel_after })
    no_receiver :
        envelope ≢ 0
        → Lookup s.kernel a process_id null
        → Delayed ds process_id envelope delay (1, record s { kernel = kernel_after })
    delayed :
        {p : Ptr} {r : System}
        → envelope ≢ 0
        → Lookup s.kernel a process_id p
        → p ≢ null
        → FilledLate v
            (get_current_pid (atomic_up s.kernel))
            process_id
            envelope
            ((delay + s.ticks) % 2 ^ 32)
            r.memory
        → Compact r.delayed_mailbox 0 (ds ++ (envelope ∷ []))
        → r ≡ record s {
          kernel = kernel_after;
          memory = r.memory;
          delayed_mailbox = r.delayed_mailbox;
        }
        → Delayed ds process_id envelope delay (0, r)

  -- Where the invariant and the pool hold, the delayed mailbox has no gaps and a free place, and
  -- the pids are 32-bit words, delayed_send_handler returns: 2 without an envelope, 1 if no process
  -- has the pid, each with nothing changed but the counter of atomic. With 0 the header names
  -- receiver, sender and the time at which the message is due, the delay from now modulo 2 ^ 32,
  -- the block belongs to the receiver, the envelope is the last of the delayed mailbox, and no
  -- process is unblocked.
  pub delayed_send-Delayed :
      (ds : List ℕ) (process_id envelope delay : ℕ)
      → Compact s.delayed_mailbox 0 ds
      → length ds < mem_block_count
      → process_id < 2 ^ 32
      → get_current_pid (atomic_up s.kernel) < 2 ^ 32
      → Returns (Delayed ds process_id envelope delay) (delayed_send process_id envelope delay s)
  unfolding delayed_send atomic_up atomic_down
  delayed_send-Delayed ds process_id envelope delay c room small small' =
      let t = atomic 1 s.kernel.atomic in
      elim (Bool-cases (envelope == 0)) [
        | inl e ↦ rw e (returns (no_envelope (ground arith)))
        | inr e ↦
            let live : envelope ≢ 0 = ground arith in
            rw e (
              bind (is_pid_valid-Lookup (IsValid-other t k).placed process_id)
                λ valid (p, found, e').
                  let found' = Lookup-other {k = s.kernel} t found in
                  elim (Bool-cases (p == null)) [
                    | inl gone ↦
                        let none_there : p ≡ null = ground arith in
                        rw (e', gone) (returns (no_receiver live (rw none_there at found')))
                    | inr there ↦
                        rw (e', there)
                          (bind
                            (fill_header-Filled v (get_current_pid (atomic_up s.kernel)) process_id
                              envelope small' small)
                            λ m f. returns (
                              delayed live found' (ground arith)
                                (Filled-FilledLate v ((delay + s.ticks) % 2 ^ 32) (omega arith) f)
                                (put_from-Put mem_block_count 0 envelope s.delayed_mailbox ds c live
                                  room).0
                                refl))
                  ])
      ]

  -- The test of receive_message: the envelope is for the running process.
  abbrev for_running : ℕ → Bool
  for_running e = get_field e rx s.memory == get_current_pid (atomic_up s.kernel)

  -- What receive_message_handler comes to, with the messages `es` in the mailbox.
  pub data Received (es : List ℕ) : ℕ × System → Type 0 where
    received :
        {envelope : ℕ} {r : System}
        → envelope ≢ 0
        → envelope ≡ find_first for_running es
        → Compact r.mailbox 0 (drop_first for_running es)
        → r ≡ record s { kernel = kernel_after; mailbox = r.mailbox }
        → Received es (envelope, r)
    made_to_wait :
        {r : System}
        → find_first for_running es ≡ 0
        → Blocked (atomic_up kernel_after) a (get_current_pid (atomic_up s.kernel)) msg r.kernel
        → r ≡ record s { kernel = r.kernel }
        → Received es (0, r)

  -- Where the invariant and the pool hold, the mailbox has no gaps and at most 30 messages, and
  -- `main` does not run, receive_message_handler returns. It answers with the first message for the
  -- running process, which it takes out of the mailbox without leaving a gap; if there is none, it
  -- answers 0, blocks the process on messages as block_process does, and leaves mailboxes and
  -- memory as they are.
  pub receive_message-Received :
      (es : List ℕ)
      → Compact s.mailbox 0 es
      → length es ≤ mem_block_count
      → get_current_pid (atomic_up s.kernel) ≢ s.kernel.pid s.kernel.main_process
      → Returns (Received es) (receive_message s)
  unfolding receive_message atomic_up atomic_down
  receive_message-Received es c room other =
      let taken = take_from mem_block_count 0 for_running s.mailbox in
      let (e, c', below) = take_from-Taken mem_block_count 0 for_running s.mailbox es c room in
      let valid = IsValid-other (atomic 0 (atomic 1 s.kernel.atomic)) k in
      elim (Bool-cases (taken.0 == 0)) [
        | inl gone ↦ rw gone (
            bind (block_process-Blocked (get_current_pid (atomic_up s.kernel)) msg valid other)
              λ k' b. returns (made_to_wait (ground arith) b refl))
        | inr there ↦ rw there (returns (received (ground arith) e c' refl))
      ]
