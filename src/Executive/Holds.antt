-- ===== src/Executive/Holds.antt =====
-- A process holds what it has been granted, and what it has received.
use ece_354_real_time_operat.Base.{List}
use ece_354_real_time_operat.Base.{
  ℕ, ◌+◌, ◌≤◌, ◌≡◌, refl, sym, ap, subst, ◌∙◌, ◌≢◌, true, [], ◌∷◌, ◌++◌, arith, ◌==◌, some,
  Returns-at,
}
use ece_354_real_time_operat.Chain.{Ptr, has, has-append}
use ece_354_real_time_operat.Memory.Handlers.{Request, granted, request_memory_block}
use ece_354_real_time_operat.Memory.Calls.{
  Requested, given, made_to_wait, request_memory_block-Requested,
}
use ece_354_real_time_operat.Core.Lookup.{get_current_pid}
use ece_354_real_time_operat.Core.Interrupts.{atomic_up}
use ece_354_real_time_operat.Messaging.Words.{rx, get_field}
use ece_354_real_time_operat.Messaging.Boxes.Takes.{drop_first}
use ece_354_real_time_operat.Messaging.Calls.{Received, received, receive_message-Received}
use ece_354_real_time_operat.Messaging.Handlers.{receive_message}
use ece_354_real_time_operat.Executive.{addresses, IsSound, IsHeld}
use ece_354_real_time_operat.Executive.Counts.{count}
use ece_354_real_time_operat.Executive.Mailboxes.{IsSound_limit}
use ece_354_real_time_operat.Executive.Passes.{other_after}
use ece_354_real_time_operat.System.{System}
use ece_354_real_time_operat.Executive.Taken.{
  available_low, used_low, find_first-drop_first, address_unique, count_none, count_once,
  count-block, none-IsOut,
}

module _ {gone : List Ptr} {s : System} (v : IsSound gone s) where
  -- An available block is no message.
  available_out :
      (x : Ptr)
      → has x v.available ≡ true
      → count (s.memory.start_block x) v.messages + count (s.memory.start_block x) v.waiting ≡ 0
  available_out x inside =
      let (live, low) = available_low v.pool x inside in
      let unused = count_none s.memory.start_block (s.memory.start_block x) v.used λ b u e.
        let (live', low') = used_low v.pool b u in
        let same = address_unique v.pool b x live' low' live low e in
        cc (sym (ap (λ z. has z v.used) same ∙ v.pool.apart x inside) ∙ u) in
      let h = v.held (s.memory.start_block x) in omega arith

  used_once : (e : ℕ) → count e (addresses s.memory.start_block v.used) ≤ 1
  used_once e =
      count_once s.memory.next s.memory.start_block e s.memory.used v.used v.pool.used λ b c u w h.
        let (live, low) = used_low v.pool b u in
        let (live', low') = used_low v.pool c w in address_unique v.pool b c live low live' low' h

  Requested-IsHeld :
      {pid address : ℕ} {r : Request × System}
      → address ≢ 0
      → Requested s v.safe.valid v.pool pid r
      → r.0 ≡ granted address
      → IsHeld r.1 address
  Requested-IsHeld {address = e} live
        (given {x} {rest} {r} {address} full at pool clean owner zeros starts same) is =
      let here : address ≡ e = cc in
      let at' : s.memory.start_block x ≡ e = sym at ∙ here in
      let inside : has x v.available ≡ true = rw full (ground arith) in
      rw same (record {
        used = record {
          blocks = v.used ++ (x ∷ []);
          chain = pool.used;
          block = x;
          inside = rw has-append (ground arith);
          address = rw starts at';
        };
        out =
            none-IsOut _ e v.messages v.waiting v.inbox v.later live (
              subst (λ z. count z v.messages + count z v.waiting ≡ 0) at' (available_out x inside));
      })
  Requested-IsHeld live (made_to_wait none_left b same) is = cc

  Received-IsHeld :
      {r : ℕ × System} → r.0 ≢ 0 → Received s v.safe.valid v.pool v.messages r → IsHeld r.1 r.0
  Received-IsHeld live (received {envelope} {r} live' first c same) =
      let test = λ (x : ℕ). get_field x rx s.memory == get_current_pid (atomic_up s.kernel) in
      let taken = find_first-drop_first test v.messages envelope live' first in
      let once = used_once envelope in
      let before = v.held envelope in
      let (b, inside, at) = count-block s.memory.start_block envelope v.used (omega arith) in
      rw same (record {
        used = record {
          blocks = v.used;
          chain = v.pool.used;
          block = b;
          inside = inside;
          address = at;
        };
        out =
            none-IsOut _ envelope (drop_first test v.messages) v.waiting c v.later live'
              (omega arith);
      })
  Received-IsHeld live (Received.made_to_wait none_there b same) = absurd (live refl)

-- In a sound state, a block that request_memory_block_handler grants to a process other than
-- `main`, at an address other than NULL, is held then: it is in use and in neither mailbox, so it may
-- be filled, sent or given back.
pub granted-IsHeld :
    {gone : List Ptr} {s s' : System} {address : ℕ}
    → IsSound gone s
    → s.kernel.running_process ≢ s.kernel.main_process
    → address ≢ 0
    → request_memory_block s ≡ some (granted address, s')
    → IsHeld s' address
granted-IsHeld {s} v other live e =
    Requested-IsHeld v live
      (Returns-at
        (request_memory_block-Requested s v.safe.valid v.pool v.clean (other_after v other)) e)
      refl

-- In a sound state, an envelope that receive_message_handler gives to a process other than `main` is
-- held then: it is in use, and has left the mailbox, so it may be filled, sent on or given back.
pub received-IsHeld :
    {gone : List Ptr} {s s' : System} {envelope : ℕ}
    → IsSound gone s
    → s.kernel.running_process ≢ s.kernel.main_process
    → envelope ≢ 0
    → receive_message s ≡ some (envelope, s')
    → IsHeld s' envelope
received-IsHeld {s} v other live e = Received-IsHeld v live (
    Returns-at
      (receive_message-Received s v.safe.valid v.pool v.messages v.inbox
        (let h = IsSound_limit v in omega arith) (other_after v other))
      e)
