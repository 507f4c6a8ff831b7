-- ===== src/Uart/Receives.antt =====
-- What an interrupt of the UART comes to.
use ece_354_real_time_operat.Pids.{kcd_pid}
use ece_354_real_time_operat.Base.{
  ℕ, ◌+◌, ◌^◌, ◌<◌, ◌≡◌, sym, subst, ◌∙◌, ◌≢◌, inl, inr, true, List, [], ◌∷◌, ◌++◌, arith, ◌==◌,
  Bool-cases, Returns, returns, bind,
}
use ece_354_real_time_operat.Chain.{Ptr, null, has, length, Chain-live, Chain-nil}
use ece_354_real_time_operat.Core.State.{Queues}
use ece_354_real_time_operat.Core.Interrupts.{atomic, atomic_up, atomic_down}
use ece_354_real_time_operat.Core.Lookup.{get_current_pid}
use ece_354_real_time_operat.Core.Lookup.Finds.{Lookup, Lookup-other}
use ece_354_real_time_operat.Core.Invariant.{IsValid}
use ece_354_real_time_operat.Core.Switch.Releases.{IsValid-other}
use ece_354_real_time_operat.Memory.State.{mem_block_count, IsPool, IsClean}
use ece_354_real_time_operat.Memory.Queues.{are_blocks_available}
use ece_354_real_time_operat.Memory.Handlers.{Request}
use ece_354_real_time_operat.Memory.Calls.{
  Requested, given, made_to_wait, request_memory_block-Requested,
}
use ece_354_real_time_operat.Messaging.Words.{rx, get_field, set_field}
use ece_354_real_time_operat.Messaging.Boxes.Compact.{Compact}
use ece_354_real_time_operat.Messaging.Headers.{IsPool-other}
use ece_354_real_time_operat.Messaging.Calls.{
  Sent, no_envelope, no_receiver, sent, send_message-Sent,
}
use ece_354_real_time_operat.Uart.{text_place, with_char, send_char, uart_handler}
use ece_354_real_time_operat.System.{System}

-- The state after the interrupt: the message has been sent with the character, or has been
-- dropped.
pub data Arrived (s : System) (a : Queues) (es : List ℕ) (char_in : ℕ) (xs : List Ptr) (r : System)
    : Type 0 where
  no_block : xs ≡ [] → Compact r.mailbox 0 es → Arrived s a es char_in xs r
  no_kcd :
      xs ≢ []
      → Lookup s.kernel a kcd_pid null
      → Compact r.mailbox 0 es
      → Arrived s a es char_in xs r
  arrived :
      {x : Ptr} {rest : List Ptr}
      → xs ≡ x ∷ rest
      → Compact r.mailbox 0 (es ++ (s.memory.start_block x ∷ []))
      → get_field (s.memory.start_block x) rx r.memory ≡ kcd_pid
      → r.memory.bytes (s.memory.start_block x + text_place) ≡ char_in
      → Arrived s a es char_in xs r

-- The second half, once a block is there.
Sent-Arrived :
    {t : System} {b : Queues} {ys zs xs : List Ptr} {es : List ℕ} {k : IsValid t.kernel b}
    {v : IsPool t.memory ys zs} (s : System) (char_in address : ℕ) (x : Ptr) (rest : List Ptr)
    (r : ℕ × System)
    → xs ≡ x ∷ rest
    → address ≡ s.memory.start_block x
    → Compact t.mailbox 0 es
    → address ≢ 0
    → t.memory.bytes (address + text_place) ≡ char_in
    → (Lookup t.kernel b kcd_pid null → Lookup s.kernel b kcd_pid null)
    → Sent t k v es kcd_pid address r
    → Arrived s b es char_in xs r.1
Sent-Arrived s char_in address x rest _ full start c live at there (no_envelope e) = absurd (live e)
Sent-Arrived s char_in address x rest _ full start c live at there (no_receiver e out) =
    no_kcd (λ nil. cc) (there out) c
Sent-Arrived {es = es} s char_in address x rest _ full start c live at there
      (sent {r = r} e found named f c' u e') =
    arrived {rest = rest} full (subst (λ n. Compact r.mailbox 0 (es ++ (n ∷ []))) start c')
      (subst (λ n. get_field n rx r.memory ≡ kcd_pid) start f.receiver)
      (subst (λ n. r.memory.bytes (n + text_place) ≡ char_in) start
        (f.outside (address + text_place) (ground arith) ∙ at))

module _ (s : System) (char_in : ℕ) {a : Queues} {xs ys : List Ptr} (es : List ℕ)
    (k : IsValid s.kernel a) (v : IsPool s.memory xs ys) (inbox : Compact s.mailbox 0 es)
    (room : length es < mem_block_count) (small : get_current_pid s.kernel < 2 ^ 32)
    (placed : s.memory.memory_block_start ≢ 0) where
  abbrev entered : System
  entered = record s { kernel = atomic_up s.kernel }

  block_live : {x : Ptr} {rest : List Ptr} → xs ≡ x ∷ rest → s.memory.start_block x ≢ 0
  block_live {x} full =
      let inside : has x xs ≡ true = rw full (ground arith) in
      let dead = Chain-live s.memory.next s.memory.available xs v.available in
      let live : 0 < x = ground arith in
      let at = v.address x live (v.small_available x inside) in λ e. absurd (omega arith)

  Requested-Arrived :
      (kv : IsValid entered.kernel a) (r : Request × System)
      → Requested entered kv v (get_current_pid (atomic_up entered.kernel)) r
      → Returns (Arrived s a es char_in xs) (send_char char_in r.0 r.1)
  unfolding send_char atomic_up atomic_down get_current_pid set_field
  Requested-Arrived kv _ (given {x} {rest} {r} {address} full at pool clean owner zeros starts e) =
      let m = with_char char_in address r.memory in
      let t = record r { memory = m } in
      let kt : IsValid r.kernel a = rw e (IsValid-other _ k) in
      let at_char : m.bytes (address + text_place) ≡ char_in = ground arith in
      bind
        (send_message-Sent t kt (IsPool-other r.memory.pid m.bytes pool) es kcd_pid address
          (rw e inbox) room (omega arith) (rw e small))
        λ r' w. returns (
          Sent-Arrived s char_in address x rest r' full at (rw e inbox)
            (λ z. block_live full (sym at ∙ z)) at_char
            (λ l. Lookup-other {k = s.kernel} _ (rw e at l)) w)
  Requested-Arrived kv _ (made_to_wait {r} nil b e) = returns (no_block nil (rw e inbox))

  -- Where the invariant and the pool hold, the available blocks are cleared and do not lie at
  -- address 0, the mailbox has no gaps and a free place, and the running process is not `main` and
  -- has a pid of 32 bits: uart_handler returns. The mailbox is as it was only if no block is
  -- available, or no process has the pid of kcd. Otherwise the first available block is the last message of the mailbox;
  -- it is for kcd, and its text begins with the character that came in.
  pub uart_handler-Arrived :
      IsClean s.memory xs
      → get_current_pid s.kernel ≢ s.kernel.pid s.kernel.main_process
      → Returns (Arrived s a es char_in xs) (uart_handler char_in s)
  unfolding uart_handler are_blocks_available atomic_up get_current_pid
  uart_handler-Arrived clean other = elim (Bool-cases (s.memory.available == null)) [
    | inl e ↦
        let nil = Chain-nil s.memory.next s.memory.available xs v.available (ground arith) in
        rw e (returns (no_block nil inbox))
    | inr e ↦
        let kv = IsValid-other (atomic 1 s.kernel.atomic) k in
        rw e (
          bind (request_memory_block-Requested entered kv v clean other)
            λ r q. Requested-Arrived kv r q)
  ]
