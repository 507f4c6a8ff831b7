-- ===== src/Messaging/Headers.antt =====
-- Filling out the header of an envelope: its fields, its block's owner, and what stays as it was.
use ece_354_real_time_operat.Base.{
  ℕ, ◌+◌, ◌^◌, ◌<◌, ◌≡◌, refl, ap, ◌∙◌, false, ◌&&◌, List, arith, ltb, leb, update, Returns,
  returns, bind,
}
use ece_354_real_time_operat.Chain.{Ptr}
use ece_354_real_time_operat.Memory.State.{Memory, IsPool}
use ece_354_real_time_operat.Memory.Queues.{reassign_mem_block}
use ece_354_real_time_operat.Memory.Removes.{
  Named, in_available, in_used, unnamed, void_to_block-Named,
}
use ece_354_real_time_operat.Messaging.Words.{
  tx, rx, send_time, get_field, set_field, store_word, load_word-store_word, load_word-other,
  store_word_outside,
}
use ece_354_real_time_operat.Messaging.Handlers.{fill_header}

-- The pool does not read the owners or the bytes.
pub IsPool-other :
    {m : Memory} {xs ys : List Ptr} (owners : Ptr → ℕ) (bytes : ℕ → ℕ)
    → IsPool m xs ys
    → IsPool (record m { pid = owners; bytes = bytes }) xs ys
IsPool-other owners bytes v = record {
  available = v.available;
  used = v.used;
  apart = v.apart;
  small_available = v.small_available;
  small_used = v.small_used;
  whole = v.whole;
  address = v.address;
}

module _ {m : Memory} {xs ys : List Ptr} (v : IsPool m xs ys) where
  Named-other :
      {address : ℕ} {b : Ptr} (bytes : ℕ → ℕ)
      → Named (IsPool-other m.pid bytes v) address b
      → Named v address b
  Named-other bytes (in_available live inside at) = in_available live inside at
  Named-other bytes (in_used live inside at) = in_used live inside at
  Named-other bytes (unnamed e none_there) = unnamed e none_there

  -- What fill_header leaves. The block is the one with the envelope's address.
  pub record Filled (current_pid process_id envelope : ℕ) (m' : Memory) : Type 0 where
    pub block : Ptr
    pub named : Named v envelope block
    pub same : m' ≡ record m { pid = update m.pid block process_id; bytes = m'.bytes }
    pub receiver : get_field envelope rx m' ≡ process_id
    pub sender : get_field envelope tx m' ≡ current_pid
    pub outside :
        (a : ℕ) → (leb envelope a && ltb a (envelope + 8)) ≡ false → m'.bytes a ≡ m.bytes a

  reassign_mem_block-Named :
      (envelope process_id : ℕ) (bytes : ℕ → ℕ)
      → Returns
          (λ m1.
            (b : Ptr) × Named v envelope b
            × (m1 ≡ record m { pid = update m.pid b process_id; bytes = bytes }))
          (reassign_mem_block envelope process_id (record m { bytes = bytes }))
  unfolding reassign_mem_block
  reassign_mem_block-Named envelope process_id bytes =
      bind (void_to_block-Named (IsPool-other m.pid bytes v) envelope)
        λ b named. returns (b, Named-other bytes named, refl)

  pub fill_header-Filled :
      (current_pid process_id envelope : ℕ)
      → current_pid < 2 ^ 32
      → process_id < 2 ^ 32
      → Returns
          (Filled current_pid process_id envelope)
          (fill_header current_pid process_id envelope m)
  unfolding fill_header set_field get_field
  fill_header-Filled current_pid process_id envelope small small' =
      let first = store_word (envelope + rx) process_id m.bytes in
      let second = store_word (envelope + tx) current_pid first in
      let receiver' =
        load_word-other (envelope + tx) current_pid first (envelope + rx) (ground arith)
        ∙ load_word-store_word (envelope + rx) process_id m.bytes small' in
      let sender' = load_word-store_word (envelope + tx) current_pid first small in
      bind (reassign_mem_block-Named envelope process_id first) λ m1 (b, named, e). rw e (
        returns (record {
          block = b;
          named = named;
          same = refl;
          receiver = receiver';
          sender = sender';
          outside = λ a out.
              store_word_outside (envelope + tx) current_pid first a (ground arith)
              ∙ store_word_outside (envelope + rx) process_id m.bytes a (ground arith);
        }))

  -- The same with the time at which a delayed message is due.
  pub record FilledLate (current_pid process_id envelope time : ℕ) (m' : Memory) : Type 0 where
    pub block : Ptr
    pub named : Named v envelope block
    pub same : m' ≡ record m { pid = update m.pid block process_id; bytes = m'.bytes }
    pub receiver : get_field envelope rx m' ≡ process_id
    pub sender : get_field envelope tx m' ≡ current_pid
    pub due : get_field envelope send_time m' ≡ time
    pub outside :
        (a : ℕ) → (leb envelope a && ltb a (envelope + 16)) ≡ false → m'.bytes a ≡ m.bytes a

  pub Filled-FilledLate :
      {current_pid process_id envelope : ℕ} {m' : Memory} (time : ℕ)
      → time < 2 ^ 32
      → Filled current_pid process_id envelope m'
      → FilledLate current_pid process_id envelope time (set_field envelope send_time time m')
  unfolding set_field get_field
  Filled-FilledLate {current_pid} {process_id} {envelope} {m'} time small f = record {
    block = f.block;
    named = f.named;
    same =
        ap {A = Memory} (λ x. record x { bytes = store_word (envelope + send_time) time m'.bytes })
          f.same;
    receiver =
        load_word-other (envelope + send_time) time m'.bytes (envelope + rx) (ground arith)
        ∙ f.receiver;
    sender =
        load_word-other (envelope + send_time) time m'.bytes (envelope + tx) (ground arith)
        ∙ f.sender;
    due = load_word-store_word (envelope + send_time) time m'.bytes small;
    outside = λ a out.
        store_word_outside (envelope + send_time) time m'.bytes a (ground arith)
        ∙ f.outside a (ground arith);
  }
