-- ===== src/Executive/Blocks.antt =====
-- What is written into a held block lies in no available one, so those stay cleared.
use ece_354_real_time_operat.Base.{
  ℕ, ◌+◌, ◌-◌, ◌*◌, ◌<◌, ◌≡◌, sym, ap, ◌∙◌, ◌≢◌, inl, inr, true, false, ◌&&◌, List, arith, ◌==◌,
  ltb, leb, update, Bool-cases,
}
use ece_354_real_time_operat.Chain.{Ptr, has, Chain-live}
use ece_354_real_time_operat.Memory.State.{Memory, mem_block_size, IsPool, IsClean}
use ece_354_real_time_operat.Messaging.Headers.{Filled, FilledLate}
use ece_354_real_time_operat.Executive.{IsUsed}
use ece_354_real_time_operat.Executive.Mailboxes.{used_inside}

-- A place in a block is in no other one.
blocks_apart :
    (base p b i : ℕ)
    → 0 < p
    → 0 < b
    → p ≢ b
    → i < mem_block_size
    → (leb (base + (b - 1) * mem_block_size) (base + (p - 1) * mem_block_size + i)
        && ltb
            (base + (p - 1) * mem_block_size + i)
            (base + (b - 1) * mem_block_size + mem_block_size))
      ≡ false
blocks_apart base p b i live live' differ small = elim (Bool-cases (ltb p b)) [
  | inl e ↦ ground arith
  | inr e ↦ ground arith
]

-- The place `a` is not in the block at the address `envelope`.
abbrev IsBeyond : ℕ → ℕ → Type 0
IsBeyond envelope a = (leb envelope a && ltb a (envelope + mem_block_size)) ≡ false

module _ {m : Memory} {xs ys : List Ptr} (v : IsPool m xs ys) {envelope : ℕ}
    (u : IsUsed m envelope) where
  used-IsBeyond :
      (p : Ptr) (i : ℕ)
      → has p xs ≡ true
      → i < mem_block_size
      → IsBeyond envelope (m.start_block p + i)
  used-IsBeyond p i inside small =
      let b = u.block in
      let there = used_inside v u in
      let dead = Chain-live m.next m.available xs v.available in
      let dead' = Chain-live m.next m.used ys v.used in
      let live : 0 < p = ground arith in
      let live' : 0 < b = ground arith in
      let differ : p ≢ b = λ e. cc (sym there ∙ (ap (λ x. has x ys) (sym e) ∙ v.apart p inside)) in
      let at = v.address p live (v.small_available p inside) in
      let at' = sym u.address ∙ v.address b live' (v.small_used b there) in
      rw (at, at') (blocks_apart m.memory_block_start p b i live live' differ small)

  pub Filled-clean :
      {current_pid process_id : ℕ} {m' : Memory}
      → Filled v current_pid process_id envelope m'
      → IsClean m xs
      → IsClean m' xs
  Filled-clean {m' = m'} f clean = rw f.same λ p inside i small.
      let far = used-IsBeyond p i inside small in
      f.outside (m.start_block p + i) (ground arith) ∙ clean p inside i small

  pub FilledLate-clean :
      {current_pid process_id time : ℕ} {m' : Memory}
      → FilledLate v current_pid process_id envelope time m'
      → IsClean m xs
      → IsClean m' xs
  FilledLate-clean {m' = m'} f clean = rw f.same λ p inside i small.
      let far = used-IsBeyond p i inside small in
      f.outside (m.start_block p + i) (ground arith) ∙ clean p inside i small

  pub wrote-clean :
      (j byte : ℕ)
      → j < mem_block_size
      → IsClean m xs
      → IsClean (record m { bytes = update m.bytes (envelope + j) byte }) xs
  wrote-clean j byte here clean = λ p inside i small.
      let far = used-IsBeyond p i inside small in
      let other : (envelope + j == m.start_block p + i) ≡ false = ground arith in
      rw other (clean p inside i small)
