-- ===== src/Executive/Mailboxes.antt =====
-- The messages are blocks in use, so the mailboxes have room for them all.
use ece_354_real_time_operat.Base.{
  ℕ, suc, ◌+◌, ◌^◌, ◌≤◌, ◌<◌, ◌≡◌, refl, sym, ap, subst, ◌∙◌, ◌≢◌, inl, inr, true, false, List, [],
  ◌∷◌, ◌++◌, arith, ◌==◌, Bool-cases,
}
use ece_354_real_time_operat.Chain.{Ptr, has, length, erase, Chain}
use ece_354_real_time_operat.Core.Lookup.{get_current_pid}
use ece_354_real_time_operat.Core.Interrupts.{atomic_up}
use ece_354_real_time_operat.Memory.State.{Memory, mem_block_count, IsPool}
use ece_354_real_time_operat.Memory.Pool.{length-append}
use ece_354_real_time_operat.Executive.{addresses, IsSound, IsUsed, IsHeld, IsOut}
use ece_354_real_time_operat.Executive.Counts.{
  count, count-append, count-one, count_other, count-length, Compact-count,
}
use ece_354_real_time_operat.System.{System}

length-addresses : (start : Ptr → ℕ) (bs : List Ptr) → length (addresses start bs) ≡ length bs
length-addresses start [] = refl
length-addresses start (b ∷ bs) = omega (arith, length-addresses start bs)

pub addresses-append :
    (start : Ptr → ℕ) (xs ys : List Ptr)
    → addresses start (xs ++ ys) ≡ addresses start xs ++ addresses start ys
addresses-append start [] ys = refl
addresses-append start (x ∷ xs) ys = ap (λ l. start x ∷ l) (addresses-append start xs ys)

-- A block of the list counts at its address.
pub count-addresses :
    (start : Ptr → ℕ) (b : Ptr) (bs : List Ptr)
    → has b bs ≡ true
    → 0 < count (start b) (addresses start bs)
unfolding count
count-addresses start b [] i = cc
count-addresses start b (x ∷ bs) i = elim (Bool-cases (start b == start x)) [
  | inl e ↦ rw e (omega arith)
  | inr ne ↦
      let other : (b == x) ≡ false = elim (Bool-cases (b == x)) [
        | inl e ↦ let e' : b ≡ x = ground arith in let e'' = ap start e' in ground arith
        | inr o ↦ o
      ] in
      rw ne (count-addresses start b bs (ground arith))
]

-- Only the count at the address of the block changes when it leaves the list.
pub count-addresses-erase :
    (start : Ptr → ℕ) (e b : ℕ) (bs : List Ptr)
    → has b bs ≡ true
    → e ≢ start b
    → count e (addresses start (erase b bs)) ≡ count e (addresses start bs)
unfolding count erase
count-addresses-erase start e b [] i ne = cc
count-addresses-erase start e b (x ∷ bs) i ne = elim (Bool-cases (b == x)) [
  | inl hit ↦
      let same : b ≡ x = ground arith in
      let at = ap start same in
      let other : (e == start x) ≡ false = ground arith in rw (hit, other) refl
  | inr miss ↦
      let h = count-addresses-erase start e b bs (ground arith) ne in
      rw miss (elim (Bool-cases (e == start x)) [ inl i' ↦ rw i' (ap suc h) | inr o ↦ rw o h ])
]

-- Two lists that the same objects link are the same.
Chain-unique :
    (next : Ptr → Ptr) (p : Ptr) (xs ys : List Ptr) → Chain next p xs → Chain next p ys → xs ≡ ys
Chain-unique next p [] [] c d = refl
Chain-unique next p [] (y ∷ ys) c d = absurd (d.1 (sym d.0 ∙ c))
Chain-unique next p (x ∷ xs) [] c d = absurd (c.1 (sym c.0 ∙ d))
Chain-unique next p (x ∷ xs) (y ∷ ys) c d =
    let same : x ≡ y = sym c.0 ∙ d.0 in
    let d' : Chain next (next x) ys = subst (λ z. Chain next (next z) ys) (sym same) d.3 in
    let rest = Chain-unique next (next x) xs ys c.3 d' in cc

-- The block of a used envelope is one of the used blocks of the pool.
pub used_inside :
    {m : Memory} {xs ys : List Ptr} {envelope : ℕ}
    → IsPool m xs ys
    → (u : IsUsed m envelope) → has u.block ys ≡ true
used_inside {m} {ys = ys} v u =
    subst (λ l. has u.block l ≡ true) (Chain-unique m.next m.used u.blocks ys u.chain v.used)
      u.inside

module _ {gone : List Ptr} {s : System} (v : IsSound gone s) where
  -- There are at most as many messages as blocks in use.
  pub IsSound_room : length v.messages + length v.waiting ≤ length v.used
  IsSound_room =
      let h =
        count-length (v.messages ++ v.waiting) (addresses s.memory.start_block v.used)
          λ e. let h = v.held e in omega (arith, count-append e v.messages v.waiting) in
      omega
        (arith, length-append v.messages v.waiting, length-addresses s.memory.start_block v.used)

  pub IsSound_limit : length v.messages + length v.waiting ≤ mem_block_count
  IsSound_limit = let h = IsSound_room in let w = v.pool.whole in omega arith

  pub IsOut-count : {e : ℕ} → IsOut s e → (count e v.messages ≡ 0) × (count e v.waiting ≡ 0)
  IsOut-count {e} o =
      let h = IsSound_limit in
      (
        Compact-count s.mailbox 0 mem_block_count e v.messages v.inbox (omega arith) o.mailbox,
        Compact-count s.delayed_mailbox 0 mem_block_count e v.waiting v.later (omega arith)
            o.delayed_mailbox,
      )

  -- A held block may become a message: it is none yet.
  pub held_more :
      {envelope : ℕ}
      → IsHeld s envelope
      → (e : ℕ)
      → count e v.messages + count e v.waiting + count e (envelope ∷ [])
        ≤ count e (addresses s.memory.start_block v.used)
  held_more {envelope} h e = elim (Bool-cases (e == envelope)) [
    | inl same ↦
        let same' : e ≡ envelope = ground arith in
        let (none_there, none_later) = IsOut-count h.out in
        let inside =
          subst (λ x. 0 < count x (addresses s.memory.start_block v.used)) h.used.address
            (count-addresses s.memory.start_block h.used.block v.used
              (used_inside v.pool h.used)) in
        let one = count-one envelope envelope in rw same' (omega arith)
    | inr other ↦
        let nothing = count_other e envelope (ground arith) in let before = v.held e in omega arith
  ]

  -- So the mailbox has room for a held block.
  pub messages_room : {envelope : ℕ} → IsHeld s envelope → length v.messages < mem_block_count
  messages_room {envelope} h =
      let more =
        count-length ((envelope ∷ v.messages) ++ v.waiting) (addresses s.memory.start_block v.used)
          λ e.
            let m = held_more h e in
            omega (
              arith,
              count-append e (envelope ∷ v.messages) v.waiting,
              count-append e (envelope ∷ []) v.messages,
            ) in
      let w = v.pool.whole in
      omega (
        arith,
        length-append (envelope ∷ v.messages) v.waiting,
        length-addresses s.memory.start_block v.used,
      )

  -- The pid of the running process is a word.
  pub current_word : get_current_pid (atomic_up s.kernel) < 2 ^ 32
  unfolding get_current_pid atomic_up
  current_word = elim (Bool-cases (s.kernel.running_process == 0)) [
    | inl e ↦ rw e (omega arith)
    | inr e ↦
        let live : 0 < s.kernel.running_process = ground arith in
        rw e (elim (Bool-cases (s.kernel.running_process == s.kernel.main_process)) [
          | inl main ↦
              v.words s.kernel.running_process live
                (let low = v.safe.distinct.main_low in ground arith)
          | inr other ↦
              v.words s.kernel.running_process live (v.safe.valid.running.low (ground arith))
        ])
  ]
