-- ===== src/Memory/Removes.antt =====
-- void_to_block finds every block of the pool, and remove_mem_block takes a used block out of its
-- list if its owner asks.
use ece_354_real_time_operat.Base.{
  ℕ, ◌≡◌, refl, sym, ap, subst, ◌∙◌, ◌≢◌, inl, inr, true, false, ◌&&◌, ◌||◌, List, ◌∷◌, some, arith,
  ◌==◌, if◌then◌else◌, update, Bool-cases, Returns, returns, bind,
}
use ece_354_real_time_operat.Chain.{
  erase-head, Ptr, null, has, Chain, frame, erase, has-erase, Chain-head, Chain-live,
}
use ece_354_real_time_operat.Chain.Find.{find_first, find-Chain, find_first-passes, find_first-null}
use ece_354_real_time_operat.Chain.Bound.{Chain-below}
use ece_354_real_time_operat.Chain.Seek.{seek-Sought, Met}
use ece_354_real_time_operat.Memory.State.{used_blocks, Memory, set_head, block_limit, IsPool}
use ece_354_real_time_operat.Memory.Queues.{remove_mem_block, void_to_block}

module _ {m : Memory} {xs ys : List Ptr} (v : IsPool m xs ys) where
  -- The block that an address names: one of the pool, or none.
  pub data Named (address : ℕ) : Ptr → Type 0 where
    in_available :
        {b : Ptr} → b ≢ null → has b xs ≡ true → m.start_block b ≡ address → Named address b
    in_used : {b : Ptr} → b ≢ null → has b ys ≡ true → m.start_block b ≡ address → Named address b
    unnamed :
        {b : Ptr}
        → b ≡ null
        → ((p : Ptr) → (has p xs || has p ys) ≡ true → m.start_block p ≢ address)
        → Named address b

  -- void_to_block finds the block of the pool at an address, available or used.
  pub void_to_block-Named : (address : ℕ) → Returns (Named address) (void_to_block address m)
  unfolding void_to_block
  void_to_block-Named address =
      let test = λ (p : Ptr). m.start_block p == address in
      let first = find_first test xs in
      let second = find_first test ys in
      rw
        (find-Chain block_limit m.next test m.available xs v.available (
          Chain-below block_limit m.next m.available xs v.available (omega arith)
            v.small_available))
        (elim (Bool-cases (first == null)) [
          | inl e ↦
              rw
                (
                  e,
                  find-Chain block_limit m.next test m.used ys v.used
                      (Chain-below block_limit m.next m.used ys v.used (omega arith) v.small_used),
                )
                (elim (Bool-cases (second == null)) [
                  | inl e' ↦ returns (
                      unnamed (ground arith) λ p u. elim (Bool-cases (has p xs)) [
                        | inl i ↦
                            let miss =
                              find_first-null test xs p (ground arith)
                                (Chain-live m.next m.available xs v.available) i in
                            ground arith
                        | inr o ↦
                            let miss =
                              find_first-null test ys p (ground arith)
                                (Chain-live m.next m.used ys v.used) (ground arith) in
                            ground arith
                      ])
                  | inr e' ↦
                      let (inside, passes) = find_first-passes test ys (ground arith) in
                      returns (in_used (ground arith) inside (ground arith))
                ])
          | inr e ↦
              let (inside, passes) = find_first-passes test xs (ground arith) in
              rw e (returns (in_available (ground arith) inside (ground arith)))
        ])

  -- What remove_mem_block writes when it takes `b` out.
  abbrev pub Unlinked : Ptr → Ptr × Memory → Type 0
  Unlinked b r =
      (n : Ptr → Ptr) × (h : Ptr) × (r.0 ≡ b)
      × (r.1 ≡ record m { next = n; used = h })
      × Chain n h (erase b ys)
      × Chain n m.available xs

  unlink-Met :
      (b z : Ptr)
      → b ≢ null
      → has b ys ≡ true
      → Met m.next b null m.used ys z
      → Returns (Unlinked b) (
          if z == null
          then some (b, set_head used_blocks (m.next b) m)
          else some (b, record m { next = update m.next z (m.next b) }))
  unfolding erase
  unlink-Met b z alive inside (inl (e, e')) =
      let (rest, all, out, tail) = Chain-head m.next m.used ys v.used (ground arith) in
      let first : (z == null) ≡ true = ground arith in
      let left : erase b ys ≡ rest =
        ap (erase b) (all ∙ ap (λ p. p ∷ rest) e) ∙ erase-head b rest in
      let chain =
        subst (Chain m.next (m.next b)) (sym left)
          (subst (λ p. Chain m.next (m.next p) rest) e tail) in
      let result : Unlinked b (b, set_head used_blocks (m.next b) m) =
        (m.next, m.next b, refl, refl, chain, v.available) in
      rw first (returns result)
  unlink-Met b z alive inside (inr (ne, live, stays, chain)) =
      let there : (z == null) ≡ false = ground arith in
      let kept =
        frame m.next z (m.next b) m.available xs v.available
          (ground (arith, v.apart z, has-erase z b ys)) in
      let result : Unlinked b (b, record m { next = update m.next z (m.next b) }) =
        (update m.next z (m.next b), m.used, refl, refl, chain, kept) in
      rw there (returns result)

  pub remove_owned :
      (current_pid : ℕ) (b : Ptr)
      → b ≢ null
      → (m.used == null) ≡ false
      → has b ys ≡ true
      → m.pid b ≡ current_pid
      → Returns (Unlinked b) (remove_mem_block current_pid used_blocks b m)
  unfolding remove_mem_block
  remove_owned current_pid b live full inside owned =
      let named : (b == null) ≡ false = ground arith in
      let mine : (m.pid b == current_pid) ≡ true = ground arith in
      rw (full, named)
        (bind
          (seek-Sought block_limit m.next b null m.used ys v.used
            (Chain-below block_limit m.next m.used ys v.used (omega arith) v.small_used))
          λ r (e, met). rw (e, inside, mine) (unlink-Met b r.1 live inside (met (e ∙ inside))))

  pub remove_refused :
      (current_pid : ℕ) (b : Ptr)
      → b ≢ null
      → (m.used == null) ≡ false
      → (has b ys && m.pid b == current_pid) ≡ false
      → Returns (λ r. r ≡ (null, m)) (remove_mem_block current_pid used_blocks b m)
  unfolding remove_mem_block
  remove_refused current_pid b live full other =
      let named : (b == null) ≡ false = ground arith in
      rw (full, named)
        (bind
          (seek-Sought block_limit m.next b null m.used ys v.used
            (Chain-below block_limit m.next m.used ys v.used (omega arith) v.small_used))
          λ r (e, met). rw (e, other) (returns refl))
