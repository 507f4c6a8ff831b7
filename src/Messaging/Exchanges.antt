-- ===== src/Messaging/Exchanges.antt =====
-- A message that one process sends is the one that its receiver gets.
use ece_354_real_time_operat.Base.{
  ℕ, suc, ◌^◌, ◌<◌, ◌≡◌, refl, sym, ap, subst, ◌∙◌, ◌≢◌, inl, inr, Bool, true, some, List, [], ◌∷◌,
  ◌++◌, arith, ◌==◌, Bool-cases, Returns, mono, Returns-at,
}
use ece_354_real_time_operat.Chain.{Ptr, length}
use ece_354_real_time_operat.Chain.Find.{find_first}
use ece_354_real_time_operat.Core.State.{Queues}
use ece_354_real_time_operat.Core.Interrupts.{atomic_up}
use ece_354_real_time_operat.Core.Lookup.{get_current_pid}
use ece_354_real_time_operat.Core.Invariant.{IsValid}
use ece_354_real_time_operat.Memory.State.{mem_block_count, IsPool}
use ece_354_real_time_operat.Messaging.Words.{tx, rx, get_field}
use ece_354_real_time_operat.Messaging.Boxes.Compact.{Compact}
use ece_354_real_time_operat.Messaging.Boxes.Spans.{length-end}
use ece_354_real_time_operat.Messaging.Boxes.Takes.{drop_first}
use ece_354_real_time_operat.Messaging.Handlers.{send_message, receive_message}
use ece_354_real_time_operat.Messaging.Headers.{IsPool-other}
use ece_354_real_time_operat.Messaging.Calls.{
  Sent, no_envelope, no_receiver, sent, send_message-Sent, Received, received, made_to_wait,
  receive_message-Received,
}
use ece_354_real_time_operat.System.{System}

-- The only envelope of a mailbox that passes a test is the one found, and the others stay.
find_first-end :
    (test : ℕ → Bool) (box : ℕ → ℕ) (i x : ℕ) (xs : List ℕ)
    → Compact box i xs
    → find_first test xs ≡ 0
    → test x ≡ true
    → (find_first test (xs ++ (x ∷ [])) ≡ x) × (drop_first test (xs ++ (x ∷ [])) ≡ xs)
unfolding find_first drop_first
find_first-end test box i x [] c missed hit = rw hit (refl, refl)
find_first-end test box i x (y ∷ ys) (at, live, rest) missed hit = elim (Bool-cases (test y)) [
  | inl e ↦ absurd (live (rw e at missed))
  | inr e ↦
      let (found, left) = find_first-end test box (suc i) x ys rest (rw e at missed) hit in
      rw e (found, ap (λ zs. y ∷ zs) left)
]

-- What a successful call of send_message leaves.
abbrev Arrives : (s : System) (es : List ℕ) → ℕ → ℕ → System → Type 0
Arrives s es process_id envelope r =
    (envelope ≢ 0)
    × Compact r.mailbox 0 (es ++ (envelope ∷ []))
    × (get_field envelope rx r.memory ≡ process_id)
    × (get_field envelope tx r.memory ≡ get_current_pid (atomic_up s.kernel))

module _ (s : System) {a : Queues} {xs ys : List Ptr} (k : IsValid s.kernel a)
    (v : IsPool s.memory xs ys) where
  Sent-Arrives :
      {es : List ℕ} {process_id envelope : ℕ} {x : ℕ × System}
      → Sent s k v es process_id envelope x
      → x.0 ≡ 0
      → Arrives s es process_id envelope x.1
  Sent-Arrives (no_envelope e) zero_ = absurd (omega arith)
  Sent-Arrives (no_receiver live out) zero_ = absurd (omega arith)
  Sent-Arrives (sent live found there f c u e) zero_ = (live, c, f.receiver, f.sender)

  Sent-IsPool :
      {es : List ℕ} {process_id envelope : ℕ} {x : ℕ × System}
      → Sent s k v es process_id envelope x
      → x.0 ≡ 0
      → IsPool x.1.memory xs ys
  Sent-IsPool (no_envelope e) zero_ = absurd (omega arith)
  Sent-IsPool (no_receiver live out) zero_ = absurd (omega arith)
  Sent-IsPool (sent live found there f c u e) zero_ = rw f.same (IsPool-other _ _ v)

  -- A receiver for which the test finds the envelope gets it.
  abbrev Gets : List ℕ → ℕ → ℕ × System → Type 0
  Gets es envelope (answer, r) =
      (answer ≡ envelope) × Compact r.mailbox 0 es × (r.memory ≡ s.memory)

  Received-Gets :
      {es rest : List ℕ} {envelope : ℕ} {x : ℕ × System}
      → envelope ≢ 0
      → find_first (λ e. get_field e rx s.memory == get_current_pid (atomic_up s.kernel)) es
        ≡ envelope
      → drop_first (λ e. get_field e rx s.memory == get_current_pid (atomic_up s.kernel)) es ≡ rest
      → Received s k v es x
      → Gets rest envelope x
  Received-Gets live found left (received {r = r} named first c e) =
      (first ∙ found, subst (Compact r.mailbox 0) left c, rw e refl)
  Received-Gets live found left (made_to_wait missed b e) = absurd (live (sym found ∙ missed))

-- Where the invariant and the pool hold, the mailbox has no gaps and a free place, and the pids are
-- 32-bit words: if send_message_handler answers 0, and in a later state with the same mailbox and
-- memory the receiver runs, is not `main`, and no earlier message is for it, then
-- receive_message_handler gives it this envelope, with the sender in its header, and leaves the
-- mailbox as it was before.
pub send_message-receive_message :
    (s r t : System) {a b : Queues} {xs ys : List Ptr} (es : List ℕ) (process_id envelope : ℕ)
    → IsValid s.kernel a
    → IsPool s.memory xs ys
    → Compact s.mailbox 0 es
    → length es < mem_block_count
    → process_id < 2 ^ 32
    → get_current_pid s.kernel < 2 ^ 32
    → send_message process_id envelope s ≡ some (0, r)
    → IsValid t.kernel b
    → t.memory ≡ r.memory
    → t.mailbox ≡ r.mailbox
    → get_current_pid t.kernel ≡ process_id
    → process_id ≢ t.kernel.pid t.kernel.main_process
    → find_first (λ e. get_field e rx t.memory == process_id) es ≡ 0
    → Returns
        (λ (answer, t').
          (answer ≡ envelope)
          × (get_field answer tx t'.memory ≡ get_current_pid s.kernel)
          × Compact t'.mailbox 0 es)
        (receive_message t)
unfolding atomic_up get_current_pid
send_message-receive_message s r t {xs = xs} {ys = ys} es process_id envelope k v inbox room small
      small' did k' e e' here other missed =
    let given =
      Returns-at (send_message-Sent s k v es process_id envelope inbox room small small') did in
    let (live, c, receiver, sender) = Sent-Arrives s k v given refl in
    let pool : IsPool t.memory xs ys = rw e (Sent-IsPool s k v given refl) in
    let box : Compact t.mailbox 0 (es ++ (envelope ∷ [])) = rw e' c in
    let hit : (get_field envelope rx t.memory == process_id) ≡ true =
      rw (e, receiver) (ground arith) in
    let test = λ (n : ℕ). get_field n rx t.memory == process_id in
    let (found, left) = find_first-end test s.mailbox 0 envelope es inbox missed hit in
    mono
      (receive_message-Received t k' pool (es ++ (envelope ∷ [])) box
        (let l = length-end es envelope in omega arith) (λ h. other (sym here ∙ h)))
      λ (answer, t') x.
        let (e1, c', e2) = Received-Gets t k' pool live (rw here found) (rw here left) x in
        (e1, rw (e1, e2, e) sender, c')
