-- ===== src/Debug/Mailboxes.antt =====
-- printMailbox shows the messages that wait, in order.
use ece_354_real_time_operat.Base.{
  ℕ, zero, suc, ◌+◌, ◌-◌, ◌≤◌, ◌≡◌, refl, ap, true, false, List, [], ◌∷◌, ◌++◌, arith, ◌==◌,
}
use ece_354_real_time_operat.Chain.{length}
use ece_354_real_time_operat.Memory.State.{Memory, mem_block_count}
use ece_354_real_time_operat.Messaging.Boxes.{Box}
use ece_354_real_time_operat.Messaging.Boxes.Compact.{Compact}
use ece_354_real_time_operat.Debug.Listings.{
  no_entry, Out, said, print_envelope, print_mailbox_from, print_mailbox,
}

abbrev pub envelope_items : Memory → List ℕ → List Out
envelope_items m [] = []
envelope_items m (e ∷ es) = print_envelope e m ++ envelope_items m es

abbrev pub no_entries : ℕ → List Out
no_entries zero = []
no_entries (suc n) = said no_entry ∷ no_entries n

empty_items :
    (rounds i : ℕ) (m : Memory) (box : Box)
    → Compact box i []
    → print_mailbox_from rounds i m box ≡ no_entries rounds
unfolding print_mailbox_from
empty_items zero i m box c = refl
empty_items (suc rounds) i m box c =
    let gone : (box i == 0) ≡ true = let e = c i (omega arith) in ground arith in
    rw gone
      (ap (λ l. said no_entry ∷ l) (empty_items rounds (i + 1) m box (λ j h. c j (omega arith))))

mailbox_items :
    (rounds i : ℕ) (m : Memory) (box : Box) (es : List ℕ)
    → Compact box i es
    → length es ≤ rounds
    → print_mailbox_from rounds i m box ≡ envelope_items m es ++ no_entries (rounds - length es)
unfolding print_mailbox_from
mailbox_items rounds i m box [] c room =
    let e : rounds - 0 ≡ rounds = omega arith in rw e (empty_items rounds i m box c)
mailbox_items zero i m box (e ∷ es) c room = absurd (omega arith)
mailbox_items (suc rounds) i m box (e ∷ es) (at, live, rest) room =
    let full : (e == 0) ≡ false = ground arith in
    let next : i + 1 ≡ suc i = omega arith in
    let left : suc rounds - suc (length es) ≡ rounds - length es = omega arith in
    rw (at, full, next, left, mailbox_items rounds (suc i) m box es rest (omega arith)) refl

-- If the mailbox has no gaps and at most 30 messages, printMailbox writes the sender, the receiver and
-- the type of each message, in order, and then once for each of the other places that there is
-- nothing.
pub print_mailbox-envelope_items :
    (m : Memory) (mailbox : Box) (es : List ℕ)
    → Compact mailbox 0 es
    → length es ≤ mem_block_count
    → print_mailbox m mailbox ≡ envelope_items m es ++ no_entries (mem_block_count - length es)
unfolding print_mailbox
print_mailbox-envelope_items m mailbox es c room =
    mailbox_items mem_block_count 0 m mailbox es c room
