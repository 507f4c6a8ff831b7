-- ===== src/Messaging/Delivers.antt =====
-- A round of check_existing_delayed_message at a message that is due.
use ece_354_real_time_operat.Base.{
  ℕ, suc, ◌+◌, ◌-◌, ◌<◌, ◌≡◌, refl, sym, subst, ◌∙◌, true, false, not, ◌&&◌, List, [], ◌∷◌, ◌++◌,
  arith, ◌==◌, if◌then◌else◌, update, inl, inr, Bool-cases, Returns, returns, bind,
}
use ece_354_real_time_operat.Chain.{length}
use ece_354_real_time_operat.Core.State.{Kernel}
use ece_354_real_time_operat.Memory.State.{mem_block_count}
use ece_354_real_time_operat.Messaging.Boxes.{Box, put_from, shift_from}
use ece_354_real_time_operat.Messaging.Boxes.Compact.{
  Compact, Compact-update, put_from-Put, shift_from-Shifted,
}
use ece_354_real_time_operat.Messaging.Boxes.Spans.{Span, Span-other}
use ece_354_real_time_operat.Messaging.Handlers.{deliver}
use ece_354_real_time_operat.Messaging.Words.{rx, get_field}
use ece_354_real_time_operat.Messaging.Wakes.{wake_receiver-IsAwake}
use ece_354_real_time_operat.Messaging.Awake.{IsAwake-HasDistinctPids, HasDistinctPids, IsAwake}
use ece_354_real_time_operat.System.{System}

-- Where the loop goes on: at the same place, which the next message has moved to, if there is one.
abbrev pub advance : ℕ → List ℕ → ℕ
advance i [] = i + 1
advance i (x ∷ xs) = i

-- The state of the loop in front of the place `i`, which started in the kernel `k0`: the envelopes `kept`
-- stay, `rest` is still to come, and `xs` are in the mailbox.
pub record IsAt (k0 : Kernel) (i highest : ℕ) (kept rest xs : List ℕ) (s : System) : Type 0 where
  pub awake : IsAwake k0 highest s.kernel
  pub passed : Span s.delayed_mailbox 0 i kept
  pub coming : Compact s.delayed_mailbox i rest
  pub inbox : Compact s.mailbox 0 xs

-- What a round leaves as it is.
abbrev pub replaced : System → Kernel → Box → Box → System
replaced s k mailbox delayed_mailbox = record s {
  kernel = k;
  mailbox = mailbox;
  delayed_mailbox = delayed_mailbox;
}

abbrev pub Delivered : Kernel → ℕ → List ℕ → ℕ → List ℕ → List ℕ → System → ℕ × ℕ × System → Type 0
Delivered k0 i kept d rest xs s (next, highest, s') =
    (k' : Kernel) × (mailbox : Box) × (delayed_mailbox : Box) × (next ≡ advance i rest)
    × (s' ≡ replaced s k' mailbox delayed_mailbox)
    × IsAt k0 i highest kept rest (xs ++ (d ∷ [])) (replaced s k' mailbox delayed_mailbox)

next_place :
    (i k : ℕ) (rest : List ℕ)
    → k ≡ i + 1 + length rest
    → i + 1 + length rest < mem_block_count
    → (if not (k == mem_block_count) && not (k == i + 1) then i else i + 1) ≡ advance i rest
next_place i k [] e room =
    let h : (k == i + 1) ≡ true = ground arith in
    rw h (elim (Bool-cases (k == mem_block_count)) [
      | inl full ↦ rw full refl
      | inr free ↦ rw free refl
    ])
next_place i k (x ∷ xs) e room =
    let h : (k == i + 1) ≡ false = ground arith in
    let h' : (k == mem_block_count) ≡ false = ground arith in rw (h, h') refl

pub deliver-Delivered :
    (k0 : Kernel) (i highest d : ℕ) (kept rest xs : List ℕ) (s : System)
    → HasDistinctPids k0
    → IsAt k0 i highest kept (d ∷ rest) xs s
    → i + 1 + length rest < mem_block_count
    → length xs < mem_block_count
    → Returns (Delivered k0 i kept d rest xs s) (deliver i highest s)
unfolding deliver
deliver-Delivered k0 i highest d kept rest xs s distinct v fits room =
    let (at, live, later) = v.coming in
    let put = put_from mem_block_count 0 (s.delayed_mailbox i) s.mailbox in
    let (c, place, below) =
      put_from-Put mem_block_count 0 (s.delayed_mailbox i) s.mailbox xs v.inbox
        (λ e. live (sym at ∙ e)) room in
    let free : (put.0 == mem_block_count) ≡ false = ground arith in
    let box = update s.delayed_mailbox i 0 in
    let (c', place', below') =
      shift_from-Shifted (mem_block_count - (i + 1)) i box rest (ground arith)
        (Compact-update s.delayed_mailbox (suc i) i 0 rest (omega arith) later) (omega arith) in
    rw free (
      bind
        (wake_receiver-IsAwake (get_field (put.1 put.0) rx s.memory) highest v.awake
          (IsAwake-HasDistinctPids v.awake distinct))
        λ (highest', k') awake. returns (
          k',
          put.1,
          (shift_from (mem_block_count - (i + 1)) i box).1,
          next_place i _ rest place' fits,
          refl,
          record {
            awake = awake;
            passed =
                Span-other s.delayed_mailbox _ 0 i kept (λ j h. below' j h ∙ ground arith) v.passed;
            coming = c';
            inbox = subst (λ x. Compact put.1 0 (xs ++ (x ∷ []))) at c;
          },
        ))
