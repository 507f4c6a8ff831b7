-- ===== src/Messaging/Scans.antt =====
-- The loop of check_existing_delayed_message: it ends, and delivers the messages that are due.
use ece_354_real_time_operat.Base.{
  ℕ, zero, suc, ◌+◌, ◌-◌, ◌≤◌, ◌<◌, ◌≡◌, refl, sym, subst, Bool, true, false, List, [], ◌∷◌, ◌++◌,
  append-nil, append_assoc, arith, ◌==◌, leb, if◌then◌else◌, inl, inr, Bool-cases, some, ◌>>=◌,
  Returns, returns, bind, mono,
}
use ece_354_real_time_operat.Chain.{length}
use ece_354_real_time_operat.Core.State.{Kernel}
use ece_354_real_time_operat.Memory.State.{mem_block_count}
use ece_354_real_time_operat.Messaging.Boxes.{Box}
use ece_354_real_time_operat.Messaging.Boxes.Compact.{Compact}
use ece_354_real_time_operat.Messaging.Boxes.Spans.{Span-Compact, Span-end, length-end}
use ece_354_real_time_operat.Messaging.Handlers.{is_due, check_round, check_from}
use ece_354_real_time_operat.Messaging.Awake.{HasDistinctPids, IsAwake}
use ece_354_real_time_operat.Messaging.Delivers.{advance, IsAt, replaced, deliver-Delivered}
use ece_354_real_time_operat.System.{System}

-- The messages of a list that pass the test, and those that do not, in order.
unfoldable pub passing : (ℕ → Bool) → List ℕ → List ℕ
passing test [] = []
passing test (x ∷ xs) = let rest = passing test xs in if test x then x ∷ rest else rest

unfoldable pub failing : (ℕ → Bool) → List ℕ → List ℕ
failing test [] = []
failing test (x ∷ xs) = let rest = failing test xs in if test x then rest else x ∷ rest

pub length-passing : (test : ℕ → Bool) (xs : List ℕ) → length (passing test xs) ≤ length xs
unfolding passing
length-passing test [] = omega arith
length-passing test (x ∷ xs) =
    let h = length-passing test xs in
    elim (Bool-cases (test x)) [ inl e ↦ rw e (omega arith) | inr e ↦ rw e (omega arith) ]

check_from_step :
    (fuel i highest : ℕ) (s : System)
    → leb mem_block_count i ≡ false
    → check_from (suc fuel) i highest s
      ≡ (do r ← check_round i highest s; check_from fuel r.0 r.1 r.2)
unfolding check_from
check_from_step fuel i highest s e = rw e refl

-- Behind the last message, the loop runs to its end.
check_from_end :
    (fuel i highest : ℕ) (s : System)
    → Compact s.delayed_mailbox i []
    → mem_block_count - i < fuel
    → check_from fuel i highest s ≡ some (highest, s)
unfolding check_from check_round
check_from_end zero i highest s c enough = absurd (omega arith)
check_from_end (suc fuel) i highest s c enough = elim (Bool-cases (leb mem_block_count i)) [
  | inl over ↦ rw over refl
  | inr more ↦
      let gone : (s.delayed_mailbox i == 0) ≡ true = let e = c i (omega arith) in ground arith in
      let last = check_from_end fuel (i + 1) highest s (λ j h. c j (omega arith)) (ground arith) in
      rw (more, gone) last
]

-- What the loop gives in the state `s`, with `xs` in the mailbox, `kept` passed, and `rest` to come.
abbrev pub Scanned : Kernel → List ℕ → List ℕ → List ℕ → System → ℕ × System → Type 0
Scanned k0 kept rest xs s (highest, s') =
    (k' : Kernel) × (mailbox : Box) × (delayed_mailbox : Box) × (s'
      ≡ replaced s k' mailbox delayed_mailbox)
    × IsAwake k0 highest k'
    × Compact mailbox 0 (xs ++ passing (is_due s) rest)
    × Compact delayed_mailbox 0 (kept ++ failing (is_due s) rest)

scan_end :
    (k0 : Kernel) (fuel i place highest : ℕ) (kept xs : List ℕ) (s : System)
    → IsAt k0 i highest kept [] xs s
    → i ≤ place
    → mem_block_count - place < fuel
    → Returns (Scanned k0 kept [] xs s) (check_from fuel place highest s)
unfolding passing failing
scan_end k0 fuel i place highest kept xs s v h enough =
    rw (check_from_end fuel place highest s (λ j h'. v.coming j (omega arith)) enough) (
      returns (
        s.kernel,
        s.mailbox,
        s.delayed_mailbox,
        refl,
        v.awake,
        subst (Compact s.mailbox 0) (sym (append-nil xs)) v.inbox,
        Span-Compact s.delayed_mailbox 0 i kept [] v.passed v.coming,
      ))

-- If a shift has filled the place again, the loop goes on there, and else behind it.
scan_advance :
    (k0 : Kernel) (fuel i highest : ℕ) (kept rest xs : List ℕ) (s : System)
    → IsAt k0 i highest kept rest xs s
    → mem_block_count - (i + 1) < fuel
    → Returns (Scanned k0 kept rest xs s) (check_from fuel i highest s)
    → Returns (Scanned k0 kept rest xs s) (check_from fuel (advance i rest) highest s)
scan_advance k0 fuel i highest kept [] xs s v enough at_same =
    scan_end k0 fuel i (i + 1) highest kept xs s v (omega arith) enough
scan_advance k0 fuel i highest kept (x ∷ rest) xs s v enough at_same = at_same

-- A round at a message that is due, and one at a message that is not.
Scanned-due :
    (k0 : Kernel) (kept rest xs : List ℕ) (d : ℕ) (s : System) (r : ℕ × System)
    → is_due s d ≡ true
    → Scanned k0 kept rest (xs ++ (d ∷ [])) s r
    → Scanned k0 kept (d ∷ rest) xs s r
unfolding passing failing
Scanned-due k0 kept rest xs d s r due (k', mailbox, delayed_mailbox, e, awake, c, c') = (
  k',
  mailbox,
  delayed_mailbox,
  e,
  awake,
  rw due (subst (Compact mailbox 0) (append_assoc xs (d ∷ []) (passing (is_due s) rest)) c),
  rw due c',
)

Scanned-late :
    (k0 : Kernel) (kept rest xs : List ℕ) (d : ℕ) (s : System) (r : ℕ × System)
    → is_due s d ≡ false
    → Scanned k0 (kept ++ (d ∷ [])) rest xs s r
    → Scanned k0 kept (d ∷ rest) xs s r
unfolding passing failing
Scanned-late k0 kept rest xs d s r late (k', mailbox, delayed_mailbox, e, awake, c, c') = (
  k',
  mailbox,
  delayed_mailbox,
  e,
  awake,
  rw late c,
  rw late
      (subst (Compact delayed_mailbox 0) (append_assoc kept (d ∷ []) (failing (is_due s) rest)) c'),
)

-- The loop of check_existing_delayed_message ends within as many rounds as there are places ahead
-- and messages to come, and one more, if less than 30 places are used up to the last delayed
-- message, the mailbox has room for the due messages, no two processes have the same pid and the
-- loop stands between `kept` and `rest`: the messages of `rest` that are due are then at the end of
-- the mailbox, in order, the others behind `kept`, the same process runs, the invariant holds, and
-- no ready process has a priority above both that of the running one and the priority noted.
pub check_from-Scanned :
    (k0 : Kernel) (fuel i highest : ℕ) (kept rest xs : List ℕ) (s : System)
    → HasDistinctPids k0
    → IsAt k0 i highest kept rest xs s
    → i + length rest < mem_block_count
    → length xs + length (passing (is_due s) rest) ≤ mem_block_count
    → mem_block_count - i + length rest < fuel
    → Returns (Scanned k0 kept rest xs s) (check_from fuel i highest s)
unfolding check_round passing
check_from-Scanned k0 fuel i highest kept [] xs s distinct v fits room enough =
    scan_end k0 fuel i i highest kept xs s v (omega arith) (omega arith)
check_from-Scanned k0 zero i highest kept (d ∷ rest) xs s distinct v fits room enough =
    absurd (omega arith)
check_from-Scanned k0 (suc fuel) i highest kept (d ∷ rest) xs s distinct v fits room enough =
    let (at, live, later) = v.coming in
    let full : (s.delayed_mailbox i == 0) ≡ false = ground arith in
    rw (check_from_step fuel i highest s (ground arith), full)
      (elim (Bool-cases (is_due s (s.delayed_mailbox i))) [
        | inl due ↦
            let due' = subst (λ e. is_due s e ≡ true) at due in
            let room' : length xs + suc (length (passing (is_due s) rest)) ≤ mem_block_count =
              rw due' at room in
            rw due (
              bind
                (deliver-Delivered k0 i highest d kept rest xs s distinct v (omega arith)
                  (omega arith))
                λ (next, highest', s') (k', mailbox, delayed_mailbox, e, e', v').
                  let s1 = replaced s k' mailbox delayed_mailbox in
                  let longer : length (xs ++ (d ∷ [])) + length (passing (is_due s) rest)
                      ≤ mem_block_count =
                    let l = length-end xs d in omega arith in
                  rw (e, e')
                    (mono
                      (scan_advance k0 fuel i highest' kept rest (xs ++ (d ∷ [])) s1 v'
                        (omega arith)
                        (check_from-Scanned k0 fuel i highest' kept rest (xs ++ (d ∷ [])) s1
                          distinct v' (omega arith) longer (omega arith)))
                      λ r found. Scanned-due k0 kept rest xs d s r due' found))
        | inr late ↦
            let late' = subst (λ e. is_due s e ≡ false) at late in
            let room' : length xs + length (passing (is_due s) rest) ≤ mem_block_count =
              rw late' at room in
            let next : i + 1 ≡ suc i = omega arith in
            rw (late, next)
              (mono
                (check_from-Scanned k0 fuel (suc i) highest (kept ++ (d ∷ [])) rest xs s distinct
                  (record {
                    awake = v.awake;
                    passed = Span-end s.delayed_mailbox 0 i d kept v.passed at live;
                    coming = later;
                    inbox = v.inbox;
                  })
                  (omega arith) room' (omega arith))
                λ r found. Scanned-late k0 kept rest xs d s r late' found)
      ])
