-- ===== src/PriorityCommand/Changes.antt =====
-- A whole command %C: the numbers of its text are those that set_process_priority gets.
use ece_354_real_time_operat.Base.{
  ℕ, ◌+◌, ◌<◌, ◌≡◌, refl, false, true, List, ◌∷◌, arith, ◌==◌, if◌then◌else◌, update, Returns,
  returns, bind,
}
use ece_354_real_time_operat.Chain.{length}
use ece_354_real_time_operat.Core.State.{Kernel, Queues, minus_one}
use ece_354_real_time_operat.Core.Invariant.{IsValid, IsTop}
use ece_354_real_time_operat.Core.Priority.Outcomes.{Answer, set_process_priority-Answer}
use ece_354_real_time_operat.Strings.Reads.{Digits, decimal, ascii_to_int_word}
use ece_354_real_time_operat.PriorityCommand.{
  Reply, successful, cannot_change, is_command, change_to, switch_round,
}
use ece_354_real_time_operat.PriorityCommand.Splits.{
  Digits-shift, Digits-update, split_from-Digits, Digits-end,
}

-- "%C", a blank, the digits of `ds`, a blank, the digits of `es`.
pub record IsChange (msg : ℕ → ℕ) (ds es : List ℕ) : Type 0 where
  pub named : is_command msg ≡ true
  pub of_pid : Digits msg 3 ds 0x20
  pub of_priority : Digits msg (3 + length ds + 1) es 0

-- The reply to the answer of set_process_priority.
abbrev pub Replied : Kernel → Queues → ℕ → ℕ → Reply × Kernel → Type 0
Replied k a pid priority (reply, k') =
    (answer : ℕ) × Answer k a pid priority (answer, k')
    × (reply ≡ (if answer == 0 then successful else cannot_change))

change_to-Replied :
    {k : Kernel} {a : Queues} (pid priority : ℕ)
    → IsValid k a
    → IsTop k a
    → k.pid k.main_process ≡ minus_one
    → pid < minus_one
    → priority < minus_one
    → Returns (Replied k a pid priority) (change_to pid priority k)
unfolding change_to
change_to-Replied pid priority v top main small small' =
    let h : (pid == minus_one) ≡ false = ground arith in
    let h' : (priority == minus_one) ≡ false = ground arith in
    rw (h, h')
      (bind (set_process_priority-Answer pid priority v top main)
        λ (answer, k') found. returns (answer, found, refl))

-- Where the invariant holds, no ready process has a higher priority than the running one and the
-- pid of `main` is -1: a round of priority_switch_command_handler for a text of %C, a blank, a
-- number, a blank and a number calls set_process_priority with the two numbers, if both are below 2
-- ^ 32 - 1 and their digits fewer than the fuel, with the outcome that this call has, and replies
-- that the change was successful just if the answer is 0.
pub switch_round-Replied :
    {k : Kernel} {a : Queues} (fuel d e : ℕ) (msg : ℕ → ℕ) (ds es : List ℕ)
    → IsValid k a
    → IsTop k a
    → k.pid k.main_process ≡ minus_one
    → IsChange msg (d ∷ ds) (e ∷ es)
    → decimal (d ∷ ds) 0 < minus_one
    → decimal (e ∷ es) 0 < minus_one
    → length (d ∷ ds) < fuel
    → length (e ∷ es) < fuel
    → Returns (Replied k a (decimal (d ∷ ds) 0) (decimal (e ∷ es) 0)) (switch_round fuel msg k)
unfolding switch_round
switch_round-Replied fuel d e msg ds es v top main c small small' enough enough' =
    let i = 3 + length (d ∷ ds) in
    let text = update msg i 0 in
    let first = Digits-shift 3 0 text (d ∷ ds) 0 (Digits-end 3 msg (d ∷ ds) 0x20 c.of_pid) in
    let place : i + 1 + 0 ≡ i + 1 = omega arith in
    let second =
      Digits-shift (i + 1) 0 text (e ∷ es) 0
        (rw place (Digits-update i 0 (i + 1) msg (e ∷ es) 0 (omega arith) c.of_priority)) in
    rw
      (
        c.named,
        split_from-Digits fuel 3 msg (d ∷ ds) c.of_pid enough,
        ascii_to_int_word fuel d (λ j. text (3 + j)) ds first (omega arith) enough,
        ascii_to_int_word fuel e (λ j. text (i + 1 + j)) es second (omega arith) enough',
      )
      (change_to-Replied (decimal (d ∷ ds) 0) (decimal (e ∷ es) 0) v top main small small')
