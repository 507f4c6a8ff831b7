-- ===== src/PriorityCommand/Tests.antt =====
-- The command that gives process 8 priority 1; and one without the blank, which is no command.
use ece_354_real_time_operat.Base.{ℕ, ◌≤◌, ◌≡◌, refl, [], ◌∷◌, some, arith, Returns}
use ece_354_real_time_operat.Core.Tests.{kernel, queues, kernel-IsValid, kernel-IsTop}
use ece_354_real_time_operat.Strings.{text}
use ece_354_real_time_operat.Display.{written_out}
use ece_354_real_time_operat.PriorityCommand.Replies.{reply_round-written}
use ece_354_real_time_operat.Strings.Texts.{text_behind}
use ece_354_real_time_operat.Strings.Reads.{decimal}
use ece_354_real_time_operat.PriorityCommand.{
  invalid_command, reply_chars, switch_round, reply_round,
}
use ece_354_real_time_operat.PriorityCommand.Changes.{IsChange, Replied, switch_round-Replied}

abbrev line : ℕ → ℕ
line = text (0x25 ∷ 0x43 ∷ 0x20 ∷ 0x38 ∷ 0x20 ∷ 0x31 ∷ [])

line-IsChange : IsChange line (8 ∷ []) (1 ∷ [])
line-IsChange = record {
  named = refl;
  of_pid = (omega arith, refl, refl);
  of_priority = (omega arith, refl, refl);
}

switch_round-Replied_example : Returns (Replied kernel queues 8 1) (switch_round 10 line kernel)
unfolding decimal
switch_round-Replied_example =
    switch_round-Replied 10 8 1 line [] [] kernel-IsValid kernel-IsTop refl line-IsChange
      (omega arith) (omega arith) (omega arith) (omega arith)

abbrev no_command : ℕ → ℕ
no_command = text (0x25 ∷ 0x43 ∷ 0x38 ∷ [])

no_command_test : switch_round 48 no_command kernel ≡ some (invalid_command, kernel)
unfolding switch_round
no_command_test = refl

reply_round_test :
    Returns
      (λ (t, k'). (written_out 48 t ≡ some (reply_chars invalid_command)) × (k' ≡ kernel))
      (reply_round 48 no_command kernel)
reply_round_test =
    reply_round-written 48 no_command kernel (invalid_command, kernel) no_command_test (omega arith)
      (λ j h. gone j (omega arith))
  where
    gone : (j : ℕ) → 3 ≤ j → no_command j ≡ 0
    gone j h = text_behind (0x25 ∷ 0x43 ∷ 0x38 ∷ []) j h
