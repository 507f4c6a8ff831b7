-- ===== src/PriorityCommand.antt =====
-- core/priority_switch.c: the process behind the command %C, which changes the priority of a process.
-- The text is that of the message that kcd sends. NUL is 0, a blank 0x20.
pub mod Splits
pub mod Changes
pub mod Replies
mod Tests
use ece_354_real_time_operat.Base.{
  ℕ, zero, suc, ◌+◌, not, ◌&&◌, Bool, List, [], ◌∷◌, Option, none, some, ◌==◌, if◌then◌else◌,
  update, ◌>>=◌,
}
use ece_354_real_time_operat.Core.State.{Kernel, minus_one}
use ece_354_real_time_operat.Core.Priority.{set_process_priority}
use ece_354_real_time_operat.Strings.{text, str_copy, ascii_to_int}

-- The text of the message with which the process registers "%C"; the block is cleared.
abbrev pub register_c : ℕ → ℕ
register_c = update (update (λ i. 0) 0 0x25) 1 0x43

-- The loop that ends the first number at a blank: the place where it stops, and the text.
unfoldable pub split_from : ℕ → ℕ → (ℕ → ℕ) → Option (ℕ × (ℕ → ℕ))
split_from zero i msg = none
split_from (suc fuel) i msg =
    let rest = split_from fuel (i + 1) msg in
    if msg i == 0 then some (i, msg) else if msg i == 0x20 then some (i, update msg i 0) else rest

-- Which of its five texts the process sends to the display.
pub data Reply : Type 0 where
  invalid_command invalid_pid invalid_priority cannot_change successful : Reply

abbrev pub is_command : (ℕ → ℕ) → Bool
is_command msg = msg 0 == 0x25 && msg 1 == 0x43 && msg 2 == 0x20

unfoldable pub change_to : ℕ → ℕ → Kernel → Option (Reply × Kernel)
change_to pid priority k =
    if pid == minus_one
    then some (invalid_pid, k)
    else if priority == minus_one
    then some (invalid_priority, k)
    else (do
      r ← set_process_priority pid priority k
      some (if r.0 == 0 then successful else cannot_change, r.1))

-- A round of the loop of priority_switch_command_handler.
unfoldable pub switch_round : ℕ → (ℕ → ℕ) → Kernel → Option (Reply × Kernel)
switch_round fuel msg k = if not (is_command msg) then some (invalid_command, k) else (do
  r ← split_from fuel 3 msg
  pid ← ascii_to_int fuel (λ j. r.1 (3 + j))
  priority ← ascii_to_int fuel (λ j. r.1 (r.0 + 1 + j))
  change_to pid priority k)

-- The text of each reply.
abbrev pub reply_chars : Reply → List ℕ
reply_chars invalid_command =
    0x43 ∷ 0x6F ∷ 0x6D ∷ 0x6D ∷ 0x61 ∷ 0x6E ∷ 0x64 ∷ 0x20 ∷ 0x77 ∷ 0x61 ∷ 0x73 ∷ 0x20 ∷ 0x69 ∷ 0x6E
    ∷ 0x76 ∷ 0x61 ∷ 0x6C ∷ 0x69 ∷ 0x64 ∷ 0x0A ∷ 0x0D ∷ []
reply_chars invalid_pid =
    0x50 ∷ 0x49 ∷ 0x44 ∷ 0x20 ∷ 0x77 ∷ 0x61 ∷ 0x73 ∷ 0x20 ∷ 0x69 ∷ 0x6E ∷ 0x76 ∷ 0x61 ∷ 0x6C ∷ 0x69
    ∷ 0x64 ∷ 0x0A ∷ 0x0D ∷ []
reply_chars invalid_priority =
    0x50 ∷ 0x72 ∷ 0x69 ∷ 0x6F ∷ 0x72 ∷ 0x69 ∷ 0x74 ∷ 0x79 ∷ 0x20 ∷ 0x77 ∷ 0x61 ∷ 0x73 ∷ 0x20 ∷ 0x69
    ∷ 0x6E ∷ 0x76 ∷ 0x61 ∷ 0x6C ∷ 0x69 ∷ 0x64 ∷ 0x0A ∷ 0x0D ∷ []
reply_chars cannot_change =
    0x43 ∷ 0x61 ∷ 0x6E ∷ 0x6E ∷ 0x6F ∷ 0x74 ∷ 0x20 ∷ 0x63 ∷ 0x68 ∷ 0x61 ∷ 0x6E ∷ 0x67 ∷ 0x65 ∷ 0x20
    ∷ 0x74 ∷ 0x68 ∷ 0x61 ∷ 0x74 ∷ 0x20 ∷ 0x70 ∷ 0x72 ∷ 0x6F ∷ 0x63 ∷ 0x65 ∷ 0x73 ∷ 0x73 ∷ 0x20
    ∷ 0x74 ∷ 0x6F ∷ 0x20 ∷ 0x74 ∷ 0x68 ∷ 0x61 ∷ 0x74 ∷ 0x20 ∷ 0x70 ∷ 0x72 ∷ 0x69 ∷ 0x6F ∷ 0x72
    ∷ 0x69 ∷ 0x74 ∷ 0x79 ∷ 0x0A ∷ 0x0D ∷ []
reply_chars successful =
    0x50 ∷ 0x72 ∷ 0x69 ∷ 0x6F ∷ 0x72 ∷ 0x69 ∷ 0x74 ∷ 0x79 ∷ 0x20 ∷ 0x63 ∷ 0x68 ∷ 0x61 ∷ 0x6E ∷ 0x67
    ∷ 0x65 ∷ 0x20 ∷ 0x73 ∷ 0x75 ∷ 0x63 ∷ 0x63 ∷ 0x65 ∷ 0x73 ∷ 0x73 ∷ 0x66 ∷ 0x75 ∷ 0x6C ∷ 0x0A
    ∷ 0x0D ∷ []

-- The text of the command when the reply is copied over it.
unfoldable pub cut_text : ℕ → (ℕ → ℕ) → Option (ℕ → ℕ)
cut_text fuel msg =
    if not (is_command msg) then some msg else (do r ← split_from fuel 3 msg; some r.1)

-- The whole round: the text that goes to the display.
unfoldable pub reply_round : ℕ → (ℕ → ℕ) → Kernel → Option ((ℕ → ℕ) × Kernel)
reply_round fuel msg k = do
  r ← switch_round fuel msg k
  cut ← cut_text fuel msg
  reply ← str_copy fuel (text (reply_chars r.0)) cut
  some (reply, r.1)
