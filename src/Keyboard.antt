-- ===== src/Keyboard.antt =====
-- io/kcd.c: the process that collects the typed characters, and sends a command to the process that
-- has registered it. Characters are ASCII codes. malloc has cleared the buffer and each command.
pub mod Commands
pub mod Buffers
pub mod Rounds
pub mod Lines
pub mod Tests
use ece_354_real_time_operat.Pids.{kcd_pid, crt_pid}
use ece_354_real_time_operat.Base.{
  ℕ, zero, suc, ◌+◌, Bool, true, false, not, ◌&&◌, ◌||◌, Option, none, some, List, [], ◌∷◌, ◌++◌,
  ◌==◌, leb, if◌then◌else◌, update, ◌>>=◌,
}
use ece_354_real_time_operat.Strings.{text, str_copy}

abbrev pub kcd_buffer_size : ℕ
kcd_buffer_size = 64

abbrev pub nul : ℕ
nul = 0x00

abbrev pub percent : ℕ
percent = 0x25

abbrev pub return : ℕ
return = 0x0D

-- struct reg_cmd, without its link.
pub record RegCmd : Type 0 where
  pub pid : ℕ
  pub cmd : ℕ → ℕ

-- The variables of kcd; the list from cmd_head to cmd_tail.
pub record Kcd : Type 0 where
  pub buffer : ℕ → ℕ
  pub kbuf_size : ℕ
  pub cmds : List RegCmd

-- register_command: a copy of the command joins the end of the list; str_copy has `fuel`.
unfoldable pub register_command : ℕ → (ℕ → ℕ) → ℕ → Kcd → Option Kcd
register_command fuel cmd_str pid k = if not (cmd_str 0 == percent) then some k else (do
  cmd ← str_copy fuel cmd_str (λ i. nul)
  some (record k { cmds = k.cmds ++ (record { pid = pid; cmd = cmd } ∷ []) }))

abbrev pub clr_chars : List ℕ
clr_chars = 0x25 ∷ 0x63 ∷ 0x6C ∷ 0x72 ∷ []

-- The start of kcd, with the command list that main has cleared: it registers "%clr".
unfoldable pub start_kcd : ℕ → Option Kcd
start_kcd fuel =
    register_command fuel (text clr_chars) kcd_pid
      (record { buffer = λ i. nul; kbuf_size = 0; cmds = [] })

-- reset_kcd_buffer: the loop from the place `i` on.
unfoldable pub reset_from : ℕ → ℕ → (ℕ → ℕ) → ℕ → ℕ
reset_from zero i buffer = buffer
reset_from (suc rounds) i buffer = reset_from rounds (i + 1) (update buffer i nul)

abbrev pub reset_kcd_buffer : (ℕ → ℕ) → ℕ → ℕ
reset_kcd_buffer buffer = reset_from kcd_buffer_size 0 buffer

abbrev pub is_end : ℕ → Bool
is_end c = c == 0x20 || c == nul

-- The loop that compares the buffer with the commands, at the character `i`: the command that is
-- found, if one is; none if the loop does not end within the fuel.
unfoldable pub find_command : ℕ → ℕ → (ℕ → ℕ) → List RegCmd → Option (Option RegCmd)
find_command zero i buffer cmds = none
find_command (suc fuel) i buffer [] = some none
find_command (suc fuel) i buffer (current ∷ next) =
    let longer = find_command fuel (i + 1) buffer (current ∷ next) in
    let other = find_command fuel 1 buffer next in
    if is_end (buffer i) && current.cmd i == nul
    then some (some current)
    else if buffer i == current.cmd i
    then longer
    else other

-- What a process reads of the message that it gets.
pub record Message : Type 0 where
  pub type : ℕ
  pub tx : ℕ
  pub text : ℕ → ℕ

-- What a round asks of the kernel, besides the message: to release its block, to send it on to the
-- display with the text, or to send a requested block with the text to a process.
pub data Call : Type 0 where
  released : Call
  shown : (ℕ → ℕ) → Call
  sent : ℕ → (ℕ → ℕ) → Call

-- A requested block is cleared, so this is "\f".
abbrev pub clear_screen : ℕ → ℕ
clear_screen = update (λ i. nul) 0 0x0C

abbrev pub is_clr : (ℕ → ℕ) → Bool
is_clr text = text 1 == 0x63 && text 2 == 0x6C && text 3 == 0x72

-- The command goes to the process that has registered it.
unfoldable pub send_command : ℕ → (ℕ → ℕ) → Option RegCmd → Option (List Call)
send_command fuel buffer none = some []
send_command fuel buffer (some current) = do
  text ← str_copy fuel buffer (λ i. nul)
  some (sent current.pid text ∷ [])

-- The end of a line.
unfoldable pub enter : ℕ → Kcd → Option (List Call × Kcd)
enter fuel k =
    if k.buffer 0 == percent
    then (do
      current ← find_command fuel 1 k.buffer k.cmds
      calls ← send_command fuel k.buffer current
      some (calls, record k { buffer = reset_kcd_buffer k.buffer; kbuf_size = 0 }))
    else some ([], k)

-- A character that neither starts nor ends a line.
unfoldable pub collect : ℕ → Kcd → Kcd
collect input_char k =
    if leb kcd_buffer_size k.kbuf_size
    then k
    else if k.buffer 0 == percent
    then record k { buffer = update k.buffer k.kbuf_size input_char; kbuf_size = k.kbuf_size + 1 }
    else k

-- What a typed character does to the buffer.
unfoldable pub key : ℕ → ℕ → Kcd → Option (List Call × Kcd)
key fuel input_char k =
    if input_char == percent
    then some
        ([], record k { buffer = update (reset_kcd_buffer k.buffer) 0 input_char; kbuf_size = 1 })
    else if input_char == return
    then enter fuel k
    else some ([], collect input_char k)

abbrev pub type_register_cmd : ℕ
type_register_cmd = 3

-- A round of the loop of kcd.
unfoldable pub kcd_round : ℕ → Message → Kcd → Option (List Call × Kcd)
kcd_round fuel m k =
    if m.type == type_register_cmd
    then (do k1 ← register_command fuel m.text m.tx k; some (released ∷ [], k1))
    else if is_clr m.text
    then some (released ∷ sent crt_pid clear_screen ∷ [], k)
    else (do
      r ← key fuel (m.text 0) k
      let text = if m.text 0 == return then update m.text 1 0x0A else m.text
      some (shown text ∷ r.0, r.1))

-- The rounds for a sequence of messages.
unfoldable pub kcd_rounds : ℕ → List Message → Kcd → Option (List Call × Kcd)
kcd_rounds fuel [] k = some ([], k)
kcd_rounds fuel (m ∷ ms) k = do
  r ← kcd_round fuel m k
  r' ← kcd_rounds fuel ms r.1
  some (r.0 ++ r'.0, r'.1)
