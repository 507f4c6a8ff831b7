-- ===== src/Uart.antt =====
-- uart_handler of io/uart.c, without hot keys: a character that has come in goes to kcd as a message in a
-- new block. The last call of atomic_down, which follows in the process that was interrupted, is not
-- part of it.
pub mod Receives
mod Tests
use ece_354_real_time_operat.Pids.{kcd_pid, uart_pid}
use ece_354_real_time_operat.Base.{ℕ, ◌+◌, Option, some, not, if◌then◌else◌, update, ◌>>=◌}
use ece_354_real_time_operat.Core.Interrupts.{atomic_up}
use ece_354_real_time_operat.Memory.State.{Memory}
use ece_354_real_time_operat.Memory.Queues.{are_blocks_available}
use ece_354_real_time_operat.Memory.Handlers.{Request, granted, waiting, request_memory_block}
use ece_354_real_time_operat.Messaging.Words.{tx, rx, set_field}
use ece_354_real_time_operat.Messaging.Handlers.{send_message}
use ece_354_real_time_operat.System.{System}

-- Where the text of an envelope begins.
abbrev pub text_place : ℕ
text_place = 64

-- What the handler writes into the block.
abbrev pub with_char : ℕ → ℕ → Memory → Memory
with_char char_in envelope m =
    let m1 = set_field envelope rx kcd_pid (set_field envelope tx uart_pid m) in
    record m1 { bytes = update m1.bytes (envelope + text_place) char_in }

-- The answer of send_message is not looked at.
unfoldable pub send_char : ℕ → Request → System → Option System
send_char char_in (granted envelope) s = do
  r ← send_message kcd_pid envelope (record s { memory = with_char char_in envelope s.memory })
  some r.1
send_char char_in waiting s = some s

unfoldable pub uart_handler : ℕ → System → Option System
uart_handler char_in s =
    let s1 = record s { kernel = atomic_up s.kernel } in
    if not (are_blocks_available s.memory)
    then some s1
    else (do r ← request_memory_block s1; send_char char_in r.0 r.1)
