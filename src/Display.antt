-- ===== src/Display.antt =====
-- io/crt.c, which sends a text to the serial port one character at a time, and uart of io/uart.c, which
-- writes the characters to the port.
pub mod Outputs
pub mod Echoes
mod Tests
use ece_354_real_time_operat.Base.{
  ℕ, zero, suc, ◌+◌, Option, none, some, List, [], ◌∷◌, ◌==◌, if◌then◌else◌, update, ◌>>=◌,
}

-- A message to the process uart: a requested block is cleared, and holds the character then.
abbrev pub uart_msg : ℕ → ℕ → ℕ
uart_msg c = update (λ i. 0) 0 c

-- The loop of crt over the text of a message: the messages that it sends, in order.
unfoldable pub crt_from : ℕ → ℕ → (ℕ → ℕ) → Option (List (ℕ → ℕ))
crt_from zero i msg = none
crt_from (suc fuel) i msg =
    let rest = (do ms ← crt_from fuel (i + 1) msg; some (uart_msg (msg i) ∷ ms)) in
    if msg i == 0 then some [] else rest

-- The rounds of uart for these messages: what is written to the port.
unfoldable pub uart_rounds : List (ℕ → ℕ) → List ℕ
uart_rounds [] = []
uart_rounds (msg ∷ ms) = msg 0 ∷ uart_rounds ms

-- What the port gets for a message that crt receives.
unfoldable pub written_out : ℕ → (ℕ → ℕ) → Option (List ℕ)
written_out fuel msg = do ms ← crt_from fuel 0 msg; some (uart_rounds ms)
