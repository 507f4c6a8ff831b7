-- ===== src/Debug.antt =====
-- shared/dbug.c, and the listings of core/core.c, mm/mem.c, messaging/messaging.c and io/kcd.c: what
-- reaches the terminal of the board. Trap 15 of its monitor takes one character at a time.
pub mod Numbers
pub mod Listings
pub mod Queues
pub mod Blocks
pub mod Mailboxes
mod Tests
use ece_354_real_time_operat.Base.{
  ℕ, zero, suc, ◌+◌, ◌/◌, ◌%◌, Option, none, some, List, [], ◌∷◌, ◌++◌, ◌==◌, if◌then◌else◌, ◌>>=◌,
}

-- rtx_dbug_outs from the place `i` of a text on.
unfoldable pub outs_from : ℕ → ℕ → (ℕ → ℕ) → Option (List ℕ)
outs_from zero i s = none
outs_from (suc fuel) i s =
    let rest = (do cs ← outs_from fuel (i + 1) s; some (s i ∷ cs)) in
    if s i == 0 then some [] else rest

-- The first loop of print_int: the digits go onto the stack, which holds `stack`.
unfoldable pub push_digits : ℕ → ℕ → List ℕ → Option (List ℕ)
push_digits zero value stack = none
push_digits (suc fuel) value stack =
    let pushed = (0x30 + value % 10) ∷ stack in
    let rest = push_digits fuel (value / 10) pushed in if value / 10 == 0 then some pushed else rest

-- The second loop: characters leave the stack for the terminal up to and with a NUL.
unfoldable pub pop_digits : List ℕ → List ℕ
pop_digits [] = []
pop_digits (cur_char ∷ stack) =
    let rest = pop_digits stack in if cur_char == 0 then cur_char ∷ [] else cur_char ∷ rest

-- A UINT32 has ten digits at most.
abbrev pub print_fuel : ℕ
print_fuel = 10

unfoldable pub print_int : ℕ → Option (List ℕ)
print_int value = do stack ← push_digits print_fuel value (0 ∷ []); some (pop_digits stack)
