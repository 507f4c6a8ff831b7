-- ===== src/Lib.antt =====
-- A verification library of the real-time executive in submit/: its kernel (submit/core/core.c),
-- its memory blocks (submit/mm/mem.c), its messages (submit/messaging/messaging.c,
-- submit/timer/timer.c), its start-up (submit/core/initialize.c), the processes for the keyboard, the
-- display, the priorities and the wall clock (submit/io/kcd.c, submit/io/crt.c, submit/io/uart.c,
-- submit/core/priority_switch.c, submit/wallclock/wallclock.c), the local queue of
-- submit/stress/stress.c, and the string helpers (submit/shared/rtx_util.c). The other files name
-- these without submit/.
--
-- Parts and files. A function of the C code is a function of the same name.
--   * Base: numbers, Booleans, options and stores as functions that `update` writes to.
--     `Base.Outcome` has `Returns P m`: the code `m` returns, and `P` holds of its result.
--   * Chain: singly linked lists, `next` fields and a head, with NULL as 0. `Chain next p xs`
--     says which objects the list from `p` runs through. The walks of the C code along a list
--     are `last`, `before`, `find` (Chain.Find) and `seek` (Chain.Seek).
--   * Core (submit/core/core.c, submit/core/core.h): `Kernel` is the PCBs, each field a store of
--     its own, the heads of the three arrays of queues, the running process, the registers of
--     the processor and the counter of atomic_up and atomic_down. Core.Queues has the queue
--     operations, Core.Lookup the searches, Core.Switch the scheduler, Core.Blocking and
--     Core.Priority the calls that move processes. Core.Invariant says what holds between two
--     calls: `Holds l a` relates the linked queues to lists `a`, `IsPlaced` says that a
--     process in a queue stands in that of its state at its priority, and `IsTop` that no ready
--     process has a higher priority than the running one. Core.Present says which processes run
--     or stand in a queue, and `Keeps` that none is lost; `ended_processes` lists those that
--     have ended on the way to a state.
--   * Memory (submit/mm/mem.c): `Memory` is the 30 blocks, the available and the used list and
--     their bytes. `IsPool m xs ys` relates the two lists to the lists `xs` and `ys`.
--   * Messaging (submit/messaging/messaging.c, submit/timer/timer.c): the two mailboxes are
--     arrays (Messaging.Boxes), and an envelope is four big-endian words in the bytes of its block
--     (Messaging.Words). Messaging.Handlers has the handlers and the tick. `Compact box i xs` says
--     that the array holds the messages `xs` from the place `i` on and is empty behind them.
--     Messaging.Calls is about the handlers, Messaging.Scans and Messaging.Ticks about the
--     delivery of delayed messages.
--   * WallClock (submit/wallclock/wallclock.c): `Clock` is the variables of the clock, and
--     `round` one round of its loop, with the message that it receives and the time of the timer
--     as arguments. WallClock.Calls has the whole process with the calls that it makes, and the
--     messages and blocks that it gets as lists; WallClock.Balance is about the blocks.
--   * Strings (submit/shared/rtx_util.c): str_copy and ascii_to_int, whose loops have fuel: as
--     much as the longest text needs, which the caller chooses.
--   * Startup (submit/core/initialize.c, and malloc and main of submit/core/core.c): `main` makes the
--     first state from what the memory held. Startup.Loads is about the loop that makes the PCBs,
--     Startup.Boots about the whole, which gives what the other parts' theorems ask for, and
--     Startup.Reaches about the kernels that are reached from there (`Step`, `Reachable`).
--   * Keyboard (submit/io/kcd.c): `Kcd` is the buffer of kcd and the registered commands, and
--     `kcd_round` one round of its loop, with the message that it receives as an argument and the
--     calls that it makes of the kernel as a result. Keyboard.Commands is about the search for a
--     command, Keyboard.Buffers about the buffer, Keyboard.Rounds about a round, Keyboard.Lines
--     about a whole line.
--   * Display (submit/io/crt.c, and uart of submit/io/uart.c): the characters that reach the port.
--     Display.Echoes puts kcd in front of it.
--   * Uart (uart_handler of submit/io/uart.c): the interrupt that makes a message of a character, over
--     the whole state.
--   * PriorityCommand (submit/core/priority_switch.c): `switch_round` reads the two numbers of a
--     command %C and changes the kernel; `reply_round` adds the text of the reply.
--   * Stress (submit/stress/stress.c): Stress.Processes has the loops of the three processes, with the
--     messages and the blocks that they get as arguments and their calls of the executive as
--     results. The local queue of stress_c is linked items, which `IsLocal` relates to the list of
--     the messages in it. Stress.Rounds is about stress_c, Stress.Reports about stress_a.
--   * Console: KCD with the messages with which stress_a, the wall clock and the priority command
--     register, and a typed line that sets the clock.
--   * Pids (submit/shared/rtx_pids.h): the pids of the processes.
--   * Debug (submit/shared/dbug.c, and the listings of submit/core/core.c, submit/mm/mem.c,
--     submit/messaging/messaging.c and submit/io/kcd.c): what is written to the terminal. Debug
--     has the characters of texts and numbers, Debug.Listings the listings as items.
--   * System: the kernel, the memory, the mailboxes and the clock, which the handlers of
--     submit/mm/mem.c and submit/messaging/messaging.c work on together.
--   * Executive: the handlers and start-up together. `Ask` is what a process or the timer may ask of
--     the executive, `perform` the handler that it comes to, and `Reachable` the states after any
--     sequence of these. `IsSound` is what holds between two calls: `IsSafe` of Startup.Reaches for
--     the kernel, `IsPool` for the blocks, `Compact` for the mailboxes, and that every message
--     is a block in use which stands there once. `IsHeld` is what a process must see to when it
--     sends, fills or gives back a block: the executive does not check it.
--
-- A call of the kernel that blocks or switches is a function that returns the kernel in which the
-- next process runs: the trap that switches comes back into another process.
--
-- Bounds. A walk along a list is recursion on fuel, and `none` is a walk that does not end. The
-- fuel is 17 for PCBs: initialize_processes makes 15, and there is `main`. It is 31 for blocks,
-- which are numbered from 1 to 30. The loop over the delayed mailbox has 61 rounds of fuel: a round
-- moves on in the 30 places or takes a message out. A list of different objects is never as long
-- as its fuel. The loops over texts have fuel that the caller chooses. A pid or a priority is a
-- 32-bit word, and -1 is 2 ^ 32 - 1. C leaves open what the overflow of a SINT32 in ascii_to_int gives;
-- in the definitions it wraps around.
--
-- Not modelled: the assembly of the traps (which register goes onto the stack when, and the status
-- register that RTE restores), the overflow of the counter in atomic, the loader
-- and the tests. The board has no memory protection, so a read through NULL reads a cell, as any
-- other.
pub mod Base
pub mod Chain
pub mod Console
pub mod Core
pub mod Debug
pub mod Display
pub mod Executive
pub mod Keyboard
pub mod Memory
pub mod Messaging
pub mod Pids
pub mod PriorityCommand
pub mod Startup
pub mod Stress
pub mod Strings
pub mod System
pub mod Uart
pub mod WallClock
