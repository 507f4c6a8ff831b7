-- ===== src/Core/Interrupts.antt =====
-- atomic, atomic_up and atomic_down of core/core.c. The handlers call them, and the traps 1 and 2
-- lead to them. The counter is modelled without an upper bound; the mask is what the last
-- `MOVE.W ..., %sr` of `atomic` wrote, without what a return from an exception restores.
pub mod Nesting
use ece_354_real_time_operat.Base.{ℕ, ◌+◌, ◌-◌, true, false, ◌==◌, if◌then◌else◌}
use ece_354_real_time_operat.Core.State.{Atomic, Kernel, minus_one}

-- What `atomic` does once the counter is `n`: 0 lets interrupts in, 1 shuts them out.
unfoldable pub set_mask : ℕ → Atomic → Atomic
set_mask n s =
    if n == 0
    then record { status = n; masked = false }
    else if n == 1
    then record { status = n; masked = true }
    else record s { status = n }

-- `atomic(n)`. The counter never goes below 0: `-` stops there, as the safety check of the code does.
unfoldable pub atomic : ℕ → Atomic → Atomic
atomic n s =
    let m = if n == 0 then minus_one else n in
    if m == 1
    then set_mask (s.status + 1) s
    else if m == minus_one
    then set_mask (s.status - 1) s
    else s

unfoldable pub atomic_up : Kernel → Kernel
atomic_up k = record k { atomic = atomic 1 k.atomic }

unfoldable pub atomic_down : Kernel → Kernel
atomic_down k = record k { atomic = atomic 0 k.atomic }
