-- ===== src/System.antt =====
-- The whole state of the executive: the kernel of core/core.c, the memory blocks of mm/mem.c, the
-- mailboxes of messaging/messaging.c and the clock of timer/timer.c.
use ece_354_real_time_operat.Base.{ℕ}
use ece_354_real_time_operat.Core.State.{Kernel}
use ece_354_real_time_operat.Memory.State.{Memory}

-- A mailbox is an array of addresses of envelopes; 0 is an empty place.
pub record System : Type 0 where
  pub kernel : Kernel
  pub memory : Memory
  pub mailbox : ℕ → ℕ
  pub delayed_mailbox : ℕ → ℕ
  pub ticks : ℕ
