-- ===== src/Core.antt =====
-- core/core.c: the process queues, the scheduler and the calls that move processes between queues.
pub mod Present
pub mod State
pub mod Queues
pub mod Interrupts
pub mod Lookup
pub mod Switch
pub mod Blocking
pub mod Priority
pub mod Invariant
pub mod Tests
