-- ===== src/Memory.antt =====
-- mm/mem.c: the 30 memory blocks, in a list of available ones and a list of used ones.
pub mod State
pub mod Queues
pub mod Init
pub mod Handlers
pub mod Pool
pub mod Removes
pub mod GiveBack
pub mod Calls
pub mod Tests
