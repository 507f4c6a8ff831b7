-- ===== src/Messaging.antt =====
-- messaging/messaging.c: the mailbox, the delayed mailbox and the handlers that work on them.
pub mod Words
pub mod Boxes
pub mod Handlers
pub mod Headers
pub mod Calls
pub mod Awake
pub mod Wakes
pub mod Scans
pub mod Delivers
pub mod Ticks
pub mod Exchanges
pub mod Tests
