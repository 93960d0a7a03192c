-- ===== src/Messaging.antt =====
-- rust_qsim/src/simulation/messaging/: what the partitions send each other at the end of a tick.
pub mod Messages
pub mod Broker
pub mod Outbox
pub mod Filling
pub mod Cache
pub mod Receiving
pub mod Exchange
pub mod Tests
