-- ===== src/Events.antt =====
-- crates/shared-kernel/src/events: integration events between modules. The children follow its
-- files: `Inbox` is inbox.rs, `Outbox` the table that publisher.rs fills, and `Dispatcher` is
-- dispatcher.rs; the other children prove. This file is mod.rs: who subscribes to what, and which
-- database each module has.
pub mod Inbox
pub mod Outbox
pub mod Dispatcher
pub mod Delivery
pub mod Rows
pub mod Retry
pub mod DeadLetters
pub mod Lifecycle
pub mod Applied
pub mod Final
pub mod Settling
pub mod Outcomes
mod Tests
