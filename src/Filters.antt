-- ===== src/Filters.antt =====
-- internal/filters: filters, who is in them, and the messages that a change of membership queues.
pub mod Queue
pub mod Members
pub mod Commands
pub mod Keeps
pub mod Messages
pub mod Gains
pub mod Losses
