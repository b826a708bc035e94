-- ===== src/Common.antt =====
-- internal/common: what the commands and the pollers share.
pub mod Embed
pub mod EmbedLimits
pub mod Messages
pub mod Mention
pub mod Mentions
pub mod Session
pub mod Chunks
pub mod StringSets
pub mod Membership
pub mod CheckAndDelete
pub mod Keeps
pub mod Runs
