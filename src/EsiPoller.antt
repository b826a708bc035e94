-- ===== src/EsiPoller.antt =====
-- internal/esi-poller: the tables, Discord and the game are brought into line.
pub mod Roles
pub mod Alliances
pub mod Corporations
pub mod Characters
pub mod Poll
pub mod Membership
pub mod Failures
pub mod Messages
