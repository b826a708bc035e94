-- ===== src/Commands.antt =====
-- internal/commands: a chat message is split at its spaces and handed to a component.
pub mod Help
pub mod Perms
pub mod Filter
pub mod Role
pub mod Sig
pub mod Auth
pub mod Refusals
pub mod RoleRefusals
