-- ===== src/Roles.antt =====
-- internal/roles: roles and sigs. Go's `sig` flag tells them apart.
pub mod Helpers
pub mod Listing
pub mod Changes
pub mod Update
pub mod Filters
pub mod Keeps
pub mod AddsNothing
pub mod Destruction
pub mod Creation
