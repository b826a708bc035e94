-- ===== src/Storage.antt =====
-- internal/storage: the statements that the program runs.
pub mod Permissions
pub mod RoleFilters
pub mod Filters
pub mod Roles
pub mod RoleValues
pub mod Alliances
pub mod Corporations
pub mod Codes
pub mod Characters
pub mod Users
pub mod AuthKeeps
pub mod Keeps
pub mod Runs
pub mod RoleMembers
pub mod FilterLaws
pub mod UserLaws
