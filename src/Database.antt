-- ===== src/Database.antt =====
-- The PostgreSQL tables of sql/*.sql: rows, and what one statement can do to them under the
-- constraints that the schema declares.
mod Rows
mod Filters
mod Permissions
mod MemberRoles
mod RoleColumns
mod Auth
pub mod AllFilters
pub mod Invariant
pub use Rows.*
unfoldable pub use Filters.*
unfoldable pub use Permissions.*
unfoldable pub use MemberRoles.*
unfoldable pub use RoleColumns.*
unfoldable pub use Auth.*
