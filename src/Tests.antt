-- ===== src/Tests.antt =====
-- Concrete tables, servers and sets, and the theorems of the other modules at them.
pub mod Sets
pub mod Data
mod Examples
mod RoleExamples
mod ServiceExamples
mod PollerExamples
mod CommandExamples
