-- ===== src/Sets.antt =====
-- internal/sets: sets of roles.
pub mod ChremoasRole
pub mod Laws
