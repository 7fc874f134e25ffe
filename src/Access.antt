-- ===== src/Access.antt =====
-- Users as subjects of access control (users/domain/, permissions/permissions.guard.ts).
mod Record
unfoldable pub use Record.*
