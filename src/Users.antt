-- ===== src/Users.antt =====
-- The user domain of apps/api/src/app/domain/users.
pub mod Store
pub mod Status
pub mod Roles
