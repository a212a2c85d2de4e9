-- ===== src/Tests.antt =====
-- The theorems at concrete inputs.
pub mod Rbac
pub mod Guards
pub mod Users
pub mod Auth
pub mod Lists
pub mod Tables
pub mod Accounts
pub mod Factors
pub mod Queries
pub mod Caches
pub mod Entry
pub mod Selection
