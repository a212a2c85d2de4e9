-- ===== src/Rbac.antt =====
-- Role-based access control, libs/auth/src/lib/rbac: the permission trie, the entry that is cached
-- for a role, and the service with its cache.
pub mod Trie
pub mod Entry
pub mod Service
