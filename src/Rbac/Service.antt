-- ===== src/Rbac/Service.antt =====
-- `RbacService` of libs/auth/src/lib/rbac/rbac.service.ts: the cache of role entries and its
-- invalidation. The database is the argument `find_many`, which returns the rows of a role;
-- Redis enters through its replies. The key `String(roleId)` is the id itself, since two ids have
-- the same text only if they are equal; logging has no part in the state.
pub mod Coherence
pub mod Staleness
use ewu_taks.Base.{
  ℕ, zero, suc, ◌+◌, List, [], ◌∷◌, Option, none, some, Bool, true, false, not, if◌then◌else◌, any,
  leb, Text, ◌==◌, nat_eq,
}
use ewu_taks.Cache.Lru.{LruCache, create, lru_get, lru_set, lru_delete, clear}
use ewu_taks.Rbac.Trie.{has}
use ewu_taks.Rbac.Entry.{
  RoleCacheEntry, RolePermission, PermissionScope, build_entry, check_permission_with_entry,
  check_for_entries, effective_scope,
}

abbrev pub rbac_cache_ttl_ms : ℕ
rbac_cache_ttl_ms = 300000

abbrev pub rbac_cache_max_size : ℕ
rbac_cache_max_size = 100

abbrev pub rbac_publish_max_retries : ℕ
rbac_publish_max_retries = 1

pub record RbacService : Type 0 where
  pub cache : LruCache ℕ RoleCacheEntry
  pub last_known_version : ℕ

unfoldable pub init : RbacService
unfolding create
init = record { cache = create rbac_cache_max_size; last_known_version = 0 }

-- The rows of a role in the database.
abbrev pub Rows : Type 0
Rows = ℕ → List RolePermission

-- `getPermissionsForRole` up to the query: the cached entry, if one is alive.
unfoldable pub lookup_role : RbacService → ℕ → ℕ → RbacService × Option RoleCacheEntry
lookup_role s now role_id =
    let (cache, cached) = lru_get s.cache now role_id in (record s { cache = cache }, cached)

-- `getPermissionsForRole` from the answer of the query on: the entry is built and cached.
unfoldable pub store_role : RbacService → ℕ → ℕ → List RolePermission → RbacService × RoleCacheEntry
store_role s now role_id rows =
    let entry = build_entry rows in
    (record s { cache = lru_set s.cache now role_id entry rbac_cache_ttl_ms }, entry)

unfoldable pub get_permissions_for_role : Rows → RbacService → ℕ → ℕ → RbacService × RoleCacheEntry
unfolding lookup_role store_role
get_permissions_for_role find_many s now role_id =
    let (s', cached) = lookup_role s now role_id in
    elim cached [ some entry ↦ (s', entry) | none ↦ store_role s' now role_id (find_many role_id) ]

unfoldable pub has_permission : Rows → RbacService → ℕ → ℕ → Text → RbacService × Bool
has_permission find_many s now role_id required =
    let (s', entry) = get_permissions_for_role find_many s now role_id in
    (s', has entry.trie required)

-- The entries of several roles, read one after the other.
unfoldable pub entries_for : Rows → RbacService → ℕ → List ℕ → RbacService × List RoleCacheEntry
entries_for find_many s now [] = (s, [])
entries_for find_many s now (role_id ∷ role_ids) =
    let (s', entry) = get_permissions_for_role find_many s now role_id in
    let (s'', entries) = entries_for find_many s' now role_ids in (s'', entry ∷ entries)

unfoldable pub check_permission_with_scope :
    Rows → RbacService → ℕ → ℕ → Text → Text → PermissionScope → RbacService × Bool
check_permission_with_scope find_many s now role_id module_name action required =
    let (s', entry) = get_permissions_for_role find_many s now role_id in
    (s', check_permission_with_entry entry module_name action required)

unfoldable pub check_permission_with_scope_for_roles :
    Rows → RbacService → ℕ → List ℕ → Text → Text → PermissionScope → RbacService × Bool
check_permission_with_scope_for_roles find_many s now role_ids module_name action required =
    let (s', entries) = entries_for find_many s now role_ids in
    (s', check_for_entries entries module_name action required)

unfoldable pub get_effective_scope :
    Rows → RbacService → ℕ → List ℕ → Text → Text → RbacService × Option PermissionScope
get_effective_scope find_many s now role_ids module_name action =
    let (s', entries) = entries_for find_many s now role_ids in
    (s', effective_scope entries module_name action)

-- What a call of Redis returns: there may be no client, and a call may be refused.
pub data Reply (A : Type 0) : Type 0 where
  no_client refused : Reply A
  answer : A → Reply A

-- `incrementVersion`, by the reply to `redis.incr`.
unfoldable pub increment_version : RbacService → Reply ℕ → RbacService
increment_version s no_client = s
increment_version s refused = s
increment_version s (answer version) = record s { last_known_version = version }

pub data Message : Type 0 where
  all_roles : Message
  one_role : Option ℕ → Message

-- `publish`: how often the message is sent, where `delivered i` tells whether the try with the
-- number `i` is taken. A refused try is repeated while the retries last.
unfoldable pub publish_tries : ℕ → ℕ → (ℕ → Bool) → ℕ
publish_tries zero attempt delivered = 1
publish_tries (suc retries) attempt delivered =
    let rest = publish_tries retries (attempt + 1) delivered in
    if delivered attempt then 1 else 1 + rest

-- `none` is a missing client.
unfoldable pub publish : Option (ℕ → Bool) → ℕ
unfolding publish_tries
publish none = 0
publish (some delivered) = publish_tries rbac_publish_max_retries 0 delivered

unfoldable pub invalidate_role : RbacService → ℕ → Reply ℕ → RbacService
unfolding increment_version
invalidate_role s role_id reply =
    increment_version (record s { cache = lru_delete s.cache role_id }) reply

unfoldable pub invalidate_all : RbacService → Reply ℕ → RbacService
unfolding increment_version
invalidate_all s reply = increment_version (record s { cache = clear s.cache }) reply

-- `sweep`, by the reply to `redis.get`: no client, a call that throws, no value or no number
-- leave the state alone.
unfoldable pub sweep : RbacService → Reply (Option ℕ) → RbacService
sweep s no_client = s
sweep s refused = s
sweep s (answer none) = s
sweep s (answer (some version)) =
    if not (version == s.last_known_version)
    then record s { cache = clear s.cache; last_known_version = version }
    else s

-- `handleInvalidationMessage`, over the parsed message; `none` is a malformed one.
unfoldable pub handle_invalidation_message : RbacService → Option Message → RbacService
handle_invalidation_message s none = s
handle_invalidation_message s (some all_roles) = record s { cache = clear s.cache }
handle_invalidation_message s (some (one_role none)) = s
handle_invalidation_message s (some (one_role (some role_id))) = record s {
  cache = lru_delete s.cache role_id;
}
