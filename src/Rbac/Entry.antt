-- ===== src/Rbac/Entry.antt =====
-- The cached view of one role and the checks on it, from libs/auth/src/lib/rbac/rbac.service.ts,
-- with the ranks of libs/auth/src/lib/constants/index.ts.
pub mod Scopes
pub mod Effective
pub mod ModuleWildcard
use ewu_taks.Base.{
  ℕ, ◌+◌, List, [], ◌∷◌, ◌++◌, Option, none, some, Bool, true, false, ◌||◌, if◌then◌else◌, ltb, leb,
  Text, get, put, get_or, any, map, text_eq,
}
use ewu_taks.Rbac.Trie.{TrieNode, has, from_permissions, colon}

pub data PermissionScope : Type 0 where
  own assigned team all : PermissionScope

-- `RBAC_SCOPE_HIERARCHY.get(scope) ?? 0`; every scope has a rank.
unfoldable pub scope_level : PermissionScope → ℕ
scope_level all = 4
scope_level team = 3
scope_level assigned = 2
scope_level own = 1

abbrev pub scope_beq : PermissionScope → PermissionScope → Bool
scope_beq own own = true
scope_beq assigned assigned = true
scope_beq team team = true
scope_beq all all = true
scope_beq _ _ = false

-- A row of `rolePermission.findMany`.
pub record RolePermission : Type 0 where
  pub module_name : Text
  pub action : Text
  pub scope : PermissionScope

pub record RoleCacheEntry : Type 0 where
  pub trie : TrieNode
  pub scope_map : List (Text × List PermissionScope)

-- `${module}:${action}`
abbrev pub permission_key : Text → Text → Text
permission_key module_name action = module_name ++ (colon ∷ action)

abbrev pub row_key : RolePermission → Text
row_key rp = permission_key rp.module_name rp.action

-- `set.add(scope)`
abbrev pub set_add : List PermissionScope → PermissionScope → List PermissionScope
set_add scopes scope = if any (λ s. scope_beq s scope) scopes then scopes else scopes ++ scope ∷ []

-- The loop over the rows, with the map of scope sets so far.
unfoldable pub collect_scopes :
    List (Text × List PermissionScope) → List RolePermission → List (Text × List PermissionScope)
collect_scopes sets [] = sets
collect_scopes sets (rp ∷ rows) =
    collect_scopes (put sets (row_key rp) (set_add (get_or (get sets (row_key rp)) []) rp.scope))
      rows

-- What `getPermissionsForRole` builds from the rows on a cache miss.
unfoldable pub build_entry : List RolePermission → RoleCacheEntry
unfolding collect_scopes
build_entry rows = record {
  trie = from_permissions (map row_key rows);
  scope_map = collect_scopes [] rows;
}

abbrev pub any_key : Text
any_key = b'*' ∷ colon ∷ b'*' ∷ []

-- `entry.scopeMap.get(key) ?? entry.scopeMap.get('*:*') ?? []`
abbrev pub granted_scopes : RoleCacheEntry → Text → List PermissionScope
granted_scopes entry key =
    get_or (get entry.scope_map key) (get_or (get entry.scope_map any_key) [])

unfoldable pub check_permission_with_entry : RoleCacheEntry → Text → Text → PermissionScope → Bool
check_permission_with_entry entry module_name action required_scope =
    let key = permission_key module_name action in
    if has entry.trie key
    then any (λ granted. leb (scope_level required_scope) (scope_level granted))
        (granted_scopes entry key)
    else false

-- The widest scope so far. The source starts its level at -1: `none` here.
abbrev pub wider : Option PermissionScope → PermissionScope → Option PermissionScope
wider none scope = some scope
wider (some highest) scope =
    if ltb (scope_level highest) (scope_level scope) then some scope else some highest

unfoldable pub widest : Option PermissionScope → List PermissionScope → Option PermissionScope
widest highest [] = highest
widest highest (scope ∷ scopes) = widest (wider highest scope) scopes

unfoldable pub effective_from :
    Option PermissionScope → List RoleCacheEntry → Text → Option PermissionScope
unfolding widest
effective_from highest [] key = highest
effective_from highest (entry ∷ entries) key =
    effective_from
      (if has entry.trie key then widest highest (granted_scopes entry key) else highest) entries
      key

-- The two loops of `getEffectiveScope`, over the entries of the roles.
unfoldable pub effective_scope : List RoleCacheEntry → Text → Text → Option PermissionScope
unfolding effective_from
effective_scope entries module_name action =
    effective_from none entries (permission_key module_name action)

-- `checkPermissionWithScopeForRoles`, over the entries of the roles.
unfoldable pub check_for_entries : List RoleCacheEntry → Text → Text → PermissionScope → Bool
unfolding check_permission_with_entry
check_for_entries entries module_name action required_scope =
    any (λ entry. check_permission_with_entry entry module_name action required_scope) entries
