-- ===== src/Guards/Permissions.antt =====
-- permissions.guard.ts, trash-bulk-action.guard.ts and rbac/parse-permission.util.ts.
pub mod Decision
use ewu_taks.Base.{
  ℕ, List, [], ◌∷◌, ◌++◌, Option, none, some, Bool, true, false, ◌||◌, ◌&&◌, not, Text, text_beq,
  any, map, is_empty, if◌then◌else◌, split,
}
use ewu_taks.Rbac.Trie.{has, colon}
use ewu_taks.Rbac.Entry.{RoleCacheEntry, permission_key}
use ewu_taks.Rbac.Service.{RbacService, Rows, entries_for, has_permission}
use ewu_taks.Guards.{Verdict, allowed, forbidden, unauthorized, crashed, UserContext, UserRole}

pub record ParsedPermission : Type 0 where
  pub module_name : Text
  pub action : Text
  pub scope : Option Text

abbrev third : List Text → Option Text
third [] = none
third (s ∷ rest) = some s

-- The parts of `perm.split(':')`; `none` is the error that is thrown.
abbrev pub parse_parts : List Text → Option ParsedPermission
parse_parts [] = none
parse_parts (m ∷ []) = none
parse_parts (m ∷ a ∷ rest) =
    if is_empty m || is_empty a
    then none
    else some (record { module_name = m; action = a; scope = third rest })

unfoldable pub parse_permission : Text → Option ParsedPermission
parse_permission perm = parse_parts (split colon perm)

-- The loop over the required permissions, with the entries of the user's roles.
unfoldable pub check_required : List RoleCacheEntry → List Text → Verdict
check_required entries [] = forbidden
check_required entries (perm ∷ perms) =
    let rest = check_required entries perms in
    elim (parse_permission perm) [
      | none ↦ crashed
      | some p ↦
          if any (λ entry. has entry.trie (permission_key p.module_name p.action)) entries
          then allowed
          else rest
    ]

abbrev pub role_ids : List UserRole → List ℕ
role_ids = map (λ r. r.id)

-- `PermissionsGuard`, on a route that is public or not, with its required permissions.
unfoldable pub permissions_guard :
    Rows → RbacService → ℕ → Bool → List Text → Option UserContext → RbacService × Verdict
permissions_guard find_many s now true required user = (s, allowed)
permissions_guard find_many s now false [] user = (s, allowed)
permissions_guard find_many s now false (perm ∷ perms) none = (s, unauthorized)
permissions_guard find_many s now false (perm ∷ perms) (some user) =
    if is_empty user.roles
    then (s, forbidden)
    else let (s', entries) = entries_for find_many s now (role_ids user.roles) in
      (s', check_required entries (perm ∷ perms))

-- The actions of `request.body` that the trash guard knows.
pub data TrashBulkAction : Type 0 where
  restore hard_delete : TrashBulkAction

abbrev pub trash_permission : TrashBulkAction → Text
trash_permission restore =
    b't' ∷ b'r' ∷ b'a' ∷ b's' ∷ b'h' ∷ colon ∷ b'r' ∷ b'e' ∷ b's' ∷ b't' ∷ b'o' ∷ b'r' ∷ b'e' ∷ []
trash_permission hard_delete =
    b't' ∷ b'r' ∷ b'a' ∷ b's' ∷ b'h' ∷ colon ∷ b'h' ∷ b'a' ∷ b'r' ∷ b'd' ∷ b'_' ∷ b'd' ∷ b'e' ∷ b'l'
    ∷ b'e' ∷ b't' ∷ b'e' ∷ []

-- The answers of `hasPermission` for the roles, one after the other.
unfoldable pub has_permission_any : Rows → RbacService → ℕ → List ℕ → Text → RbacService × Bool
has_permission_any find_many s now [] required = (s, false)
has_permission_any find_many s now (role_id ∷ rest) required =
    let (s', here) = has_permission find_many s now role_id required in
    let (s'', there) = has_permission_any find_many s' now rest required in (s'', here || there)

-- `TrashBulkActionGuard`; `none` is an action that is missing or unknown.
unfoldable pub trash_bulk_action_guard :
    Rows → RbacService → ℕ → Option TrashBulkAction → UserContext → RbacService × Verdict
trash_bulk_action_guard find_many s now none user = (s, allowed)
trash_bulk_action_guard find_many s now (some action) user =
    let (s', held) =
      has_permission_any find_many s now (role_ids user.roles) (trash_permission action) in
    (s', if held then allowed else forbidden)
