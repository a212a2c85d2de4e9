-- ===== src/Guards/Permissions/Decision.antt =====
-- The decision of the permission guards, in terms of the rows of the user's roles.
use ewu_taks.Base.{
  ℕ, List, [], ◌∷◌, none, some, Bool, true, false, Text, any, all, map, is_empty, if◌then◌else◌,
  ◌≡◌, refl, arith, is_some, Option-cases, inl, inr,
}
use ewu_taks.Rbac.Trie.{has}
use ewu_taks.Rbac.Entry.{permission_key, build_entry}
use ewu_taks.Rbac.Entry.Scopes.{granted, has-build_entry}
use ewu_taks.Rbac.Service.{RbacService, Rows, entries_for, has_permission, get_permissions_for_role}
use ewu_taks.Rbac.Service.Coherence.{
  IsCoherent, get_permissions_for_role-IsCoherent, entry-get_permissions_for_role,
}
use ewu_taks.Guards.{allowed, forbidden, UserContext, UserRole}
use ewu_taks.Guards.Permissions.{
  parse_permission, check_required, role_ids, permissions_guard, TrashBulkAction, trash_permission,
  has_permission_any, trash_bulk_action_guard,
}

module _ (find_many : Rows) where
  -- The entries of several roles on a coherent cache are those of the database.
  pub entries-entries_for :
      (s : RbacService) (now : ℕ) (ids : List ℕ)
      → IsCoherent find_many s
      → (entries_for find_many s now ids).1 ≡ map (λ id. build_entry (find_many id)) ids
  unfolding entries_for
  entries-entries_for s now [] c = refl
  entries-entries_for s now (id ∷ ids) c = cc (
    entry-get_permissions_for_role find_many s now id c,
    entries-entries_for (get_permissions_for_role find_many s now id).0 now ids
        (get_permissions_for_role-IsCoherent find_many s now id c),
  )

  pub entries_for-IsCoherent :
      (s : RbacService) (now : ℕ) (ids : List ℕ)
      → IsCoherent find_many s
      → IsCoherent find_many (entries_for find_many s now ids).0
  unfolding entries_for
  entries_for-IsCoherent s now [] c = c
  entries_for-IsCoherent s now (id ∷ ids) c =
      entries_for-IsCoherent (get_permissions_for_role find_many s now id).0 now ids
        (get_permissions_for_role-IsCoherent find_many s now id c)

  -- One of the roles has a row whose pattern grants the key.
  abbrev pub roles_grant : List UserRole → Text → Bool
  roles_grant roles key = any (λ r. granted (find_many r.id) key) roles

  any-has-roles :
      (roles : List UserRole) (key : Text)
      → any (λ entry. has entry.trie key) (map (λ id. build_entry (find_many id)) (role_ids roles))
        ≡ roles_grant roles key
  any-has-roles [] key = refl
  any-has-roles (r ∷ roles) key =
      ground (arith, has-build_entry (find_many r.id) key, any-has-roles roles key)

  -- The permission is well formed, and the roles grant its module and action.
  abbrev pub grants_required : List UserRole → Text → Bool
  grants_required roles perm = elim (parse_permission perm) [
    | none ↦ false
    | some p ↦ roles_grant roles (permission_key p.module_name p.action)
  ]

  check_required-roles :
      (roles : List UserRole) (perms : List Text)
      → all (λ perm. is_some (parse_permission perm)) perms ≡ true
      → check_required (map (λ id. build_entry (find_many id)) (role_ids roles)) perms
        ≡ (if any (grants_required roles) perms then allowed else forbidden)
  unfolding check_required
  check_required-roles roles [] h = refl
  check_required-roles roles (perm ∷ perms) h = elim (Option-cases (parse_permission perm)) [
    | inl bad ↦ absurd (ground arith)
    | inr (p, good) ↦ ground (
      arith,
      good,
      any-has-roles roles (permission_key p.module_name p.action),
      check_required-roles roles perms,
    )
  ]

  -- On a coherent cache and a route whose required permissions are well formed, the guard lets a
  -- user with roles pass exactly if one of the permissions is granted by a row of one of the
  -- roles, and throws `ForbiddenException` otherwise.
  pub permissions_guard-roles :
      (s : RbacService) (now : ℕ) (perm : Text) (perms : List Text) (user : UserContext)
      → IsCoherent find_many s
      → is_empty user.roles ≡ false
      → all (λ p. is_some (parse_permission p)) (perm ∷ perms) ≡ true
      → (permissions_guard find_many s now false (perm ∷ perms) (some user)).1
        ≡ (if any (grants_required user.roles) (perm ∷ perms) then allowed else forbidden)
  unfolding permissions_guard
  permissions_guard-roles s now perm perms user c nonempty good =
      rw (nonempty, entries-entries_for s now (role_ids user.roles) c)
        (check_required-roles user.roles (perm ∷ perms) good)

  -- The answers of `hasPermission` for several roles on a coherent cache.
  has_permission_any-roles :
      (s : RbacService) (now : ℕ) (roles : List UserRole) (key : Text)
      → IsCoherent find_many s
      → (has_permission_any find_many s now (role_ids roles) key).1 ≡ roles_grant roles key
  unfolding has_permission_any has_permission
  has_permission_any-roles s now [] key c = refl
  has_permission_any-roles s now (r ∷ roles) key c = ground (
    arith,
    entry-get_permissions_for_role find_many s now r.id c,
    has-build_entry (find_many r.id) key,
    has_permission_any-roles (get_permissions_for_role find_many s now r.id).0 now roles key
        (get_permissions_for_role-IsCoherent find_many s now r.id c),
  )

  -- On a coherent cache a bulk action on the trash passes exactly if a row of one of the user's
  -- roles grants the permission of that very action.
  pub trash_bulk_action_guard-roles :
      (s : RbacService) (now : ℕ) (action : TrashBulkAction) (user : UserContext)
      → IsCoherent find_many s
      → (trash_bulk_action_guard find_many s now (some action) user).1
        ≡ (if roles_grant user.roles (trash_permission action) then allowed else forbidden)
  unfolding trash_bulk_action_guard
  trash_bulk_action_guard-roles s now action user c =
      ground (arith, has_permission_any-roles s now user.roles (trash_permission action) c)
