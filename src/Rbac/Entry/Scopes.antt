-- ===== src/Rbac/Entry/Scopes.antt =====
-- What a cached entry answers, in terms of the rows it was built from.
use ewu_taks.Base.{
  List, [], ◌∷◌, Bool, true, ◌||◌, ◌&&◌, leb, ◌≡◌, refl, ◌∙◌, ap, arith, any, map, Text, text_beq,
  text_beq_iff, text_eq, if◌then◌else◌, get, put, get_or, get-put, any-append, split, is_some,
}
use ewu_taks.Rbac.Trie.{has, colon}
use ewu_taks.Rbac.Trie.Grants.{grants, has-from_permissions}
use ewu_taks.Rbac.Entry.{
  PermissionScope, RolePermission, scope_level, scope_beq, set_add, row_key, collect_scopes,
  build_entry, check_permission_with_entry, granted_scopes, permission_key, any_key,
}

abbrev listed : List PermissionScope → PermissionScope → Bool
listed scopes scope = any (λ s. scope_beq s scope) scopes

scope_beq_lem :
    (p : PermissionScope → Bool) (s t : PermissionScope)
    → scope_beq s t ≡ true
    → p t ≡ true
    → p s ≡ true
scope_beq_lem p s t h k = ground arith

any-listed :
    (p : PermissionScope → Bool) (scopes : List PermissionScope) (scope : PermissionScope)
    → listed scopes scope ≡ true
    → p scope ≡ true
    → any p scopes ≡ true
any-listed p [] scope h k = cc
any-listed p (s ∷ scopes) scope h k =
    ground (arith, any-listed p scopes scope, scope_beq_lem p s scope)

-- A test on a set of scopes sees one more scope, whether or not it was there already.
any-set_add :
    (p : PermissionScope → Bool) (scopes : List PermissionScope) (scope : PermissionScope)
    → any p (set_add scopes scope) ≡ (any p scopes || p scope)
any-set_add p scopes scope =
    ground (arith, any-append p scopes (scope ∷ []), any-listed p scopes scope)

-- The rows with the key.
abbrev pub any_row : (PermissionScope → Bool) → Text → List RolePermission → Bool
any_row p key rows = any (λ rp. text_beq (row_key rp) key && p rp.scope) rows

any-collect_scopes :
    (p : PermissionScope → Bool) (key : Text) (sets : List (Text × List PermissionScope))
    (rows : List RolePermission)
    → any p (get_or (get (collect_scopes sets rows) key) [])
      ≡ (any p (get_or (get sets key) []) || any_row p key rows)
unfolding collect_scopes
any-collect_scopes p key sets [] = ground arith
any-collect_scopes p key sets (rp ∷ rows) =
    let scopes = get_or (get sets (row_key rp)) [] in
    ground (
      arith,
      any-collect_scopes p key (put sets (row_key rp) (set_add scopes rp.scope)) rows,
      get-put sets (row_key rp) key (set_add scopes rp.scope),
      any-set_add p scopes rp.scope,
      text_beq_iff (row_key rp) key,
    )

is_some-collect_scopes :
    (key : Text) (sets : List (Text × List PermissionScope)) (rows : List RolePermission)
    → is_some (get (collect_scopes sets rows) key)
      ≡ (is_some (get sets key) || any (λ rp. text_beq (row_key rp) key) rows)
unfolding collect_scopes
is_some-collect_scopes key sets [] = ground arith
is_some-collect_scopes key sets (rp ∷ rows) =
    let scopes = get_or (get sets (row_key rp)) [] in
    ground (
      arith,
      is_some-collect_scopes key (put sets (row_key rp) (set_add scopes rp.scope)) rows,
      get-put sets (row_key rp) key (set_add scopes rp.scope),
    )

abbrev pub granted : List RolePermission → Text → Bool
granted rows key = any (λ rp. grants (split colon (row_key rp)) (split colon key)) rows

-- The scopes of the key's own rows count; only if there are none, those of the rows `*:*`.
abbrev pub scoped : List RolePermission → Text → PermissionScope → Bool
scoped rows key required =
    let wide_enough = λ (s : PermissionScope). leb (scope_level required) (scope_level s) in
    if any (λ rp. text_beq (row_key rp) key) rows
    then any_row wide_enough key rows
    else any_row wide_enough any_key rows

any-granted_scopes :
    (p : PermissionScope → Bool) (rows : List RolePermission) (key : Text)
    → any p (granted_scopes (build_entry rows) key) ≡ (
        if any (λ rp. text_beq (row_key rp) key) rows
        then any_row p key rows
        else any_row p any_key rows)
unfolding build_entry
any-granted_scopes p rows key = ground (
  arith,
  any-collect_scopes p key [] rows,
  any-collect_scopes p any_key [] rows,
  is_some-collect_scopes key [] rows,
)

any-map-row_key :
    (p : Text → Bool) (rows : List RolePermission)
    → any p (map row_key rows) ≡ any (λ rp. p (row_key rp)) rows
any-map-row_key p [] = refl
any-map-row_key p (rp ∷ rows) = ap (◌||◌ (p (row_key rp))) (any-map-row_key p rows)

-- The trie of a role grants a key exactly if the pattern of one of the role's rows does.
pub has-build_entry :
    (rows : List RolePermission) (key : Text) → has (build_entry rows).trie key ≡ granted rows key
unfolding build_entry
has-build_entry rows key = has-from_permissions (map row_key rows) key ∙ any-map-row_key _ rows

-- A scope check on the entry that is built from a role's rows passes exactly if the pattern of
-- one of the rows grants the permission, and a row with the very key of the permission, or if
-- there is none a row `*:*`, has at least the required scope.
pub check_permission_with_entry-build_entry :
    (rows : List RolePermission) (m a : Text) (required : PermissionScope)
    → check_permission_with_entry (build_entry rows) m a required
      ≡ (granted rows (permission_key m a) && scoped rows (permission_key m a) required)
unfolding check_permission_with_entry
check_permission_with_entry-build_entry rows m a required =
    let key = permission_key m a in
    ground (
      arith,
      has-build_entry rows key,
      any-granted_scopes (λ s. leb (scope_level required) (scope_level s)) rows key,
    )
