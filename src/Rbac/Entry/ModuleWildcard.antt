-- ===== src/Rbac/Entry/ModuleWildcard.antt =====
-- A role whose only row is the wildcard of one module.
use ewu_taks.Base.{
  List, [], ◌∷◌, ◌++◌, true, false, ◌≡◌, ◌≢◌, refl, ◌∙◌, arith, Text, text_beq, text_beq_iff,
  split-append, split-Free, Free,
}
use ewu_taks.Rbac.Trie.{has, colon, star}
use ewu_taks.Rbac.Trie.Grants.{grants}
use ewu_taks.Rbac.Entry.{
  PermissionScope, RolePermission, build_entry, check_permission_with_entry, permission_key,
  any_key,
}
use ewu_taks.Rbac.Entry.Scopes.{has-build_entry, check_permission_with_entry-build_entry, granted}

text_beq-append : (s t u : Text) → text_beq (s ++ t) (s ++ u) ≡ text_beq t u
text_beq-append [] t u = refl
text_beq-append (c ∷ s) t u = ground (arith, text_beq-append s t u)

key_ne_any_key :
    (m a : Text) → Free colon m → m ≢ star → text_beq (permission_key m a) any_key ≡ false
key_ne_any_key [] a f ne = refl
key_ne_any_key (c ∷ []) a f ne = ground arith
key_ne_any_key (c ∷ d ∷ m) a f ne = ground arith

abbrev pub module_row : Text → PermissionScope → RolePermission
module_row m scope = record { module_name = m; action = star; scope = scope }

granted-module_row :
    (m a : Text) (scope : PermissionScope)
    → Free colon m
    → Free colon a
    → granted (module_row m scope ∷ []) (permission_key m a) ≡ true
unfolding grants
granted-module_row m a scope fm fa =
    rw (split-append colon m star fm, split-append colon m a fm, split-Free colon a fa)
      (ground (arith, text_beq_iff m m))

-- For names without a colon that are not `*`: a role with the one row `m:*` holds the permission
-- `m:a`, and fails every scope check on it, whatever the scope of the row.
pub module_wildcard :
    (m a : Text) (scope required : PermissionScope)
    → Free colon m
    → Free colon a
    → m ≢ star
    → a ≢ star
    → (has (build_entry (module_row m scope ∷ [])).trie (permission_key m a) ≡ true)
      × (check_permission_with_entry (build_entry (module_row m scope ∷ [])) m a required ≡ false)
module_wildcard m a scope required fm fa m_ne a_ne =
    let rows : List RolePermission = module_row m scope ∷ [] in
    (
      has-build_entry rows (permission_key m a) ∙ granted-module_row m a scope fm fa,
      ground (
        arith,
        check_permission_with_entry-build_entry rows m a required,
        text_beq-append m (colon ∷ star) (colon ∷ a),
        text_beq_iff star a,
        key_ne_any_key m star fm m_ne,
      ),
    )
