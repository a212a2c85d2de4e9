-- ===== src/Rbac/Entry/Effective.antt =====
-- The widest scope of a user's roles and the scope checks.
use ewu_taks.Base.{
  List, [], ◌∷◌, Option, none, some, Bool, true, false, ◌||◌, leb, ◌≡◌, refl, ◌∙◌, sym, ap, arith,
  any, Text, if◌then◌else◌,
}
use ewu_taks.Rbac.Trie.{has}
use ewu_taks.Rbac.Entry.{
  PermissionScope, RoleCacheEntry, scope_level, widest, wider, effective_from, effective_scope,
  check_permission_with_entry, check_for_entries, granted_scopes, permission_key,
}

or_assoc : (a b c : Bool) → ((a || b) || c) ≡ (a || (b || c))
or_assoc a b c = ground arith

-- The scope, if there is one, is at least as wide as the required one.
abbrev pub suffices : Option PermissionScope → PermissionScope → Bool
suffices none required = false
suffices (some scope) required = leb (scope_level required) (scope_level scope)

abbrev covers : PermissionScope → PermissionScope → Bool
covers required granted = leb (scope_level required) (scope_level granted)

suffices-wider :
    (highest : Option PermissionScope) (scope required : PermissionScope)
    → suffices (wider highest scope) required ≡ (suffices highest required || covers required scope)
suffices-wider none scope required = refl
suffices-wider (some highest) scope required = ground arith

suffices-widest :
    (highest : Option PermissionScope) (scopes : List PermissionScope) (required : PermissionScope)
    → suffices (widest highest scopes) required
      ≡ (suffices highest required || any (covers required) scopes)
unfolding widest
suffices-widest highest [] required = ground arith
suffices-widest highest (scope ∷ scopes) required = ground (
  arith,
  suffices-widest (wider highest scope) scopes required,
  suffices-wider highest scope required,
)

-- One entry: its scopes count if its trie has the permission.
suffices_step :
    (highest : Option PermissionScope) (held : Bool) (scopes : List PermissionScope)
    (required : PermissionScope)
    → suffices (if held then widest highest scopes else highest) required
      ≡ (suffices highest required || (if held then any (covers required) scopes else false))
suffices_step highest true scopes required = suffices-widest highest scopes required
suffices_step highest false scopes required = ground arith

suffices-effective_from :
    (highest : Option PermissionScope) (entries : List RoleCacheEntry) (m a : Text)
    (required : PermissionScope)
    → suffices (effective_from highest entries (permission_key m a)) required
      ≡ (suffices highest required || check_for_entries entries m a required)
unfolding effective_from check_for_entries
suffices-effective_from highest [] m a required = ground arith
suffices-effective_from highest (entry ∷ entries) m a required =
    let key = permission_key m a in
    let held = has entry.trie key in
    suffices-effective_from (if held then widest highest (granted_scopes entry key) else highest)
      entries m a required
    ∙ ap (λ (b : Bool). b || check_for_entries entries m a required)
        (suffices_step highest held (granted_scopes entry key) required)
    ∙ or_assoc (suffices highest required) (check_permission_with_entry entry m a required) _

-- A scope check over several roles passes exactly if the effective scope of those roles is at
-- least as wide as the required scope.
pub check_for_entries-effective_scope :
    (entries : List RoleCacheEntry) (m a : Text) (required : PermissionScope)
    → check_for_entries entries m a required ≡ suffices (effective_scope entries m a) required
unfolding effective_scope
check_for_entries-effective_scope entries m a required =
    sym (suffices-effective_from none entries m a required)
