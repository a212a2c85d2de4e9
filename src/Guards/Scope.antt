-- ===== src/Guards/Scope.antt =====
-- scope.guard.ts and scope-resolution.guard.ts.
use ewu_taks.Base.{
  ℕ, List, [], ◌∷◌, Option, none, some, Bool, true, false, ◌||◌, Text, text_beq, any, all, filter,
  map, is_empty, if◌then◌else◌, ◌≡◌, refl, arith, ltb, Option-cases, Bool-cases, inl, inr, is_some,
}
use ewu_taks.Rbac.Entry.{
  PermissionScope, all as all_scope, team, scope_level, scope_beq, RoleCacheEntry, effective_scope,
  check_for_entries,
}
use ewu_taks.Rbac.Entry.Effective.{suffices, check_for_entries-effective_scope}
use ewu_taks.Guards.{Verdict, allowed, forbidden, crashed, UserContext, IdParam, nan, number, is_id}
use ewu_taks.Guards.Permissions.{ParsedPermission, parse_permission}

-- The text of `PermissionScope.OWN`.
abbrev pub own_text : Text
own_text = b'O' ∷ b'W' ∷ b'N' ∷ []

abbrev pub is_own : ParsedPermission → Bool
is_own p = elim p.scope [ none ↦ false | some scope ↦ text_beq scope own_text ]

-- `requiredPermissions.map(parsePermission)`; `none` is the error that is thrown.
unfoldable pub parse_all : List Text → Option (List ParsedPermission)
parse_all [] = some []
parse_all (perm ∷ perms) = elim (parse_permission perm) [
  | none ↦ none
  | some p ↦ elim (parse_all perms) [ none ↦ none | some ps ↦ some (p ∷ ps) ]
]

-- `ScopeGuard`, with the entries of the actor's roles; the first argument tells whether the route
-- has the metadata.
unfoldable pub scope_guard :
    Bool → Option UserContext → IdParam → List Text → List RoleCacheEntry → Verdict
unfolding parse_all
scope_guard false user target required entries = allowed
scope_guard true none target required entries = forbidden
scope_guard true (some user) nan required entries = forbidden
scope_guard true (some user) target required entries =
    if is_id user.user_id target then allowed else elim (parse_all required) [
      | none ↦ crashed
      | some perms ↦
          if all (λ p. check_for_entries entries p.module_name p.action all_scope)
            (filter is_own perms)
          then allowed
          else forbidden
    ]

-- The loop of `ScopeResolutionGuard`: the widest scope over the required permissions, left at
-- once when it is `ALL`. The outer `none` is the error of a malformed permission.
abbrev pub wider_than : Option PermissionScope → Option PermissionScope → Option PermissionScope
wider_than highest none = highest
wider_than none (some scope) = some scope
wider_than (some highest) (some scope) =
    if ltb (scope_level highest) (scope_level scope) then some scope else some highest

abbrev pub is_all : Option PermissionScope → Bool
is_all none = false
is_all (some scope) = scope_beq scope all_scope

unfoldable pub resolve_scope :
    List RoleCacheEntry → Option PermissionScope → List Text → Option (Option PermissionScope)
resolve_scope entries highest [] = some highest
resolve_scope entries highest (perm ∷ perms) = elim (parse_permission perm) [
  | none ↦ none
  | some p ↦
      let scope = effective_scope entries p.module_name p.action in
      let rest = resolve_scope entries (wider_than highest scope) perms in
      if is_all scope then some scope else rest
]

-- `IScopeContext`; the team ids are there for the scope `TEAM` alone.
pub record ScopeContext : Type 0 where
  pub effective : PermissionScope
  pub user_id : ℕ
  pub team_ids : Option (List ℕ)

abbrev pub scope_context : ℕ → (ℕ → List ℕ) → Option PermissionScope → Option ScopeContext
scope_context user_id get_team_ids none = none
scope_context user_id get_team_ids (some scope) = some (record {
  effective = scope;
  user_id = user_id;
  team_ids = if scope_beq scope team then some (get_team_ids user_id) else none;
})

-- `ScopeResolutionGuard`: the verdict, and the context that is attached to the request.
unfoldable pub scope_resolution_guard :
    Bool
    → List Text
    → Option UserContext
    → (List ℕ → List RoleCacheEntry)
    → (ℕ → List ℕ)
    → Verdict × Option ScopeContext
unfolding resolve_scope
scope_resolution_guard true required user entries_of get_team_ids = (allowed, none)
scope_resolution_guard false [] user entries_of get_team_ids = (allowed, none)
scope_resolution_guard false (perm ∷ perms) none entries_of get_team_ids = (allowed, none)
scope_resolution_guard false (perm ∷ perms) (some user) entries_of get_team_ids =
    if is_empty user.roles
    then (allowed, none)
    else elim (resolve_scope (entries_of (map (λ r. r.id) user.roles)) none (perm ∷ perms)) [
      | none ↦ (crashed, none)
      | some scope ↦ (allowed, scope_context user.user_id get_team_ids scope)
    ]

module _ (entries : List RoleCacheEntry) where
  -- One of the permissions is held with the required scope.
  abbrev pub any_held : List Text → PermissionScope → Bool
  any_held perms required =
      any
        (λ perm. elim (parse_permission perm) [
          | none ↦ false
          | some p ↦ check_for_entries entries p.module_name p.action required
        ])
        perms

  suffices-wider_than :
      (a b : Option PermissionScope) (required : PermissionScope)
      → suffices (wider_than a b) required ≡ (suffices a required || suffices b required)
  suffices-wider_than a none required = ground arith
  suffices-wider_than none (some s) required = refl
  suffices-wider_than (some r) (some s) required = ground arith

  is_all-suffices :
      (a : Option PermissionScope) (required : PermissionScope)
      → is_all a ≡ true
      → suffices a required ≡ true
  unfolding scope_level
  is_all-suffices none required h = cc
  is_all-suffices (some s) required h = ground arith

  resolve_scope-suffices :
      (perms : List Text) (highest : Option PermissionScope) (required : PermissionScope)
      → all (λ p. is_some (parse_permission p)) perms ≡ true
      → (r : Option PermissionScope) × (resolve_scope entries highest perms ≡ some r)
        × (suffices r required ≡ (suffices highest required || any_held perms required))
  unfolding resolve_scope
  resolve_scope-suffices [] highest required good = (highest, refl, ground arith)
  resolve_scope-suffices (perm ∷ perms) highest required good =
      elim (Option-cases (parse_permission perm)) [
        | inl bad ↦ absurd (ground arith)
        | inr (p, parsed) ↦
            let scope = effective_scope entries p.module_name p.action in
            let held = check_for_entries-effective_scope entries p.module_name p.action required in
            elim (Bool-cases (is_all scope)) [
              | inl found ↦ (
                scope,
                rw (parsed, resolve_scope, found),
                ground (arith, parsed, held, is_all-suffices scope required found),
              )
              | inr more ↦
                  let (r, done, same) =
                    resolve_scope-suffices perms (wider_than highest scope) required
                      (ground (arith, good, parsed)) in
                  (
                    r,
                    rw (parsed, resolve_scope, more) done,
                    ground (arith, same, parsed, held, suffices-wider_than highest scope required),
                  )
            ]
      ]

  -- For well formed permissions the loop ends with a scope that is at least as wide as a required
  -- one exactly if one of the permissions is held with the required scope.
  pub resolve_scope-any_held :
      (perms : List Text) (required : PermissionScope)
      → all (λ p. is_some (parse_permission p)) perms ≡ true
      → (r : Option PermissionScope) × (resolve_scope entries none perms ≡ some r)
        × (suffices r required ≡ any_held perms required)
  resolve_scope-any_held perms required good = resolve_scope-suffices perms none required good

all-check_for_entries :
    (entries : List RoleCacheEntry) (perms : List ParsedPermission)
    → all (λ p. check_for_entries entries p.module_name p.action all_scope) perms
      ≡ all (λ p. suffices (effective_scope entries p.module_name p.action) all_scope) perms
all-check_for_entries entries [] = refl
all-check_for_entries entries (p ∷ perms) = ground (
  arith,
  check_for_entries-effective_scope entries p.module_name p.action all_scope,
  all-check_for_entries entries perms,
)

-- On a route with the metadata, a request on another user passes exactly if every permission is
-- well formed and the effective scope of the actor's roles is `ALL` for each one that is
-- required with the scope `OWN`.
pub scope_guard-all_scope :
    (user : UserContext) (n : ℕ) (required : List Text) (entries : List RoleCacheEntry)
    → is_id user.user_id (number n) ≡ false
    → scope_guard true (some user) (number n) required entries ≡ elim (parse_all required) [
      | none ↦ crashed
      | some perms ↦
          if all
            (λ p. suffices (effective_scope entries p.module_name p.action) all_scope)
            (filter is_own perms)
          then allowed
          else forbidden
    ]
unfolding scope_guard
scope_guard-all_scope user n required entries other = elim (Option-cases (parse_all required)) [
  | inl bad ↦ ground arith
  | inr (perms, parsed) ↦
      ground (arith, parsed, all-check_for_entries entries (filter is_own perms))
]
