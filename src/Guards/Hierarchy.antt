-- ===== src/Guards/Hierarchy.antt =====
-- role-hierarchy.guard.ts and role-entity-hierarchy.guard.ts. `to_lower_case` is JavaScript's
-- `String.toLowerCase`.
use ewu_taks.Base.{
  ℕ, ◌<◌, List, [], ◌∷◌, Option, none, some, Bool, true, false, not, ◌&&◌, ◌||◌, Text, text_beq,
  any, all, filter, map, is_empty, if◌then◌else◌, ◌≡◌, ◌⊎◌, arith, leb, ltb, ◌==◌, max,
}
use ewu_taks.Guards.{
  Verdict, allowed, forbidden, UserContext, IdParam, nan, other_number, number, is_id,
}

-- The role of a target, with its name only where the source selects it.
pub record RoleLevel : Type 0 where
  pub id : ℕ
  pub level : ℕ

-- `ICachedUserRole`
pub record TargetRole : Type 0 where
  pub role_ids : List ℕ
  pub role_level : ℕ

-- `Math.max(...roles.map((ur) => ur.role.level))` over a list that is not empty.
abbrev pub max_level : List RoleLevel → ℕ
max_level [] = 0
max_level (r ∷ roles) = max r.level (max_level roles)

-- `resolveTargetRole`: the cached role, or the roles of the user in the database; the second part
-- is what the call writes to the cache.
unfoldable pub resolve_target_role :
    Option TargetRole → Option (List RoleLevel) → Option TargetRole × Option TargetRole
resolve_target_role (some cached) user_roles = (some cached, none)
resolve_target_role none none = (none, none)
resolve_target_role none (some []) = (none, none)
resolve_target_role none (some (r ∷ roles)) =
    let found : TargetRole = record {
      role_ids = map (λ x. x.id) (r ∷ roles);
      role_level = max_level (r ∷ roles);
    } in
    (some found, some found)

abbrev pub owner : Text
owner = b'o' ∷ b'w' ∷ b'n' ∷ b'e' ∷ b'r' ∷ []

module _ (to_lower_case : Text → Text) where
  abbrev pub is_owner : UserContext → Bool
  is_owner actor = any (λ r. text_beq (to_lower_case r.name) (to_lower_case owner)) actor.roles

  -- `RoleHierarchyGuard`: the first argument tells whether the route has the metadata; the last two
  -- are the replies of the cache and the database about the target.
  unfoldable pub role_hierarchy_guard :
      Bool → Option UserContext → IdParam → Option TargetRole → Option (List RoleLevel) → Verdict
  unfolding resolve_target_role
  role_hierarchy_guard false actor target cached user_roles = allowed
  role_hierarchy_guard true none target cached user_roles = forbidden
  role_hierarchy_guard true (some actor) nan cached user_roles = forbidden
  role_hierarchy_guard true (some actor) target cached user_roles =
      if actor.effective_role_level == 0
      then forbidden
      else if is_id actor.user_id target
      then allowed
      else elim (resolve_target_role cached user_roles).0 [
        | none ↦ allowed
        | some role ↦
            if leb actor.effective_role_level role.role_level
            then (if is_owner actor && role.role_level == actor.effective_role_level
                then allowed
                else forbidden)
            else allowed
      ]

  -- `RoleEntityHierarchyGuard`, over the role ids of the request and the rows that the query on
  -- them returns. `none` for the ids is a path parameter that is not a number.
  unfoldable pub role_entity_hierarchy_guard :
      Bool → Option UserContext → Option (List ℕ) → List RoleLevel → Verdict
  role_entity_hierarchy_guard false actor role_ids roles = allowed
  role_entity_hierarchy_guard true none role_ids roles = forbidden
  role_entity_hierarchy_guard true (some actor) role_ids roles =
      if actor.effective_role_level == 0 then forbidden else elim role_ids [
        | none ↦ forbidden
        | some [] ↦ allowed
        | some (id ∷ ids) ↦
            let above = filter (λ r. leb actor.effective_role_level r.level) roles in
            if is_empty above
            then allowed
            else if is_owner actor && all (λ r. r.level == actor.effective_role_level) above
            then allowed
            else forbidden
      ]

  -- A request on another user that passes, where the target has a role: the actor's level is
  -- above 0 and above the target's, or the actor is an owner at the very level of the target.
  pub role_hierarchy_guard-allowed :
      (actor : UserContext) (target : IdParam) (cached : Option TargetRole)
      (user_roles : Option (List RoleLevel)) (role : TargetRole)
      → role_hierarchy_guard true (some actor) target cached user_roles ≡ allowed
      → is_id actor.user_id target ≡ false
      → (resolve_target_role cached user_roles).0 ≡ some role
      → (0 < actor.effective_role_level)
        × ((role.role_level < actor.effective_role_level)
            ⊎ ((role.role_level ≡ actor.effective_role_level) × (is_owner actor ≡ true)))
  unfolding role_hierarchy_guard
  role_hierarchy_guard-allowed actor nan cached user_roles role h other found = cc
  role_hierarchy_guard-allowed actor other_number cached user_roles role h other found =
      ground arith
  role_hierarchy_guard-allowed actor (number n) cached user_roles role h other found = ground arith

  -- What an actor may act on: roles below the own level, and for an owner roles at it.
  abbrev pub outranks : UserContext → RoleLevel → Bool
  outranks actor r =
      if is_owner actor
      then leb r.level actor.effective_role_level
      else ltb r.level actor.effective_role_level

  outranks-filter :
      (actor : UserContext) (roles : List RoleLevel)
      → (let above = filter (λ r. leb actor.effective_role_level r.level) roles in
          is_empty above
          || (is_owner actor && all (λ r. r.level == actor.effective_role_level) above))
        ≡ all (outranks actor) roles
  outranks-filter actor [] = ground arith
  outranks-filter actor (r ∷ roles) = ground (arith, outranks-filter actor roles)

  -- An action on roles passes exactly if the actor's level is not 0 and the actor outranks every
  -- one of the roles that the query finds.
  pub role_entity_hierarchy_guard-outranks :
      (actor : UserContext) (id : ℕ) (ids : List ℕ) (roles : List RoleLevel)
      → role_entity_hierarchy_guard true (some actor) (some (id ∷ ids)) roles ≡ (
          if not (actor.effective_role_level == 0) && all (outranks actor) roles
          then allowed
          else forbidden)
  unfolding role_entity_hierarchy_guard
  role_entity_hierarchy_guard-outranks actor id ids roles =
      ground (arith, outranks-filter actor roles)
