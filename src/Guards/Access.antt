-- ===== src/Guards/Access.antt =====
-- self-action.guard.ts and requires-role.guard.ts.
use ewu_taks.Base.{
  List, Option, none, some, Bool, true, false, Text, text_beq, any, if◌then◌else◌, ◌≡◌, ◌≢◌, arith,
}
use ewu_taks.Guards.{
  Verdict, allowed, forbidden, unauthorized, UserContext, UserRole, IdParam, nan, other_number,
  number, is_id,
}

-- `SelfActionGuard`; the first argument tells whether the route has the metadata.
unfoldable pub self_action_guard : Bool → Option UserContext → IdParam → Verdict
self_action_guard false user target = allowed
self_action_guard true none target = forbidden
self_action_guard true (some user) nan = forbidden
self_action_guard true (some user) target = if is_id user.user_id target then forbidden else allowed

-- `RequiresRoleGuard`, with `String.toLowerCase` as a parameter.
module _ (to_lower_case : Text → Text) where
  abbrev pub has_role_named : Text → List UserRole → Bool
  has_role_named name roles = any (λ r. text_beq (to_lower_case r.name) (to_lower_case name)) roles

  unfoldable pub requires_role_guard : Option Text → Option UserContext → Verdict
  requires_role_guard none user = allowed
  requires_role_guard (some required) none = unauthorized
  requires_role_guard (some required) (some user) =
      if has_role_named required user.roles then allowed else forbidden

-- On a route that prevents self-actions, a request that passes is made by a user and names a
-- target that is a number and not the user's own id.
pub self_action_guard-allowed :
    (user : Option UserContext) (target : IdParam)
    → self_action_guard true user target ≡ allowed
    → (u : UserContext) × (user ≡ some u) × (is_id u.user_id target ≡ false) × (target ≢ nan)
unfolding self_action_guard
self_action_guard-allowed none target h = cc
self_action_guard-allowed (some u) nan h = cc
self_action_guard-allowed (some u) other_number h = (u, ground arith, ground arith, ground arith)
self_action_guard-allowed (some u) (number n) h = (u, ground arith, ground arith, ground arith)
