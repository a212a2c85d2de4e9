-- ===== src/Users/Status.antt =====
-- user-status.service.ts. Each method reads the user in the state `seen` and writes in the state
-- `db` that the table is in when its transaction runs: what others did in between is the
-- difference. A method that throws leaves the database as it was. `token` is the hash of a fresh
-- random token, `find_roles` is `role.findMany` on a list of ids; the building of the response and
-- the cache of sessions, which the method calls without waiting, have no part in the result.
pub mod Transitions
pub mod Machine
pub mod Revocation
pub mod Bypass
use ewu_taks.Base.{
  ℕ, ◌+◌, ◌-◌, List, [], ◌∷◌, Option, none, some, Bool, true, false, not, ◌&&◌, ◌||◌, if◌then◌else◌,
  Text, contains, filter, is_empty, nat_eq, ltb, leb, ◌==◌, map, any, all, get_or, is_some, Result,
  ok, err, ◌>>=◌, ◌>>◌, require,
}
use ewu_taks.Domain.{
  Table, Owned, Links, holds, User, UserStatus, status_beq, pending, active, suspended, inactive,
  rejected, invited, revoked,
}
use ewu_taks.Users.Store.{
  Tables, Db, find_unique, update_where, with_status, delete_credential_artifacts, delete_sessions,
  ActivateData, approve_user, reject_user, unreject_to_pending, unreject_to_active, unsuspend_user,
  reactivate_user, suspend_user_in_tx, deactivate_user_in_tx, update_auth_provider_in_tx,
  restore_user, has_invitation,
}

pub data StatusError : Type 0 where
  not_found bad_status invited_user role_ids_required role_too_high role_not_found : StatusError
  concurrent_change not_in_trash rate_limited internal : StatusError

pub record RoleRow : Type 0 where
  pub id : ℕ
  pub level : ℕ

-- The data of `ApproveUserDTO`, `UnrejectUserDTO` and `ReactivateUserDTO`.
pub record RolesDto : Type 0 where
  pub role_ids : Option (List ℕ)
  pub is_credential_enabled : Option Bool

pub record Actor : Type 0 where
  pub admin_id : ℕ
  pub role_level : ℕ
  pub can_assign_peer_level : Bool

abbrev pub provider_switch_rate_limit : ℕ
provider_switch_rate_limit = 5

-- `withConcurrencyGuard` on a call of the repository.
abbrev pub guarded : {A : Type 0} → Option A → Result StatusError A
guarded none = err concurrent_change
guarded (some a) = ok a

unfoldable pub resolve_role_ids : Option (List ℕ) → Result StatusError (List ℕ)
resolve_role_ids none = err role_ids_required
resolve_role_ids (some []) = err role_ids_required
resolve_role_ids (some (r ∷ rs)) = ok (r ∷ rs)

unfoldable pub resolve_credential_flag : Option Bool → Bool
resolve_credential_flag flag = get_or flag true

abbrev pub is_nothing : Option (List ℕ) → Bool
is_nothing none = true
is_nothing (some ids) = is_empty ids

module _ (find_roles : List ℕ → List RoleRow) where
  unfoldable pub validate_role_hierarchy : List ℕ → Actor → Result StatusError (Unit {0})
  validate_role_hierarchy role_ids actor =
      let forbidden =
        filter
          (λ r.
            if ltb actor.role_level r.level
            then true
            else r.level == actor.role_level && not actor.can_assign_peer_level)
          (find_roles role_ids) in
      require (is_empty forbidden) role_too_high

  unfoldable pub validate_role_ids : List ℕ → Result StatusError (Unit {0})
  validate_role_ids role_ids =
      let found = map (λ r. r.id) (find_roles role_ids) in
      require (is_empty (filter (λ id. not (contains found id)) role_ids)) role_not_found

  -- The roles and the token of an approval.
  unfoldable pub approval_data : RolesDto → Actor → Text → Result StatusError ActivateData
  unfolding validate_role_hierarchy validate_role_ids resolve_role_ids resolve_credential_flag
  approval_data dto actor token = do
    role_ids ← resolve_role_ids dto.role_ids
    if is_nothing dto.role_ids then validate_role_hierarchy role_ids actor else ok tt
    validate_role_ids role_ids
    let enabled = resolve_credential_flag dto.is_credential_enabled
    ok (record {
      role_ids = role_ids;
      is_credential_enabled = enabled;
      set_password = if enabled then some token else none;
    })

module _ (tables : Tables) (find_roles : List ℕ → List RoleRow) where
  -- `getPendingUserOrFail` and `getRejectedUserOrFail`
  unfoldable pub get_user_with_status_or_fail : Db tables → ℕ → UserStatus → Result StatusError User
  get_user_with_status_or_fail seen id required = elim (find_unique tables seen id) [
    | none ↦ err not_found
    | some u ↦
        if not (status_beq u.status required)
        then err bad_status
        else if has_invitation tables seen id
        then err invited_user
        else ok u
  ]

  -- The check of the methods that do not care for invitations.
  unfoldable pub get_user_or_fail : Db tables → ℕ → (UserStatus → Bool) → Result StatusError User
  get_user_or_fail seen id fits = elim (find_unique tables seen id) [
    | none ↦ err not_found
    | some u ↦ if fits u.status then ok u else err bad_status
  ]

  unfoldable pub approve :
      Db tables → Db tables → ℕ → ℕ → Actor → RolesDto → Text → Result StatusError (Db tables)
  unfolding get_user_with_status_or_fail approval_data
  approve seen db now id actor dto token = do
    _ ← get_user_with_status_or_fail seen id pending
    d ← approval_data find_roles dto actor token
    guarded (approve_user tables db now id actor.admin_id d)

  unfoldable pub reject :
      Db tables → Db tables → ℕ → ℕ → Actor → Option Text → Result StatusError (Db tables)
  unfolding get_user_with_status_or_fail
  reject seen db now id actor reason = do
    _ ← get_user_with_status_or_fail seen id pending
    guarded (reject_user tables db now id actor.admin_id reason)

  -- `unrejectUser`; the flag is `dto.reactivate`.
  unfoldable pub unreject :
      Db tables
      → Db tables
      → ℕ
      → ℕ
      → Actor
      → Bool
      → RolesDto
      → Text
      → Result StatusError (Db tables)
  unfolding get_user_with_status_or_fail approval_data
  unreject seen db now id actor reactivate dto token = do
    _ ← get_user_with_status_or_fail seen id rejected
    (if reactivate
        then (approval_data find_roles dto actor token >>= λ d.
            guarded (unreject_to_active tables db now id actor.admin_id d))
        else guarded (unreject_to_pending tables db now id actor.admin_id))

  -- `buildCredentialCleanupData`
  abbrev pub credential_cleanup : User → User
  credential_cleanup u = record u {
    is_two_factor_enabled = false;
    two_factor_secret = none;
    two_factor_confirmed_at = none;
    two_factor_attempts = 0;
    two_factor_attempts_lockout = none;
    two_factor_grace_period_end = none;
  }

  -- The clean-up data is spread over the other data if the flag is set.
  abbrev pub with_cleanup : Bool → (User → User) → User → User
  with_cleanup flag f u = if flag then credential_cleanup (f u) else f u

  unfoldable pub suspend : Db tables → Db tables → ℕ → ℕ → Actor → Result StatusError (Db tables)
  unfolding get_user_or_fail
  suspend seen db now id actor = do
    user ← get_user_or_fail seen id (λ st. status_beq st active)
    let cleaned =
        if user.is_credential_enabled then delete_credential_artifacts tables db id else db
    written ← guarded (
        suspend_user_in_tx tables cleaned id (
          with_cleanup user.is_credential_enabled λ u. record u {
            status = suspended;
            suspended_at = some now;
            suspended_by = some actor.admin_id;
            is_credential_enabled = false;
            reset_token = none;
            password_reset_requested_at = none;
          }))
    ok (delete_sessions tables written id)

  unfoldable pub unsuspend :
      Db tables → Db tables → ℕ → ℕ → Actor → Text → Result StatusError (Db tables)
  unfolding get_user_or_fail
  unsuspend seen db now id actor token = do
    _ ← get_user_or_fail seen id (λ st. status_beq st suspended)
    guarded (unsuspend_user tables db now id actor.admin_id true token)

  -- The roles that `reactivateUser` goes on with: the given ones, or none if the user has some.
  unfoldable pub reactivation_roles :
      Db tables → ℕ → Option (List ℕ) → Result StatusError (Option (List ℕ))
  reactivation_roles seen id role_ids =
      if is_nothing role_ids && is_empty (tables.links.roles_of seen.links_now id)
      then err role_ids_required
      else ok role_ids

  -- The checks on these roles.
  unfoldable pub reactivation_checks :
      Actor → Option (List ℕ) → Option (List ℕ) → Result StatusError (Unit {0})
  unfolding validate_role_hierarchy validate_role_ids
  reactivation_checks actor given none = ok tt
  reactivation_checks actor given (some role_ids) = do
    (if is_nothing given then validate_role_hierarchy find_roles role_ids actor else ok tt)
    validate_role_ids find_roles role_ids

  unfoldable pub reactivate :
      Db tables → Db tables → ℕ → ℕ → Actor → RolesDto → Text → Result StatusError (Db tables)
  unfolding get_user_or_fail reactivation_roles reactivation_checks resolve_credential_flag
  reactivate seen db now id actor dto token = do
    _ ← get_user_or_fail seen id (λ st. status_beq st inactive)
    let enabled = resolve_credential_flag dto.is_credential_enabled
    role_ids ← reactivation_roles seen id dto.role_ids
    _ ← reactivation_checks actor dto.role_ids role_ids
    guarded (
        reactivate_user tables db now id actor.admin_id enabled role_ids
          (if enabled then some token else none))

  unfoldable pub restore : Db tables → Db tables → ℕ → ℕ → Actor → Result StatusError (Db tables)
  restore seen db now id actor = elim (tables.users.find seen.users_now id) [
    | none ↦ err not_found
    | some u ↦
        if not u.is_deleted
        then err not_in_trash
        else elim (restore_user tables db now id actor.admin_id) [
          | none ↦ err internal
          | some db' ↦ ok db'
        ]
  ]

  unfoldable pub deactivate : Db tables → Db tables → ℕ → ℕ → Actor → Result StatusError (Db tables)
  unfolding get_user_or_fail
  deactivate seen db now id actor = do
    user ← get_user_or_fail seen id (λ st. status_beq st active || status_beq st suspended)
    let needs_cleanup = status_beq user.status active && user.is_credential_enabled
    let cleaned = if needs_cleanup then delete_credential_artifacts tables db id else db
    written ← guarded (
        deactivate_user_in_tx tables cleaned id (
          with_cleanup needs_cleanup λ u. record u {
            status = inactive;
            reviewed_by = some actor.admin_id;
            reviewed_at = some now;
            deactivated_at = some now;
            deactivated_by = some actor.admin_id;
            suspended_at = none;
            suspended_by = none;
            is_credential_enabled = false;
          }))
    ok (delete_sessions tables written id)

  -- The data of `switchAuthProvider`: what the user row becomes.
  abbrev pub switched : ℕ → ℕ → Bool → Text → User → User → User
  switched now admin_id enable token user u =
      if enable
      then record u {
        is_credential_enabled = true;
        set_password_token =
            if is_some user.password_hash then u.set_password_token else some token;
        set_password_requested_at =
            if is_some user.password_hash then u.set_password_requested_at else some now;
      }
      else credential_cleanup (record u {
        is_credential_enabled = false;
        status = suspended;
        suspended_at = some now;
        suspended_by = some admin_id;
      })

  -- `switchAuthProvider`; `recent` is what the audit log counts of switches in the last hour. A
  -- user whose flag is already as wanted is left alone. An update of a missing row throws P2025,
  -- which nothing here catches.
  unfoldable pub switch_auth_provider :
      Db tables → Db tables → ℕ → ℕ → Actor → ℕ → Bool → Text → Result StatusError (Db tables)
  switch_auth_provider seen db now id actor recent enable token =
      elim (find_unique tables seen id) [
        | none ↦ err not_found
        | some user ↦
            if (if enable then user.is_credential_enabled else not user.is_credential_enabled)
            then ok db
            else if leb provider_switch_rate_limit recent
            then err rate_limited
            else let cleaned = if enable then db else delete_credential_artifacts tables db id in
              elim (update_auth_provider_in_tx tables cleaned id
                (switched now actor.admin_id enable token user)) [
                  | none ↦ err internal
                  | some written ↦ ok (delete_sessions tables written id)
                ]
      ]
