-- ===== src/Users/Store.antt =====
-- users.repository.ts over the soft-delete extension of the Prisma client
-- (libs/database/src/lib/extensions/soft-delete.extension.ts): a deleted user is found and updated
-- only where the query asks for it.
use ewu_taks.Base.{
  ℕ, List, [], ◌∷◌, Option, none, some, Bool, true, false, not, ◌&&◌, ◌||◌, if◌then◌else◌, Text,
  contains, filter, is_empty, nat_eq, ◌==◌,
}
use ewu_taks.Domain.{
  Table, Owned, Links, holds, User, UserStatus, status_beq, pending, active, suspended, inactive,
  rejected,
}

-- The tables that the user services share.
pub record Tables : Type 1 where
  pub users : Table User
  pub sessions : Owned
  pub backup_codes : Owned
  pub trusted_devices : Owned
  pub invitations : Owned
  pub links : Links

-- `ActivateWithRoleData`; a token comes with the time of its request.
pub record ActivateData : Type 0 where
  pub role_ids : List ℕ
  pub is_credential_enabled : Bool
  pub set_password : Option Text

module _ (tables : Tables) where
  open tables use {users, sessions, backup_codes, trusted_devices, invitations, links}

  pub record Db : Type 0 where
    pub users_now : users.State
    pub sessions_now : sessions.State
    pub codes_now : backup_codes.State
    pub devices_now : trusted_devices.State
    pub invitations_now : invitations.State
    pub links_now : links.State

  -- `findUnique`, and `findFirst` on an id.
  unfoldable pub find_unique : Db → ℕ → Option User
  find_unique db id = elim (users.find db.users_now id) [
    | none ↦ none
    | some u ↦ if u.is_deleted then none else some u
  ]

  -- `update({ where: { id, ...p }, data: f })`: `none` is the error P2025, no row to update.
  unfoldable pub update_where : Db → ℕ → (User → Bool) → (User → User) → Option Db
  update_where db id p f =
      if holds (λ u. p u && not u.is_deleted) (users.find db.users_now id)
      then some (record db { users_now = users.write db.users_now id f })
      else none

  abbrev pub with_status : UserStatus → User → Bool
  with_status required u = status_beq u.status required

  unfoldable pub delete_credential_artifacts : Db → ℕ → Db
  delete_credential_artifacts db user_id = record db {
    codes_now = backup_codes.delete_all db.codes_now user_id;
    devices_now = trusted_devices.delete_all db.devices_now user_id;
  }

  unfoldable pub delete_sessions : Db → ℕ → Db
  delete_sessions db user_id = record db {
    sessions_now = sessions.delete_all db.sessions_now user_id;
  }

  -- `syncUserRoles`: the links that are not wanted go, those that are missing come.
  unfoldable pub sync_user_roles : Db → ℕ → List ℕ → Db
  sync_user_roles db user_id role_ids =
      let current = links.roles_of db.links_now user_id in
      let to_remove = filter (λ id. not (contains role_ids id)) current in
      let to_add = filter (λ id. not (contains current id)) role_ids in
      let removed =
        if is_empty to_remove
        then db.links_now
        else links.delete_many db.links_now user_id to_remove in
      let added = if is_empty to_add then removed else links.create_many removed user_id to_add in
      record db { links_now = added }

  -- A value that is `undefined` in the data of an update leaves the column alone.
  abbrev pub or_kept : {A : Type 0} → Option A → Option A → Option A
  or_kept none old = old
  or_kept (some new) old = some new

  abbrev pub token_time : ℕ → Option Text → Option ℕ
  token_time now none = none
  token_time now (some token) = some now

  -- The data of `activateWithRole`, before `extraData`.
  abbrev pub activated : ℕ → ℕ → ActivateData → User → User
  activated now reviewer_id d u = record u {
    status = active;
    reviewed_by = some reviewer_id;
    reviewed_at = some now;
    is_credential_enabled = d.is_credential_enabled;
    set_password_token = or_kept d.set_password u.set_password_token;
    set_password_requested_at = or_kept (token_time now d.set_password) u.set_password_requested_at;
    password_hash = none;
    previous_password_hash = u.password_hash;
  }

  unfoldable pub activate_with_role :
      Db → ℕ → ℕ → ℕ → UserStatus → ActivateData → (User → User) → Option Db
  unfolding update_where sync_user_roles
  activate_with_role db now id reviewer_id required d extra =
      elim (update_where db id (with_status required)
        (λ u. extra (activated now reviewer_id d u))) [
          | none ↦ none
          | some db' ↦ some (sync_user_roles db' id d.role_ids)
        ]

  unfoldable pub approve_user : Db → ℕ → ℕ → ℕ → ActivateData → Option Db
  unfolding activate_with_role
  approve_user db now id reviewer_id d = activate_with_role db now id reviewer_id pending d (λ u. u)

  unfoldable pub reject_user : Db → ℕ → ℕ → ℕ → Option Text → Option Db
  unfolding update_where
  reject_user db now id reviewer_id reason = update_where db id (with_status pending) λ u.
      record u {
        status = rejected;
        reviewed_by = some reviewer_id;
        reviewed_at = some now;
        rejection_reason = reason;
      }

  unfoldable pub unreject_to_pending : Db → ℕ → ℕ → ℕ → Option Db
  unfolding update_where
  unreject_to_pending db now id reviewer_id = update_where db id (with_status rejected) λ u.
      record u {
        status = pending;
        reviewed_by = some reviewer_id;
        reviewed_at = some now;
        rejection_reason = none;
      }

  unfoldable pub unreject_to_active : Db → ℕ → ℕ → ℕ → ActivateData → Option Db
  unfolding activate_with_role
  unreject_to_active db now id reviewer_id d =
      activate_with_role db now id reviewer_id rejected d
        (λ u. record u { rejection_reason = none })

  -- `unsuspendUser`, with the token that its caller always gives.
  unfoldable pub unsuspend_user : Db → ℕ → ℕ → ℕ → Bool → Text → Option Db
  unfolding update_where
  unsuspend_user db now id reviewer_id is_credential_enabled token =
      update_where db id (with_status suspended) λ u. record u {
        status = active;
        suspended_at = none;
        suspended_by = none;
        reviewed_by = some reviewer_id;
        reviewed_at = some now;
        is_credential_enabled = is_credential_enabled;
        password_hash = none;
        previous_password_hash = u.password_hash;
        set_password_token = some token;
        set_password_requested_at = some now;
      }

  -- The data of `reactivateUser`.
  abbrev pub reactivated : ℕ → ℕ → Bool → Option Text → User → User
  reactivated now reviewer_id is_credential_enabled token u = record u {
    status = active;
    deactivated_at = none;
    deactivated_by = none;
    reviewed_by = some reviewer_id;
    reviewed_at = some now;
    is_credential_enabled = is_credential_enabled;
    password_hash = none;
    previous_password_hash = u.password_hash;
    set_password_token = or_kept token u.set_password_token;
    set_password_requested_at = or_kept (token_time now token) u.set_password_requested_at;
  }

  -- `reactivateUser`; `none` for the roles leaves them alone, and so does an empty list.
  unfoldable pub reactivate_user : Db → ℕ → ℕ → ℕ → Bool → Option (List ℕ) → Option Text → Option Db
  unfolding update_where sync_user_roles
  reactivate_user db now id reviewer_id is_credential_enabled role_ids token =
      elim (update_where db id (with_status inactive)
        (reactivated now reviewer_id is_credential_enabled token)) [
          | none ↦ none
          | some db' ↦ elim role_ids [
            | none ↦ some db'
            | some [] ↦ some db'
            | some (r ∷ rs) ↦ some (sync_user_roles db' id (r ∷ rs))
          ]
        ]

  unfoldable pub suspend_user_in_tx : Db → ℕ → (User → User) → Option Db
  unfolding update_where
  suspend_user_in_tx db id f = update_where db id (with_status active) f

  unfoldable pub deactivate_user_in_tx : Db → ℕ → (User → User) → Option Db
  unfolding update_where
  deactivate_user_in_tx db id f =
      update_where db id (λ u. with_status active u || with_status suspended u) f

  unfoldable pub update_auth_provider_in_tx : Db → ℕ → (User → User) → Option Db
  unfolding update_where
  update_auth_provider_in_tx db id f = update_where db id (λ u. true) f

  -- `restoreUser`; `none` is the plain error that no deleted row was found.
  unfoldable pub restore_user : Db → ℕ → ℕ → ℕ → Option Db
  restore_user db now id reviewer_id =
      if holds (λ u. u.is_deleted) (users.find db.users_now id)
      then some (record db {
        users_now = users.write db.users_now id λ u. record u {
          is_deleted = false;
          deleted_at = none;
          deleted_by = none;
          status = active;
          deactivated_at = none;
          deactivated_by = none;
          suspended_at = none;
          suspended_by = none;
          reviewed_by = some reviewer_id;
          reviewed_at = some now;
        };
      })
      else none

  unfoldable pub has_invitation : Db → ℕ → Bool
  has_invitation db id = not (invitations.count db.invitations_now id == 0)
