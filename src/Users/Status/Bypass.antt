-- ===== src/Users/Status/Bypass.antt =====
-- What the methods do not check: the status before a switch and a restore, and the role levels.
use ewu_taks.Base.{
  ℕ, ==_iff, List, [], ◌∷◌, Option, none, some, Bool, true, false, Text, leb, ◌≡◌, refl, arith, ok,
  Option-cases, inl, inr,
}
use ewu_taks.Domain.{map_option, User, UserStatus, pending, active, suspended}
use ewu_taks.Users.Store.{
  Tables, Db, find_unique, update_where, update_auth_provider_in_tx, delete_credential_artifacts,
  delete_sessions, restore_user, unsuspend_user,
}
use ewu_taks.Users.Status.{
  Actor, RolesDto, RoleRow, switch_auth_provider, restore, switched, unsuspend, approve,
  approval_data, resolve_role_ids,
}

-- The status of the row that a query finds.
abbrev pub status_of : (tables : Tables) → ℕ → Db tables → Option UserStatus
status_of tables id db = map_option (λ (v : User). v.status) (find_unique tables db id)

-- The roles and the token of an approval do not depend on who approves: the check of the role
-- hierarchy stands only where no roles are given, and there the call has failed before it.
approval_data-actor :
    (find_roles : List ℕ → List RoleRow) (dto : RolesDto) (actor other : Actor) (token : Text)
    → approval_data find_roles dto actor token ≡ approval_data find_roles dto other token
unfolding approval_data resolve_role_ids
approval_data-actor find_roles dto actor other token = elim (Option-cases dto.role_ids) [
  | inl missing ↦ rw missing refl
  | inr ([], given) ↦ rw given refl
  | inr (r ∷ rs, given) ↦ rw given refl
]

-- An approval gives the same result for two actors with the same id, whatever their role levels
-- are and whether they may assign their own level.
pub approve-role_level :
    (tables : Tables) (find_roles : List ℕ → List RoleRow) (seen db : Db tables) (now id : ℕ)
    (admin_id level level' : ℕ) (peer peer' : Bool) (dto : RolesDto) (token : Text)
    → approve tables find_roles seen db now id
        (record { admin_id = admin_id; role_level = level; can_assign_peer_level = peer })
        dto
        token
      ≡ approve tables find_roles seen db now id
          (record { admin_id = admin_id; role_level = level'; can_assign_peer_level = peer' })
          dto
          token
unfolding approve
approve-role_level tables find_roles seen db now id admin_id level level' peer peer' dto token =
    let low : Actor = record {
      admin_id = admin_id;
      role_level = level;
      can_assign_peer_level = peer;
    } in
    let high : Actor = record {
      admin_id = admin_id;
      role_level = level';
      can_assign_peer_level = peer';
    } in
    rw (approval_data-actor find_roles dto low high token) refl

module _ (tables : Tables) (find_roles : List ℕ → List RoleRow) (now id : ℕ) (actor : Actor) where
  open tables.users use {find, write, find-write}

  -- A row that a query finds is there and not deleted.
  find-find_unique :
      (db : Db tables) (u : User)
      → find_unique tables db id ≡ some u
      → (find db.users_now id ≡ some u) × (u.is_deleted ≡ false)
  unfolding find_unique
  find-find_unique db u h = elim (Option-cases (find db.users_now id)) [
    | inl missing ↦ absurd (ground arith)
    | inr (v, found) ↦ (ground arith, ground arith)
  ]

  -- Credentials that are on can be switched off whatever the status of the user is, and the user is
  -- then suspended: a pending, rejected, inactive or invited user too.
  pub switch_auth_provider-any_status :
      (db : Db tables) (u : User) (recent : ℕ) (token : Text)
      → find_unique tables db id ≡ some u
      → u.is_credential_enabled ≡ true
      → leb 5 recent ≡ false
      → (db' : Db tables) × (switch_auth_provider tables find_roles db db now id actor recent false
            token
          ≡ ok db')
        × (status_of tables id db' ≡ some suspended)
  unfolding switch_auth_provider update_auth_provider_in_tx delete_sessions
      delete_credential_artifacts find_unique update_where
  switch_auth_provider-any_status db u recent token h enabled few =
      let cleaned = delete_credential_artifacts tables db id in
      let f = switched tables find_roles now actor.admin_id false token u in
      let written = record cleaned { users_now = write db.users_now id f } in
      let (found, alive) = find-find_unique db u h in
      (
        delete_sessions tables written id,
        ground (arith, found, alive, enabled, few),
        ground (arith, find-write db.users_now id id f, ==_iff id id, found, alive),
      )

  -- A suspended user can be made active.
  pub unsuspend-suspended :
      (db : Db tables) (token : Text)
      → status_of tables id db ≡ some suspended
      → (db' : Db tables) × (unsuspend tables find_roles db db now id actor token ≡ ok db')
        × (status_of tables id db' ≡ some active)
  unfolding unsuspend unsuspend_user find_unique update_where
  unsuspend-suspended db token h = elim (Option-cases (find db.users_now id)) [
    | inl missing ↦ absurd (ground arith)
    | inr (u, found) ↦
        let f = λ (v : User). record v {
          status = active;
          suspended_at = none;
          suspended_by = none;
          reviewed_by = some actor.admin_id;
          reviewed_at = some now;
          is_credential_enabled = true;
          password_hash = none;
          previous_password_hash = v.password_hash;
          set_password_token = some token;
          set_password_requested_at = some now;
        } in
        let alive : u.is_deleted ≡ false = ground (arith, found) in
        let is_suspended : u.status ≡ suspended = ground (arith, found) in
        (
          record db { users_now = write db.users_now id f },
          ground (arith, found, alive, is_suspended),
          ground (arith, find-write db.users_now id id f, ==_iff id id, found, alive),
        )
  ]

  -- A pending user with credentials, of whom fewer than five switches are counted, becomes active
  -- by two calls, the switch of the credentials off and the end of the suspension.
  pub switch_auth_provider-unsuspend :
      (db : Db tables) (u : User) (recent : ℕ) (token : Text)
      → find_unique tables db id ≡ some u
      → u.status ≡ pending
      → u.is_credential_enabled ≡ true
      → leb 5 recent ≡ false
      → (db' db'' : Db tables) × (switch_auth_provider tables find_roles db db now id actor recent
            false token
          ≡ ok db')
        × (unsuspend tables find_roles db' db' now id actor token ≡ ok db'')
        × (status_of tables id db'' ≡ some active)
  switch_auth_provider-unsuspend db u recent token h unapproved enabled few =
      let (db', switch_ok, off) = switch_auth_provider-any_status db u recent token h enabled few in
      let (db'', unsuspend_ok, on) = unsuspend-suspended db' token off in
      (db', db'', switch_ok, unsuspend_ok, on)

  -- The restoring of a deleted user returns, and the user is then found and active, whatever its
  -- status was when it was deleted.
  pub restore-active :
      (db : Db tables) (u : User)
      → find db.users_now id ≡ some u
      → u.is_deleted ≡ true
      → (db' : Db tables) × (restore tables find_roles db db now id actor ≡ ok db')
        × (status_of tables id db' ≡ some active)
  unfolding restore restore_user find_unique
  restore-active db u found dead =
      let f = λ (v : User). record v {
        is_deleted = false;
        deleted_at = none;
        deleted_by = none;
        status = active;
        deactivated_at = none;
        deactivated_by = none;
        suspended_at = none;
        suspended_by = none;
        reviewed_by = some actor.admin_id;
        reviewed_at = some now;
      } in
      (
        record db { users_now = write db.users_now id f },
        ground (arith, found, dead),
        ground (arith, find-write db.users_now id id f, ==_iff id id, found, dead),
      )
