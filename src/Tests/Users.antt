-- ===== src/Tests/Users.antt =====
-- The changes of a user's status on a small database.
use ewu_taks.Base.{
  ℕ, List, [], ◌∷◌, ◌++◌, Option, none, some, true, false, ◌&&◌, ◌||◌, not, if◌then◌else◌, contains,
  filter, ◌==◌, ==_iff, nat_eq, ok, ◌≡◌, refl, arith,
}
use ewu_taks.Domain.{Table, Owned, Links, map_option, User, pending, active, suspended, inactive}
use ewu_taks.Users.Store.{
  Tables, Db, find_unique, suspend_user_in_tx, delete_credential_artifacts, delete_sessions,
}
use ewu_taks.Users.Status.{RoleRow, RolesDto, Actor, suspend, unsuspend, switch_auth_provider}
use ewu_taks.Users.Status.Transitions.{do_suspend, changes, run_method, Changed}
use ewu_taks.Users.Roles.{assignment, assign_all, sync_all, sync_all-refines}
use ewu_taks.Users.Status.Machine.{run_method-Changed}
use ewu_taks.Users.Status.Revocation.{LockedOut, suspend-LockedOut}
use ewu_taks.Users.Status.Bypass.{status_of, switch_auth_provider-unsuspend}

-- tables as functions of the id
abbrev pub user_table : Table User
user_table = record {
  State = ℕ → Option User;
  find = λ s id. s id;
  write = λ s id f j. if id == j then map_option f (s j) else s j;
  find-write = λ s id j f. refl;
}

abbrev owned : Owned
owned = record {
  State = ℕ → ℕ;
  count = λ s id. s id;
  delete_all = λ s id j. if id == j then 0 else s j;
  count-delete_all = λ s id j. refl;
}

contains-filter :
    (ids : List ℕ) (gone : List ℕ) (r : ℕ)
    → contains (filter (λ x. not (contains gone x)) ids) r
      ≡ (contains ids r && not (contains gone r))
contains-filter [] gone r = refl
contains-filter (x ∷ ids) gone r = ground (arith, contains-filter ids gone r, ==_iff x r)

contains-append :
    (xs ys : List ℕ) (r : ℕ) → contains (xs ++ ys) r ≡ (contains xs r || contains ys r)
contains-append [] ys r = refl
contains-append (x ∷ xs) ys r = ground (arith, contains-append xs ys r)

contains-delete :
    (s : ℕ → List ℕ) (id j : ℕ) (ids : List ℕ) (r : ℕ)
    → contains (if id == j then filter (λ x. not (contains ids x)) (s j) else s j) r
      ≡ (contains (s j) r && not (id == j && contains ids r))
contains-delete s id j ids r = ground (arith, contains-filter (s j) ids r)

contains-create :
    (s : ℕ → List ℕ) (id j : ℕ) (ids : List ℕ) (r : ℕ)
    → contains (if id == j then s j ++ ids else s j) r
      ≡ (contains (s j) r || (id == j && contains ids r))
contains-create s id j ids r = ground (arith, contains-append (s j) ids r)

abbrev links : Links
links = record {
  State = ℕ → List ℕ;
  roles_of = λ s id. s id;
  delete_many = λ s id ids j. if id == j then filter (λ x. not (contains ids x)) (s j) else s j;
  create_many = λ s id ids j. if id == j then s j ++ ids else s j;
  contains-delete_many = contains-delete;
  contains-create_many = contains-create;
}

abbrev tables : Tables
tables = record {
  users = user_table;
  sessions = owned;
  backup_codes = owned;
  trusted_devices = owned;
  invitations = owned;
  links = links;
}

abbrev pub new_user : User
new_user = record {
  email = b'a' ∷ [];
  status = pending;
  password_hash = none;
  previous_password_hash = none;
  is_credential_enabled = true;
  set_password_token = none;
  set_password_requested_at = none;
  reset_token = none;
  password_reset_requested_at = none;
  login_attempts = 0;
  login_attempts_lockout = none;
  last_login_at = none;
  reviewed_by = none;
  reviewed_at = none;
  rejection_reason = none;
  suspended_at = none;
  suspended_by = none;
  deactivated_at = none;
  deactivated_by = none;
  is_deleted = false;
  deleted_at = none;
  deleted_by = none;
  is_two_factor_enabled = false;
  is_two_factor_enforced = false;
  two_factor_secret = none;
  two_factor_confirmed_at = none;
  two_factor_attempts = 0;
  two_factor_attempts_lockout = none;
  two_factor_grace_period_end = none;
  two_factor_recovery_token = none;
  two_factor_recovery_requested_at = none;
}

-- every id with the same row, two sessions each
abbrev database : User → Db tables
database u = record {
  users_now = λ id. some u;
  sessions_now = λ id. 2;
  codes_now = λ id. 0;
  devices_now = λ id. 0;
  invitations_now = λ id. 0;
  links_now = λ id. [];
}

abbrev admin : Actor
admin = record { admin_id = 1; role_level = 90; can_assign_peer_level = false }

abbrev find_roles : List ℕ → List RoleRow
find_roles ids = record { id = 3; level = 10 } ∷ []

abbrev active_user : User
active_user = record new_user { status = active }

abbrev dto : RolesDto
dto = record { role_ids = some (3 ∷ []); is_credential_enabled = none }

abbrev after_suspension : Db tables
after_suspension = record (database active_user) {
  users_now = λ j.
      if 7 == j
      then some (record active_user {
        status = suspended;
        suspended_at = some 100;
        suspended_by = some 1;
        is_credential_enabled = false;
      })
      else some active_user;
  sessions_now = λ j. if 7 == j then 0 else 2;
  codes_now = λ j. if 7 == j then 0 else 0;
  devices_now = λ j. if 7 == j then 0 else 0;
}

run_method-Changed_example :
    Changed tables (changes do_suspend) (database active_user) after_suspension 7
unfolding run_method suspend find_unique suspend_user_in_tx delete_credential_artifacts
    delete_sessions
run_method-Changed_example =
    run_method-Changed tables find_roles do_suspend (database active_user) (database active_user)
      after_suspension 100 7 admin refl

suspend-LockedOut_example : LockedOut tables (database active_user) after_suspension 7
unfolding suspend find_unique suspend_user_in_tx delete_credential_artifacts delete_sessions
suspend-LockedOut_example =
    suspend-LockedOut tables find_roles (database active_user) (database active_user)
      after_suspension 100 7 admin refl

abbrev suspended_user : User
suspended_user = record new_user { status = suspended; is_credential_enabled = false }

abbrev after_deactivation : Db tables
after_deactivation = record (database suspended_user) {
  users_now = λ j.
      if 7 == j
      then some (record suspended_user {
        status = inactive;
        reviewed_by = some 1;
        reviewed_at = some 100;
        deactivated_at = some 100;
        deactivated_by = some 1;
      })
      else some suspended_user;
  sessions_now = λ j. if 7 == j then 0 else 2;
}

switch_auth_provider-unsuspend_example :
    (db' db'' : Db tables) × (switch_auth_provider tables find_roles
        (database new_user)
        (database new_user)
        100
        7
        admin
        0
        false
        []
      ≡ ok db')
    × (unsuspend tables find_roles db' db' 100 7 admin [] ≡ ok db'')
    × (status_of tables 7 db'' ≡ some active)
unfolding find_unique
switch_auth_provider-unsuspend_example =
    switch_auth_provider-unsuspend tables find_roles 100 7 admin (database new_user) new_user 0 []
      refl refl refl refl

-- two users get roles, and the first gets others
abbrev calls : List (ℕ × List ℕ)
calls = (7, 1 ∷ 2 ∷ []) ∷ (8, 3 ∷ []) ∷ (7, 2 ∷ 4 ∷ []) ∷ []

sync_all-refines_example :
    assignment tables (sync_all tables (database new_user) calls)
    ≡ assign_all (assignment tables (database new_user)) calls
sync_all-refines_example = sync_all-refines tables (database new_user) calls
