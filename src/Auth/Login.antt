-- ===== src/Auth/Login.antt =====
-- `validateLoginCredentials` of auth.service.ts, `recordFailedAttempt` of user.service.ts and what
-- they call of user.repository.ts. `by_email` is the unique index of the users table on the email,
-- `compare` is the password hash's comparison. A request reads the user in the state `seen` and
-- writes in the state `db` that the table is in after the comparison, which takes long.
pub mod Lockout
pub mod Decision
pub mod Gaps
use ewu_taks.Base.{
  ℕ, ◌+◌, ◌*◌, ◌-◌, ◌/◌, ◌%◌, ◌^◌, min, Option, none, some, Bool, true, false, not, ◌||◌, ◌&&◌,
  if◌then◌else◌, Text, ◌==◌, ltb, Result, ok, err,
}
use ewu_taks.Domain.{
  Table, holds, User, UserStatus, pending, active, suspended, inactive, rejected, invited, revoked,
}

abbrev pub max_login_attempts : ℕ
max_login_attempts = 5

-- 15 minutes and 24 hours in milliseconds
abbrev pub lockout_duration_ms : ℕ
lockout_duration_ms = 900000

abbrev pub max_lockout_duration_ms : ℕ
max_lockout_duration_ms = 86400000

-- `AuthErrorCode`; `record_not_found` is Prisma's P2025, which the login does not catch.
pub data LoginError : Type 0 where
  invalid_credentials account_locked deleted_account pending_account : LoginError
  rejected_account suspended_account inactive_account invited_account : LoginError
  revoked_account credentials_disabled record_not_found : LoginError

-- The lockout that the failed attempt of this number starts.
unfoldable pub lockout_duration : ℕ → Option ℕ
lockout_duration new_attempts =
    if new_attempts % max_login_attempts == 0
    then some (
        min (lockout_duration_ms * 2 ^ (new_attempts / max_login_attempts - 1))
          max_lockout_duration_ms)
    else none

abbrev pub add_time : ℕ → Option ℕ → Option ℕ → Option ℕ
add_time now none old = old
add_time now (some duration) old = some (now + duration)

-- What a failed attempt writes: the new count, and the end of a lockout that it starts.
unfoldable pub failed_attempt : ℕ → ℕ → User → User
unfolding lockout_duration
failed_attempt now new_attempts u = record u {
  login_attempts = new_attempts;
  login_attempts_lockout = add_time now (lockout_duration new_attempts) u.login_attempts_lockout;
}

abbrev pub is_after : Option ℕ → ℕ → Bool
is_after none now = false
is_after (some time) now = ltb now time

-- The checks after the password's.
unfoldable pub check_status : User → Result LoginError User
check_status user = if user.is_deleted then err deleted_account else elim user.status [
  | pending ↦ err pending_account
  | rejected ↦ err rejected_account
  | suspended ↦ err suspended_account
  | inactive ↦ err inactive_account
  | invited ↦ err invited_account
  | revoked ↦ err revoked_account
  | active ↦ if user.is_credential_enabled then ok user else err credentials_disabled
]

module _ (users : Table User) (by_email : users.State → Text → Option ℕ)
    (compare : Text → Text → Bool) where
  open users use {find, write}

  -- The row of the email that meets a condition, with its id.
  abbrev pub row_where : users.State → Text → (User → Bool) → Option (ℕ × User)
  row_where s email p = elim (by_email s email) [
    | none ↦ none
    | some id ↦ elim (find s id) [ none ↦ none | some u ↦ if p u then some (id, u) else none ]
  ]

  -- `findForLogin`: first the users that are not deleted, then those that are.
  unfoldable pub find_for_login : users.State → Text → Option (ℕ × User)
  find_for_login s email = elim (row_where s email (λ u. not u.is_deleted)) [
    | some row ↦ some row
    | none ↦ row_where s email (λ u. u.is_deleted)
  ]

  -- `recordFailedAttempt`: the count comes from the row as it was read. `none` is P2025: the
  -- soft-delete extension hides the row of a deleted user from the update.
  unfoldable pub record_failed_attempt : users.State → ℕ → ℕ → ℕ → Option users.State
  unfolding failed_attempt
  record_failed_attempt db now id seen_attempts =
      if holds (λ u. not u.is_deleted) (find db id)
      then some (write db id (failed_attempt now (seen_attempts + 1)))
      else none

  -- `clearLoginAttempts`, after a login
  unfoldable pub clear_login_attempts : users.State → ℕ → ℕ → Option users.State
  clear_login_attempts db now id =
      if holds (λ u. not u.is_deleted) (find db id)
      then some (
          write db id λ u. record u {
            login_attempts = 0;
            login_attempts_lockout = none;
            last_login_at = some now;
          })
      else none

  unfoldable pub validate_login_credentials :
      users.State → users.State → ℕ → Text → Text → Result LoginError User × users.State
  unfolding find_for_login record_failed_attempt check_status
  validate_login_credentials seen db now email password = elim (find_for_login seen email) [
    | none ↦ (err invalid_credentials, db)
    | some (id, user) ↦ elim user.password_hash [
      | none ↦ (err invalid_credentials, db)
      | some hash ↦
          if is_after user.login_attempts_lockout now
          then (err account_locked, db)
          else if compare password hash
          then (check_status user, db)
          else elim (record_failed_attempt db now id user.login_attempts) [
            | none ↦ (err record_not_found, db)
            | some db' ↦ (err invalid_credentials, db')
          ]
    ]
  ]
