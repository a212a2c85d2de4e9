-- ===== src/Auth/SecondFactor.antt =====
-- The setup of the second factor: the other methods of two-factor.service.ts with what they call of
-- user.repository.ts, backup-code.repository.ts, trusted-device.repository.ts and
-- session.repository.ts, and the recovery and the confirmation in auth.service.ts. `verify_totp`
-- compares an encrypted secret and a code at a time, `hash` is the password hash, `hash_token`
-- SHA-256. A flow runs as a whole; the cache of sessions is not modelled.
pub mod Requests
pub mod Enabled
pub mod Codes
use ewu_taks.Base.{
  ℕ, ◌+◌, List, [], ◌∷◌, ◌++◌, map, Option, none, some, Bool, true, false, not, ◌&&◌, ◌||◌,
  if◌then◌else◌, Text, ◌==◌, nat_eq, is_some, length, Result, ok, err, ◌>>=◌, ◌>>◌, require,
}
use ewu_taks.Domain.{Table, Owned, User, holds}
use ewu_taks.Auth.Tables.{Finder, SessionRows, find_user, update_user, equals_text}
use ewu_taks.Auth.Password.{is_expired, is_recent}
use ewu_taks.Auth.BackupCodes.{
  BackupCode, delete_codes, create_codes, verify_backup_code, count_unused_by_user_id,
}

abbrev pub recovery_token_ttl_ms : ℕ
recovery_token_ttl_ms = 3600000

abbrev pub recovery_cooldown_ms : ℕ
recovery_cooldown_ms = 120000

pub data TwoFactorError : Type 0 where
  already_enabled not_enabled not_initiated is_enforced invalid_code : TwoFactorError
  not_active invalid_link record_not_found : TwoFactorError

-- `ITwoFactorStatus`
pub record TwoFactorStatus : Type 0 where
  pub is_enabled : Bool
  pub confirmed_at : Option ℕ
  pub backup_codes_remaining : ℕ
  pub enforced : Bool
  pub grace_period_end : Option ℕ

-- The data of `enableTwoFactor`.
abbrev pub enabled : ℕ → User → User
enabled now u = record u {
  is_two_factor_enabled = true;
  two_factor_confirmed_at = some now;
  two_factor_attempts = 0;
  two_factor_attempts_lockout = none;
  two_factor_grace_period_end = none;
}

-- The data of `disableTwoFactor`.
abbrev pub disabled : User → User
disabled u = record u {
  is_two_factor_enabled = false;
  two_factor_secret = none;
  two_factor_confirmed_at = none;
  two_factor_attempts = 0;
  two_factor_attempts_lockout = none;
  two_factor_grace_period_end = none;
}

-- The data of `adminDisableTwoFactor`.
abbrev pub admin_disabled : User → User
admin_disabled u = record u {
  is_two_factor_enabled = false;
  is_two_factor_enforced = false;
  two_factor_secret = none;
  two_factor_confirmed_at = none;
  two_factor_attempts = 0;
  two_factor_attempts_lockout = none;
  two_factor_grace_period_end = none;
}

-- The data of `updateTwoFactorSecret`.
abbrev pub with_secret : Text → User → User
with_secret secret u = record u {
  two_factor_secret = some secret;
  two_factor_confirmed_at = none;
  is_two_factor_enabled = false;
}

abbrev pub cleared_recovery : User → User
cleared_recovery u = record u {
  two_factor_recovery_token = none;
  two_factor_recovery_requested_at = none;
}

module _ (users : Table User) (finder : Finder users) (sessions : SessionRows) (devices : Owned)
    (verify_totp : Text → Text → ℕ → Bool) (hash : Text → Text) (compare : Text → Text → Bool)
    (hash_token : Text → Text) where
  open users use {find, write}

  pub record FactorDb : Type 0 where
    pub users_now : users.State
    pub codes_now : List BackupCode
    pub next_code : ℕ
    pub devices_now : devices.State
    pub sessions_now : sessions.State

  -- An update of the user; P2025 where there is no row to update.
  abbrev pub update_row : FactorDb → ℕ → (User → User) → Result TwoFactorError FactorDb
  update_row db user_id f = elim (update_user users db.users_now user_id f) [
    | none ↦ err record_not_found
    | some s ↦ ok (record db { users_now = s })
  ]

  abbrev pub replace_codes : FactorDb → ℕ → List Text → FactorDb
  replace_codes db user_id plain = record db {
    codes_now =
        delete_codes db.codes_now user_id ++ create_codes db.next_code user_id (map hash plain);
    next_code = db.next_code + length plain;
  }

  abbrev pub delete_codes_and_devices : FactorDb → ℕ → FactorDb
  delete_codes_and_devices db user_id = record db {
    codes_now = delete_codes db.codes_now user_id;
    devices_now = devices.delete_all db.devices_now user_id;
  }

  abbrev pub fits_secret : Option Text → Text → ℕ → Bool
  fits_secret none code now = false
  fits_secret (some secret) code now = verify_totp secret code now

  -- `generateSetup`, with the encrypted secret
  unfoldable pub generate_setup : FactorDb → ℕ → Text → Result TwoFactorError FactorDb
  generate_setup db user_id secret =
      require (not (holds (λ u. u.is_two_factor_enabled) (find_user users db.users_now user_id)))
        already_enabled
      >> update_row db user_id (with_secret secret)

  -- `confirmSetup`, with the plain codes
  unfoldable pub confirm_setup :
      FactorDb → ℕ → ℕ → Text → List Text → Result TwoFactorError (List Text × FactorDb)
  confirm_setup db now user_id code plain = elim (find_user users db.users_now user_id) [
    | none ↦ err not_initiated
    | some u ↦
        require (is_some u.two_factor_secret) not_initiated
        >> require (not u.is_two_factor_enabled) already_enabled
        >> require (fits_secret u.two_factor_secret code now) invalid_code
        >> (update_row db user_id (enabled now) >>= λ db'.
            ok (plain, replace_codes db' user_id plain))
  ]

  -- `confirmTwoFactorSetup` of auth.service.ts: the other sessions go.
  unfoldable pub confirm_two_factor_setup :
      FactorDb → ℕ → ℕ → Text → List Text → ℕ → Result TwoFactorError (List Text × FactorDb)
  confirm_two_factor_setup db now user_id code plain current =
      confirm_setup db now user_id code plain >>= λ r. ok (
        r.0,
        record r.1 {
          sessions_now =
              sessions.delete_many (r.1).sessions_now
                (λ j x. x.user_id == user_id && not (j == current));
        },
      )

  -- `verifyCode`; the row is read by its id, deleted or not.
  unfoldable pub verify_code : FactorDb → ℕ → ℕ → Text → Bool
  verify_code db now user_id code = elim (find db.users_now user_id) [
    | none ↦ false
    | some u ↦ fits_secret u.two_factor_secret code now
  ]

  unfoldable pub disable : FactorDb → ℕ → ℕ → Text → Result TwoFactorError FactorDb
  disable db now user_id code = elim (find db.users_now user_id) [
    | none ↦ err not_enabled
    | some u ↦
        require (u.is_two_factor_enabled && is_some u.two_factor_secret) not_enabled
        >> require (not u.is_two_factor_enforced) is_enforced
        >> require (fits_secret u.two_factor_secret code now) invalid_code
        >> (update_row db user_id disabled >>= λ db'. ok (delete_codes_and_devices db' user_id))
  ]

  unfoldable pub regenerate_backup_codes :
      FactorDb → ℕ → ℕ → Text → List Text → Result TwoFactorError (List Text × FactorDb)
  regenerate_backup_codes db now user_id code plain = elim (find_user users db.users_now user_id) [
    | none ↦ err not_enabled
    | some u ↦
        require (u.is_two_factor_enabled && is_some u.two_factor_secret) not_enabled
        >> require (fits_secret u.two_factor_secret code now) invalid_code
        >> ok (plain, replace_codes db user_id plain)
  ]

  unfoldable pub get_status : FactorDb → ℕ → TwoFactorStatus
  get_status db user_id = elim (find_user users db.users_now user_id) [
    | none ↦ record {
      is_enabled = false;
      confirmed_at = none;
      backup_codes_remaining = 0;
      enforced = false;
      grace_period_end = none;
    }
    | some u ↦ record {
      is_enabled = u.is_two_factor_enabled;
      confirmed_at = u.two_factor_confirmed_at;
      backup_codes_remaining =
          if u.is_two_factor_enabled then count_unused_by_user_id db.codes_now user_id else 0;
      enforced = u.is_two_factor_enforced;
      grace_period_end = u.two_factor_grace_period_end;
    }
  ]

  unfoldable pub admin_disable : FactorDb → ℕ → Result TwoFactorError FactorDb
  admin_disable db user_id =
      require
        (holds (λ u. u.is_two_factor_enabled || u.is_two_factor_enforced)
          (find_user users db.users_now user_id))
        not_active
      >> (update_row db user_id admin_disabled >>= λ db'. ok (delete_codes_and_devices db' user_id))

  -- `adminReset`
  unfoldable pub admin_reset : FactorDb → ℕ → Bool → Result TwoFactorError FactorDb
  admin_reset db user_id clear_recovery_token = update_row db user_id admin_disabled >>= λ db'.
      let removed = delete_codes_and_devices db' user_id in
      let signed_out = record removed {
        sessions_now = sessions.delete_many removed.sessions_now (λ j x. x.user_id == user_id);
      } in
      if clear_recovery_token then update_row signed_out user_id cleared_recovery else ok signed_out

  -- `requestTwoFactorRecovery` for the user of the token
  unfoldable pub request_recovery : FactorDb → ℕ → ℕ → Text → Result TwoFactorError FactorDb
  request_recovery db now user_id raw_token = elim (find_user users db.users_now user_id) [
    | none ↦ ok db
    | some u ↦
        if not u.is_two_factor_enabled
        then ok db
        else if is_recent recovery_cooldown_ms now u.two_factor_recovery_requested_at
        then ok db
        else update_row db user_id λ v. record v {
          two_factor_recovery_token = some (hash_token raw_token);
          two_factor_recovery_requested_at = some now;
        }
  ]

  -- `confirmTwoFactorRecovery`
  unfoldable pub confirm_recovery : FactorDb → ℕ → Text → Result TwoFactorError FactorDb
  confirm_recovery db now raw_token =
      elim (finder.find_first db.users_now
        (λ u. equals_text u.two_factor_recovery_token (hash_token raw_token))) [
          | none ↦ err invalid_link
          | some (id, u) ↦
              require u.is_two_factor_enabled invalid_link
              >> require
                  (not (is_expired recovery_token_ttl_ms now u.two_factor_recovery_requested_at))
                  invalid_link
              >> admin_reset db id true
        ]
