-- ===== src/Domain/UserRow.antt =====
-- The user row.
use ewu_taks.Base.{ℕ, Bool, Option, Text, true, false, ◌≡◌, arith}

pub data UserStatus : Type 0 where
  pending active suspended inactive rejected invited revoked : UserStatus

abbrev pub status_beq : UserStatus → UserStatus → Bool
status_beq pending pending = true
status_beq active active = true
status_beq suspended suspended = true
status_beq inactive inactive = true
status_beq rejected rejected = true
status_beq invited invited = true
status_beq revoked revoked = true
status_beq _ _ = false

pub status_beq_lem : (a b : UserStatus) → status_beq a b ≡ true → a ≡ b
status_beq_lem a b h = ground arith

-- Times are milliseconds; `none` is null.
pub record User : Type 0 where
  pub email : Text
  pub status : UserStatus
  pub password_hash : Option Text
  pub previous_password_hash : Option Text
  pub is_credential_enabled : Bool
  pub set_password_token : Option Text
  pub set_password_requested_at : Option ℕ
  pub reset_token : Option Text
  pub password_reset_requested_at : Option ℕ
  pub login_attempts : ℕ
  pub login_attempts_lockout : Option ℕ
  pub last_login_at : Option ℕ
  pub reviewed_by : Option ℕ
  pub reviewed_at : Option ℕ
  pub rejection_reason : Option Text
  pub suspended_at : Option ℕ
  pub suspended_by : Option ℕ
  pub deactivated_at : Option ℕ
  pub deactivated_by : Option ℕ
  pub is_deleted : Bool
  pub deleted_at : Option ℕ
  pub deleted_by : Option ℕ
  pub is_two_factor_enabled : Bool
  pub is_two_factor_enforced : Bool
  pub two_factor_secret : Option Text
  pub two_factor_confirmed_at : Option ℕ
  pub two_factor_attempts : ℕ
  pub two_factor_attempts_lockout : Option ℕ
  pub two_factor_grace_period_end : Option ℕ
  pub two_factor_recovery_token : Option Text
  pub two_factor_recovery_requested_at : Option ℕ
