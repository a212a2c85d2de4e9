-- ===== src/Auth/TwoFactor.antt =====
-- The counting of failed codes in two-factor.service.ts: `checkLockout`,
-- `checkAndRecordFailedAttempt` and `clearAttempts`, with what they call of user.repository.ts.
-- The limits come from the configuration. No other request comes between the two writes of a
-- failed attempt.
pub mod Guesses
use ewu_taks.Base.{
  ℕ, ◌+◌, Option, none, some, Bool, true, false, not, ◌&&◌, if◌then◌else◌, leb, ltb,
}
use ewu_taks.Domain.{Table, holds, map_option, User}

-- The count after a failed code and the end of an earlier lockout.
unfoldable pub failed_code : ℕ → User → User
failed_code now u = record u {
  two_factor_attempts = elim u.two_factor_attempts_lockout [
    | none ↦ u.two_factor_attempts + 1
    | some until ↦ if leb until now then 1 else u.two_factor_attempts + 1
  ];
  two_factor_attempts_lockout = none;
}

module _ (users : Table User) where
  open users use {find, write}

  abbrev pub is_live : users.State → ℕ → Bool
  is_live db id = holds (λ u. not u.is_deleted) (find db id)

  -- `setTwoFactorLockout`; `none` is P2025.
  unfoldable pub set_two_factor_lockout : users.State → ℕ → ℕ → Option users.State
  set_two_factor_lockout db id until =
      if is_live db id
      then some (write db id λ u. record u { two_factor_attempts_lockout = some until })
      else none

  -- The transaction of `checkAndRecordFailedAttempt`, and the lockout if the count is too high.
  unfoldable pub check_and_record_failed_attempt : ℕ → ℕ → users.State → ℕ → ℕ → Option users.State
  unfolding failed_code set_two_factor_lockout
  check_and_record_failed_attempt max_attempts lockout_ms db now id =
      if is_live db id
      then (let updated = write db id (failed_code now) in
          if holds (λ u. leb max_attempts u.two_factor_attempts) (find updated id)
          then set_two_factor_lockout updated id (now + lockout_ms)
          else some updated)
      else none

  -- `checkLockout`: whether it lets the request go on.
  unfoldable pub check_lockout : users.State → ℕ → ℕ → Bool
  check_lockout db now id = not (
      holds
        (λ u.
          not u.is_deleted
          && (elim u.two_factor_attempts_lockout [ none ↦ false | some until ↦ ltb now until ]))
        (find db id))

  -- `clearTwoFactorAttempts`
  unfoldable pub clear_attempts : users.State → ℕ → Option users.State
  clear_attempts db id =
      if is_live db id
      then some (
          write db id λ u. record u { two_factor_attempts = 0; two_factor_attempts_lockout = none })
      else none
