-- ===== src/Auth/Login/Gaps.antt =====
-- Two failed attempts that the count of failed attempts does not see.
use ewu_taks.Base.{ℕ, ◌+◌, Option, some, Bool, true, false, ==_iff, Text, err, ◌≡◌, arith}
use ewu_taks.Domain.{Table, map_option, User}
use ewu_taks.Auth.Login.{
  record_not_found, is_after, find_for_login, failed_attempt, record_failed_attempt,
  validate_login_credentials,
}
use ewu_taks.Auth.Login.Lockout.{find_for_login_iff}

module _ (users : Table User) (by_email : users.State → Text → Option ℕ)
    (compare : Text → Text → Bool) where
  open users use {find, write, find-write}

  -- Two wrong passwords for a user who is neither deleted nor locked out count as one failed
  -- attempt if both requests read the row before either of them writes.
  pub validate_login_credentials-lost_update :
      (db : users.State) (now : ℕ) (email wrong hash : Text) (id : ℕ) (u : User)
      → find_for_login users by_email compare db email ≡ some (id, u)
      → u.password_hash ≡ some hash
      → compare wrong hash ≡ false
      → u.is_deleted ≡ false
      → is_after u.login_attempts_lockout now ≡ false
      → let db1 = (validate_login_credentials users by_email compare db db now email wrong).1 in
        let db2 = (validate_login_credentials users by_email compare db db1 now email wrong).1 in
        map_option (λ (v : User). v.login_attempts) (find db2 id) ≡ some (u.login_attempts + 1)
  unfolding validate_login_credentials record_failed_attempt failed_attempt
  validate_login_credentials-lost_update db now email wrong hash id u found has_hash mismatch alive
        unlocked =
      let (indexed, at) = (find_for_login_iff users by_email compare db email id u).0 found in
      let f = failed_attempt now (u.login_attempts + 1) in
      ground (
        arith,
        found,
        has_hash,
        mismatch,
        unlocked,
        at,
        alive,
        find-write db id id f,
        find-write (write db id f) id id f,
        ==_iff id id,
      )

  -- A wrong password for a deleted user with a password and without a lockout is answered by the
  -- error of the update that finds no row, and is not counted.
  pub validate_login_credentials-deleted :
      (db : users.State) (now : ℕ) (email wrong hash : Text) (id : ℕ) (u : User)
      → find_for_login users by_email compare db email ≡ some (id, u)
      → u.password_hash ≡ some hash
      → compare wrong hash ≡ false
      → u.is_deleted ≡ true
      → is_after u.login_attempts_lockout now ≡ false
      → validate_login_credentials users by_email compare db db now email wrong
        ≡ (err record_not_found, db)
  unfolding validate_login_credentials record_failed_attempt
  validate_login_credentials-deleted db now email wrong hash id u found has_hash mismatch dead
        unlocked =
      let (indexed, at) = (find_for_login_iff users by_email compare db email id u).0 found in
      ground (arith, found, has_hash, mismatch, unlocked, at, dead)
