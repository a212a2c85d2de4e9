-- ===== src/Auth/Login/Lockout.antt =====
-- The length of a lockout, and what is answered during it.
use ewu_taks.Base.{
  ℕ, zero, suc, ◌+◌, ◌*◌, ◌-◌, ◌/◌, ◌%◌, ◌^◌, ◌≤◌, ◌<◌, min, Option, some, Bool, true, false,
  ==_iff, Text, err, ◌≡◌, ◌↔◌, ◌∙◌, refl, arith, Option-cases, Bool-cases, inl, inr,
}
use ewu_taks.Domain.{Table, User}
use ewu_taks.Auth.Login.{
  invalid_credentials, account_locked, is_after, find_for_login, failed_attempt, lockout_duration,
  record_failed_attempt, validate_login_credentials,
}

pow-suc : (k : ℕ) → 2 ^ suc k ≡ 2 ^ k * 2
pow-suc k = omega arith

pow-positive : (k : ℕ) → 1 ≤ 2 ^ k
pow-positive zero = omega arith
pow-positive (suc k) = rw (pow-suc k) (ground (arith, pow-positive k))

-- A lockout lasts at least 15 minutes and at most a day, and the next one, five failed attempts
-- later, twice as long within that bound.
pub lockout_duration-doubles :
    (n d : ℕ)
    → 1 ≤ n
    → lockout_duration n ≡ some d
    → (900000 ≤ d) × (d ≤ 86400000) × (lockout_duration (n + 5) ≡ some (min (d * 2) 86400000))
unfolding lockout_duration
lockout_duration-doubles n d positive h =
    let k = n / 5 - 1 in
    let fifth : n % 5 ≡ 0 = ground arith in
    let duration : min (900000 * 2 ^ k) 86400000 ≡ d = ground arith in
    let next : (n + 5) / 5 - 1 ≡ suc k = ground arith in
    let fits : (n + 5) % 5 ≡ 0 = ground arith in
    (
      ground (arith, pow-positive k),
      ground arith,
      rw (fits, next, pow-suc k) (ground (arith, pow-positive k)),
    )

module _ (users : Table User) (by_email : users.State → Text → Option ℕ)
    (compare : Text → Text → Bool) where
  open users use {find, write, find-write}

  -- The login looks up the row of the email, deleted or not.
  pub find_for_login_iff :
      (s : users.State) (email : Text) (id : ℕ) (u : User)
      → (find_for_login users by_email compare s email ≡ some (id, u))
        ↔ ((by_email s email ≡ some id) × (find s id ≡ some u))
  unfolding find_for_login
  find_for_login_iff s email id u = (
    λ h. elim (Option-cases (by_email s email)) [
      | inl missing ↦ absurd (ground arith)
      | inr (i, is) ↦ elim (Option-cases (find s i)) [
        | inl missing ↦ absurd (ground arith)
        | inr (v, at) ↦ elim (Bool-cases v.is_deleted) [
          | inl dead ↦ ground (arith, is, at, dead)
          | inr alive ↦ ground (arith, is, at, alive)
        ]
      ]
    ],
    λ (is, at). elim (Bool-cases u.is_deleted) [
      | inl dead ↦ ground (arith, is, at, dead)
      | inr alive ↦ ground (arith, is, at, alive)
    ],
  )

  -- A wrong password that is looked at is counted in the row.
  wrong_password-write :
      (db : users.State) (now : ℕ) (email wrong hash : Text) (id : ℕ) (u : User)
      → find_for_login users by_email compare db email ≡ some (id, u)
      → u.password_hash ≡ some hash
      → compare wrong hash ≡ false
      → u.is_deleted ≡ false
      → is_after u.login_attempts_lockout now ≡ false
      → validate_login_credentials users by_email compare db db now email wrong
        ≡ (err invalid_credentials, write db id (failed_attempt now (u.login_attempts + 1)))
  unfolding validate_login_credentials record_failed_attempt
  wrong_password-write db now email wrong hash id u found has_hash mismatch alive unlocked =
      let (indexed, at) = (find_for_login_iff db email id u).0 found in
      ground (arith, found, has_hash, mismatch, unlocked, at, alive)

  -- While a lockout lasts, no password is looked at and nothing is written.
  locked_lem :
      (db : users.State) (now : ℕ) (email password hash : Text) (id : ℕ) (u : User)
      → find_for_login users by_email compare db email ≡ some (id, u)
      → u.password_hash ≡ some hash
      → is_after u.login_attempts_lockout now ≡ true
      → validate_login_credentials users by_email compare db db now email password
        ≡ (err account_locked, db)
  unfolding validate_login_credentials
  locked_lem db now email password hash id u found has_hash locked =
      ground (arith, found, has_hash, locked)

  -- The row that a failed attempt leaves is locked for a quarter of an hour if its number is a
  -- multiple of five.
  failed_attempt-locked :
      (now later n : ℕ) (u : User)
      → (n + 1) % 5 ≡ 0
      → later < now + 900000
      → is_after (failed_attempt now (n + 1) u).login_attempts_lockout later ≡ true
  unfolding failed_attempt lockout_duration
  failed_attempt-locked now later n u fifth soon =
      rw fifth (ground (arith, pow-positive ((n + 1) / 5 - 1)))

  -- A wrong password for a user who is not deleted and not locked out, where its number is a
  -- multiple of five and a write that keeps the emails keeps the index on them, locks the user
  -- out: in the state that it leaves, each password that comes less than 15 minutes later is
  -- answered by the code for locked accounts and nothing is written.
  pub validate_login_credentials-locked :
      ((s : users.State) (id : ℕ) (f : User → User) (email : Text)
        → ((v : User) → (f v).email ≡ v.email)
        → by_email (write s id f) email ≡ by_email s email)
      → (db : users.State) (now : ℕ) (email wrong hash : Text) (id : ℕ) (u : User)
      → find_for_login users by_email compare db email ≡ some (id, u)
      → u.password_hash ≡ some hash
      → compare wrong hash ≡ false
      → u.is_deleted ≡ false
      → is_after u.login_attempts_lockout now ≡ false
      → (u.login_attempts + 1) % 5 ≡ 0
      → (later : ℕ) (password : Text) → later < now + 900000
      → let db' = (validate_login_credentials users by_email compare db db now email wrong).1 in
        validate_login_credentials users by_email compare db' db' later email password
        ≡ (err account_locked, db')
  unfolding failed_attempt
  validate_login_credentials-locked law db now email wrong hash id u found has_hash mismatch alive
        unlocked fifth later password soon =
      let f = failed_attempt now (u.login_attempts + 1) in
      let (indexed, at) = (find_for_login_iff db email id u).0 found in
      rw (wrong_password-write db now email wrong hash id u found has_hash mismatch alive unlocked)
        (locked_lem (write db id f) later email password hash id (f u)
          ((find_for_login_iff (write db id f) email id (f u)).1 (
            law db id f email (λ v. refl) ∙ indexed,
            ground (arith, find-write db id id f, ==_iff id id, at),
          ))
          has_hash (failed_attempt-locked now later u.login_attempts u fifth soon))
