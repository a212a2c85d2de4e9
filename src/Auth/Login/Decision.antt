-- ===== src/Auth/Login/Decision.antt =====
-- Who may log in, and what a wrong password shows.
use ewu_taks.Base.{
  ℕ, Option, some, Bool, true, false, not, if◌then◌else◌, Text, ok, err, ◌≡◌, ◌↔◌, arith,
  Option-cases, inl, inr,
}
use ewu_taks.Domain.{Table, holds, User, active}
use ewu_taks.Auth.Login.{
  invalid_credentials, account_locked, is_after, find_for_login, check_status,
  record_failed_attempt, validate_login_credentials,
}

-- What a user must meet to log in with a password.
pub record CanLogIn (compare : Text → Text → Bool) (now : ℕ) (password : Text) (u : User)
    : Type 0 where
  pub hash : Text
  pub has_hash : u.password_hash ≡ some hash
  pub matches : compare password hash ≡ true
  pub unlocked : is_after u.login_attempts_lockout now ≡ false
  pub alive : u.is_deleted ≡ false
  pub is_active : u.status ≡ active
  pub enabled : u.is_credential_enabled ≡ true

check_status-ok :
    (u v : User)
    → check_status u ≡ ok v
    → (u ≡ v) × (u.is_deleted ≡ false) × (u.status ≡ active) × (u.is_credential_enabled ≡ true)
unfolding check_status
check_status-ok u v h = (ground arith, ground arith, ground arith, ground arith)

module _ (users : Table User) (by_email : users.State → Text → Option ℕ)
    (compare : Text → Text → Bool) where
  can_log_in :
      (seen db : users.State) (now id : ℕ) (email password : Text) (u v : User)
      → find_for_login users by_email compare seen email ≡ some (id, v)
      → (validate_login_credentials users by_email compare seen db now email password).0 ≡ ok u
      → (v ≡ u) × CanLogIn compare now password v
  unfolding validate_login_credentials record_failed_attempt
  can_log_in seen db now id email password u v found h = elim (Option-cases v.password_hash) [
    | inl missing ↦ absurd (ground arith)
    | inr (hash, has_hash) ↦
        let unlocked : is_after v.login_attempts_lockout now ≡ false =
          ground (arith, found, has_hash) in
        let matches : compare password hash ≡ true = ground (arith, found, has_hash, unlocked) in
        let (same, alive, is_active, enabled) =
          check_status-ok v u (ground (arith, found, has_hash, unlocked, matches)) in
        (
          same,
          record {
            hash = hash;
            has_hash = has_hash;
            matches = matches;
            unlocked = unlocked;
            alive = alive;
            is_active = is_active;
            enabled = enabled;
          },
        )
  ]

  log_in :
      (seen db : users.State) (now id : ℕ) (email password : Text) (u : User)
      → find_for_login users by_email compare seen email ≡ some (id, u)
      → CanLogIn compare now password u
      → (validate_login_credentials users by_email compare seen db now email password).0 ≡ ok u
  unfolding validate_login_credentials record_failed_attempt check_status
  log_in seen db now id email password u found c =
      ground (arith, found, c.has_hash, c.matches, c.unlocked, c.alive, c.is_active, c.enabled)

  -- The login returns a user exactly if it is the one of the email and may log in: it has a
  -- password, which matches, it is not locked out, not deleted, active, and has its credentials on.
  pub validate_login_credentials-allowed :
      (seen db : users.State) (now : ℕ) (email password : Text) (u : User)
      → ((validate_login_credentials users by_email compare seen db now email password).0 ≡ ok u)
        ↔ ((id : ℕ) × (find_for_login users by_email compare seen email ≡ some (id, u))
            × CanLogIn compare now password u)
  unfolding validate_login_credentials
  validate_login_credentials-allowed seen db now email password u = (
    λ h. elim (Option-cases (find_for_login users by_email compare seen email)) [
      | inl missing ↦ absurd (ground arith)
      | inr ((id, v), found) ↦
          let (same, c) = can_log_in seen db now id email password u v found h in
          (id, ground (arith, found, same), rw (← same) c)
    ],
    λ (id, found, c). log_in seen db now id email password u found c,
  )

  -- A wrong password for a user with a password who is not deleted when the attempt is recorded is
  -- answered in the same way whatever the status of the user is and whether its credentials are
  -- on: only a lockout shows.
  pub validate_login_credentials-wrong_password :
      (seen db : users.State) (now id : ℕ) (email password hash : Text) (u : User)
      → find_for_login users by_email compare seen email ≡ some (id, u)
      → u.password_hash ≡ some hash
      → compare password hash ≡ false
      → holds (λ v. not v.is_deleted) (users.find db id) ≡ true
      → (validate_login_credentials users by_email compare seen db now email password).0
        ≡ err
            (if is_after u.login_attempts_lockout now then account_locked else invalid_credentials)
  unfolding validate_login_credentials record_failed_attempt
  validate_login_credentials-wrong_password seen db now id email password hash u found has_hash
        wrong alive =
      ground (arith, found, has_hash, wrong, alive)
