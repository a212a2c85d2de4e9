-- ===== src/Auth/Password/Reset.antt =====
-- What a password reset leaves.
use ewu_taks.Base.{
  ℕ, Option, none, some, Bool, true, false, if◌then◌else◌, Text, nat_eq, ◌==◌, ==_iff, Result, ok,
  err, ◌≡◌, refl, ap, ◌∙◌, arith, Option-cases, Bool-cases, inl, inr,
}
use ewu_taks.Domain.{Table, User, holds, status_beq, suspended, active}
use ewu_taks.Auth.Tables.{Finder, SessionRows, equals_text, equals_text-some}
use ewu_taks.Auth.Login.{is_after, find_for_login, validate_login_credentials}
use ewu_taks.Auth.Login.Decision.{validate_login_credentials-allowed}
use ewu_taks.Auth.Login.Lockout.{find_for_login_iff}
use ewu_taks.Auth.Password.{
  PasswordDb, PasswordError, InviteStatus, invalid_link, is_expired, reset_token_ttl_ms,
  is_password, find_by_reset_token, reset_password, validate_reset_token,
  update_password_and_revoke_sessions, update_password_with_rotation, delete_all_by_user_id,
}

-- The row after a password reset.
abbrev pub rotated : Text → User → User
rotated new_hash u = record u {
  previous_password_hash = u.password_hash;
  password_hash = some new_hash;
  reset_token = none;
  password_reset_requested_at = none;
}

module _ (users : Table User) (finder : Finder users) (sessions : SessionRows)
    (hash_token : Text → Text) (hash : Text → Text) (compare : Text → Text → Bool)
    (invite_status : users.State → ℕ → Option InviteStatus) where
  open users use {find, write}

  abbrev pub Db : Type 0
  Db = PasswordDb users finder sessions hash_token hash compare invite_status

  abbrev pub reset : Db → ℕ → Text → Text → Result PasswordError Db
  reset = reset_password users finder sessions hash_token hash compare invite_status

  -- A reset of the password of a user, from one state to the next.
  pub record IsReset (db db' : Db) (now : ℕ) (token new_password : Text) (id : ℕ) (u : User)
      : Type 0 where
    pub found : find db.users_now id ≡ some u
    pub alive : u.is_deleted ≡ false
    pub has_token : u.reset_token ≡ some (hash_token token)
    pub not_suspended : status_beq u.status suspended ≡ false
    pub in_time : is_expired reset_token_ttl_ms now u.password_reset_requested_at ≡ false
    pub not_current :
        is_password users finder sessions hash_token hash compare invite_status new_password
          u.password_hash
        ≡ false
    pub not_previous :
        is_password users finder sessions hash_token hash compare invite_status new_password
          u.previous_password_hash
        ≡ false
    pub users_after : db'.users_now ≡ write db.users_now id (rotated (hash new_password))
    pub sessions_after :
        (j : ℕ)
        → sessions.find db'.sessions_now j ≡ (
            if holds (λ x. x.user_id == id) (sessions.find db.sessions_now j)
            then none
            else sessions.find db.sessions_now j)

  reset_password-IsReset :
      (db db' : Db) (now : ℕ) (token new_password : Text)
      → reset db now token new_password ≡ ok db'
      → (id : ℕ) × (u : User) × IsReset db db' now token new_password id u
  unfolding reset_password find_by_reset_token update_password_and_revoke_sessions
      update_password_with_rotation delete_all_by_user_id
  reset_password-IsReset db db' now token new_password h =
      let p = λ (u : User). equals_text u.reset_token (hash_token token) in
      elim (Option-cases (finder.find_first db.users_now p)) [
        | inl missing ↦ absurd (ground (arith, missing))
        | inr ((id, u), there) ↦
            let (found, holds_p, alive) = finder.find_first-found db.users_now p id u there in
            let rows_after : db'.sessions_now
                ≡ sessions.delete_many db.sessions_now (λ k x. x.user_id == id) =
              ground (arith, there) in
            (
              id,
              u,
              record {
                found = found;
                alive = alive;
                has_token = equals_text-some u.reset_token (hash_token token) holds_p;
                not_suspended = ground (arith, there);
                in_time = ground (arith, there);
                not_current = ground (arith, there);
                not_previous = ground (arith, there);
                users_after = ground (arith, there);
                sessions_after = λ j.
                    ap (λ (rows : sessions.State). sessions.find rows j) rows_after
                    ∙ sessions.find-delete_many db.sessions_now (λ k x. x.user_id == id) j;
              },
            )
      ]

  -- No two users that are not deleted hold the same reset token.
  abbrev pub HasUniqueTokens : users.State → Type 0
  HasUniqueTokens s =
      (i j : ℕ) (u v : User) (t : Text)
      → find s i ≡ some u
      → find s j ≡ some v
      → u.is_deleted ≡ false
      → v.is_deleted ≡ false
      → u.reset_token ≡ some t
      → v.reset_token ≡ some t
      → i ≡ j

  find-after :
      (db db' : Db) (now : ℕ) (token new_password : Text) (id : ℕ) (u : User)
      → IsReset db db' now token new_password id u
      → (j : ℕ)
      → find db'.users_now j
        ≡ (if id == j then some (rotated (hash new_password) u) else find db.users_now j)
  find-after db db' now token new_password id u r j = ground (
    arith,
    r.users_after,
    users.find-write db.users_now id j (rotated (hash new_password)),
    r.found,
    ==_iff id j,
  )

  token_gone :
      (db db' : Db) (now : ℕ) (token new_password : Text) (id : ℕ) (u : User)
      → HasUniqueTokens db.users_now
      → IsReset db db' now token new_password id u
      → finder.find_first db'.users_now (λ v. equals_text v.reset_token (hash_token token)) ≡ none
  token_gone db db' now token new_password id u unique r =
      let p = λ (v : User). equals_text v.reset_token (hash_token token) in
      elim (Option-cases (finder.find_first db'.users_now p)) [
        | inl missing ↦ missing
        | inr ((j, v), there) ↦
            let (found, holds_p, alive) = finder.find_first-found db'.users_now p j v there in
            let held = equals_text-some v.reset_token (hash_token token) holds_p in
            let row = find-after db db' now token new_password id u r j in
            elim (Bool-cases (id == j)) [
              | inl same ↦ absurd (ground (arith, row, same, found, held))
              | inr other ↦
                  let old : find db.users_now j ≡ some v = ground (arith, row, other, found) in
                  let same =
                    unique id j u v (hash_token token) r.found old r.alive alive r.has_token held in
                  absurd (ground (arith, same, other, ==_iff id j))
            ]
      ]

  -- A reset token works once: where no two users hold the same token, after a reset that returns the
  -- same token is refused, whatever the time and the password, and so is its validation.
  pub reset_password-once :
      (db db' : Db) (now : ℕ) (token new_password : Text)
      → HasUniqueTokens db.users_now
      → reset db now token new_password ≡ ok db'
      → (later : ℕ) (password : Text)
      → (reset db' later token password ≡ err invalid_link)
        × (validate_reset_token users finder sessions hash_token hash compare invite_status db'
              later token
            ≡ err invalid_link)
  unfolding reset_password validate_reset_token find_by_reset_token
  reset_password-once db db' now token new_password unique h later password =
      let (id, u, r) = reset_password-IsReset db db' now token new_password h in
      let gone = token_gone db db' now token new_password id u unique r in
      (ground (arith, gone), ground (arith, gone))

  -- After a reset that returns, the new password logs in: for the active user of an email who holds
  -- the token, is not deleted, has its credentials on and is not locked out at the time of the login,
  -- where no two users hold the same token, a password fits its own hash, and a write that keeps the
  -- emails keeps the index on them.
  pub reset_password-login :
      (by_email : users.State → Text → Option ℕ)
      → ((s : users.State) (id : ℕ) (f : User → User) (email : Text)
          → ((v : User) → (f v).email ≡ v.email)
          → by_email (write s id f) email ≡ by_email s email)
      → ((password : Text) → compare password (hash password) ≡ true)
      → (db db' : Db) (now later id : ℕ) (email token new_password : Text) (u : User)
      → HasUniqueTokens db.users_now
      → reset db now token new_password ≡ ok db'
      → find_for_login users by_email compare db.users_now email ≡ some (id, u)
      → u.reset_token ≡ some (hash_token token)
      → u.is_deleted ≡ false
      → u.status ≡ active
      → u.is_credential_enabled ≡ true
      → is_after u.login_attempts_lockout later ≡ false
      → (validate_login_credentials users by_email compare db'.users_now db'.users_now later email
          new_password).0
        ≡ ok (rotated (hash new_password) u)
  reset_password-login by_email law fits db db' now later id email token new_password u unique h
        found held alive is_active enabled unlocked =
      let (i, v, r) = reset_password-IsReset db db' now token new_password h in
      let (indexed, row) =
        (find_for_login_iff users by_email compare db.users_now email id u).0 found in
      let same : i ≡ id =
        unique i id v u (hash_token token) r.found row r.alive alive r.has_token held in
      let same_row : v ≡ u = ground (arith, r.found, row, same) in
      let after : find db'.users_now id ≡ some (rotated (hash new_password) u) =
        ground
          (arith, find-after db db' now token new_password i v r id, same, same_row, ==_iff i id) in
      let indexed' : by_email db'.users_now email ≡ some id =
        ap (λ (s : users.State). by_email s email) r.users_after
        ∙ law db.users_now i (rotated (hash new_password)) email (λ w. refl)
        ∙ indexed in
      (validate_login_credentials-allowed users by_email compare db'.users_now db'.users_now later
          email new_password (rotated (hash new_password) u)).1
        (
          id,
          (find_for_login_iff users by_email compare db'.users_now email id
                (rotated (hash new_password) u)).1
              (indexed', after),
          record {
            hash = hash new_password;
            has_hash = refl;
            matches = fits new_password;
            unlocked = unlocked;
            alive = alive;
            is_active = is_active;
            enabled = enabled;
          },
        )
