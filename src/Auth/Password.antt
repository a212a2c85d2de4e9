-- ===== src/Auth/Password.antt =====
-- The passwords in auth.service.ts (forgotPassword, validateResetToken, validateSetPasswordToken,
-- resetPassword, setPasswordViaToken, changePassword), with what they call of user.service.ts,
-- user.repository.ts and session.repository.ts. A secure token, the hash of a token (SHA-256) and
-- that of a password (bcrypt, `compare` its comparison) come from packages. No other request comes
-- between what a flow reads and its transaction.
pub mod Reset
pub mod Change
use ewu_taks.Base.{
  ℕ, ◌+◌, ◌-◌, ◌*◌, List, [], ◌∷◌, Option, none, some, Bool, true, false, not, ◌&&◌, ◌||◌,
  if◌then◌else◌, Text, text_beq, ◌==◌, nat_eq, ltb, is_some, Result, ok, err, ◌>>=◌, ◌>>◌, require,
}
use ewu_taks.Domain.{Table, User, holds, status_beq, suspended}
use ewu_taks.Auth.Tables.{Finder, SessionRows, find_user, update_user, equals_text}

abbrev pub reset_token_ttl_ms : ℕ
reset_token_ttl_ms = 60 * 60 * 1000

abbrev pub reset_cooldown_ms : ℕ
reset_cooldown_ms = 2 * 60 * 1000

abbrev pub set_password_token_ttl_ms : ℕ
set_password_token_ttl_ms = 24 * 60 * 60 * 1000

pub data InviteStatus : Type 0 where
  invite_pending invite_accepted invite_revoked : InviteStatus

pub data PasswordError : Type 0 where
  invalid_link credential_reuse previous_credential_reuse current_incorrect : PasswordError
  suspended_account invited_account credentials_disabled record_not_found : PasswordError

-- `!requestedAt || Date.now() - requestedAt > ttl`
abbrev pub is_expired : ℕ → ℕ → Option ℕ → Bool
is_expired ttl now none = true
is_expired ttl now (some requested) = ltb (requested + ttl) now

-- `lastRequest && Date.now() - lastRequest < cooldown`
abbrev pub is_recent : ℕ → ℕ → Option ℕ → Bool
is_recent cooldown now none = false
is_recent cooldown now (some requested) = ltb now (requested + cooldown)

-- Whether the invitation of a user is open or revoked; `none` is no invitation.
abbrev pub is_invited : Option InviteStatus → Bool
is_invited none = false
is_invited (some invite_pending) = true
is_invited (some invite_accepted) = false
is_invited (some invite_revoked) = true

-- `P2025` where an update finds no row
abbrev pub updated : {State : Type 0} → Option State → Result PasswordError State
updated none = err record_not_found
updated (some s) = ok s

module _ (users : Table User) (finder : Finder users) (sessions : SessionRows)
    (hash_token : Text → Text) (hash : Text → Text) (compare : Text → Text → Bool)
    (invite_status : users.State → ℕ → Option InviteStatus) where
  open users use {find, write}

  pub record PasswordDb : Type 0 where
    pub users_now : users.State
    pub sessions_now : sessions.State

  -- `hash && compare(password, hash)`
  abbrev pub is_password : Text → Option Text → Bool
  is_password password none = false
  is_password password (some old) = compare password old

  unfoldable pub find_by_reset_token : PasswordDb → Text → Option (ℕ × User)
  find_by_reset_token db token_hash =
      finder.find_first db.users_now (λ u. equals_text u.reset_token token_hash)

  unfoldable pub find_by_set_password_token : PasswordDb → Text → Option (ℕ × User)
  find_by_set_password_token db token_hash =
      finder.find_first db.users_now (λ u. equals_text u.set_password_token token_hash)

  unfoldable pub set_reset_token : PasswordDb → ℕ → ℕ → Text → Result PasswordError PasswordDb
  set_reset_token db now user_id token_hash =
      updated (
        update_user users db.users_now user_id
          λ u. record u { reset_token = some token_hash; password_reset_requested_at = some now })
      >>= λ s. ok (record db { users_now = s })

  -- What `forgotPassword` does for the row of the email.
  unfoldable pub issue_reset_token :
      PasswordDb → ℕ → Text → ℕ → User → Result PasswordError PasswordDb
  unfolding set_reset_token
  issue_reset_token db now raw_token id u =
      require (not (status_beq u.status suspended)) suspended_account
      >> require (not (is_invited (invite_status db.users_now id))) invited_account
      >> require u.is_credential_enabled credentials_disabled
      >> (if is_recent reset_cooldown_ms now u.password_reset_requested_at
          then ok db
          else set_reset_token db now id (hash_token raw_token))

  -- `forgotPassword`; the message to the user is the same on each return.
  unfoldable pub forgot_password : PasswordDb → ℕ → Text → Text → Result PasswordError PasswordDb
  unfolding issue_reset_token
  forgot_password db now raw_token email =
      elim (finder.find_first db.users_now (λ u. text_beq u.email email)) [
        | none ↦ ok db
        | some (id, u) ↦ issue_reset_token db now raw_token id u
      ]

  unfoldable pub validate_reset_token : PasswordDb → ℕ → Text → Result PasswordError (Unit {0})
  unfolding find_by_reset_token
  validate_reset_token db now token = elim (find_by_reset_token db (hash_token token)) [
    | none ↦ err invalid_link
    | some (id, u) ↦
        require (not (is_expired reset_token_ttl_ms now u.password_reset_requested_at)) invalid_link
  ]

  unfoldable pub validate_set_password_token :
      PasswordDb → ℕ → Text → Result PasswordError (Unit {0})
  unfolding find_by_set_password_token
  validate_set_password_token db now token =
      elim (find_by_set_password_token db (hash_token token)) [
        | none ↦ err invalid_link
        | some (id, u) ↦
            require (not (is_expired set_password_token_ttl_ms now u.set_password_requested_at))
              invalid_link
      ]

  abbrev pub cleared : {A : Type 0} → Bool → Option A → Option A
  cleared true old = none
  cleared false old = old

  -- `updatePasswordWithRotation`
  unfoldable pub update_password_with_rotation :
      PasswordDb → ℕ → Text → Bool → Result PasswordError PasswordDb
  update_password_with_rotation db user_id new_hash clear_reset_token =
      updated (
        update_user users db.users_now user_id λ u. record u {
          previous_password_hash = u.password_hash;
          password_hash = some new_hash;
          reset_token = cleared clear_reset_token u.reset_token;
          password_reset_requested_at = cleared clear_reset_token u.password_reset_requested_at;
        })
      >>= λ s. ok (record db { users_now = s })

  -- `updatePasswordAndClearToken`
  unfoldable pub update_password_and_clear_token :
      PasswordDb → ℕ → Text → Result PasswordError PasswordDb
  update_password_and_clear_token db user_id new_hash =
      updated (
        update_user users db.users_now user_id λ u. record u {
          password_hash = some new_hash;
          set_password_token = none;
          set_password_requested_at = none;
          previous_password_hash = none;
        })
      >>= λ s. ok (record db { users_now = s })

  -- `deleteAllByUserId`
  unfoldable pub delete_all_by_user_id : PasswordDb → ℕ → PasswordDb
  delete_all_by_user_id db user_id = record db {
    sessions_now = sessions.delete_many db.sessions_now (λ j x. x.user_id == user_id);
  }

  -- `deleteAllByUserIdExcept`
  unfoldable pub delete_all_by_user_id_except : PasswordDb → ℕ → ℕ → PasswordDb
  delete_all_by_user_id_except db user_id keep = record db {
    sessions_now =
        sessions.delete_many db.sessions_now (λ j x. x.user_id == user_id && not (j == keep));
  }

  unfoldable pub update_password_and_revoke_sessions :
      PasswordDb → ℕ → Text → Result PasswordError PasswordDb
  unfolding update_password_with_rotation delete_all_by_user_id
  update_password_and_revoke_sessions db user_id new_hash =
      update_password_with_rotation db user_id new_hash true >>= λ db'.
      ok (delete_all_by_user_id db' user_id)

  unfoldable pub update_password_and_revoke_other_sessions :
      PasswordDb → ℕ → Text → ℕ → Result PasswordError PasswordDb
  unfolding update_password_with_rotation delete_all_by_user_id_except
  update_password_and_revoke_other_sessions db user_id new_hash keep =
      update_password_with_rotation db user_id new_hash false >>= λ db'.
      ok (delete_all_by_user_id_except db' user_id keep)

  unfoldable pub set_password_and_clear_token :
      PasswordDb → ℕ → Text → Result PasswordError PasswordDb
  unfolding update_password_and_clear_token delete_all_by_user_id
  set_password_and_clear_token db user_id new_hash =
      update_password_and_clear_token db user_id new_hash >>= λ db'.
      ok (delete_all_by_user_id db' user_id)

  -- `resetPassword`, without the cache of sessions
  unfoldable pub reset_password : PasswordDb → ℕ → Text → Text → Result PasswordError PasswordDb
  unfolding find_by_reset_token update_password_and_revoke_sessions
  reset_password db now token new_password = elim (find_by_reset_token db (hash_token token)) [
    | none ↦ err invalid_link
    | some (id, u) ↦
        require (not (status_beq u.status suspended)) invalid_link
        >> require (not (is_expired reset_token_ttl_ms now u.password_reset_requested_at))
            invalid_link
        >> require (not (is_password new_password u.password_hash)) credential_reuse
        >> require (not (is_password new_password u.previous_password_hash))
            previous_credential_reuse
        >> update_password_and_revoke_sessions db id (hash new_password)
  ]

  -- Whether a second factor must be set up after the password.
  abbrev pub requires_two_factor_setup : Option User → Bool
  requires_two_factor_setup none = false
  requires_two_factor_setup (some u) = u.is_two_factor_enforced && not u.is_two_factor_enabled

  -- `setPasswordViaToken`, without the cache of sessions
  unfoldable pub set_password_via_token :
      PasswordDb → ℕ → Text → Text → Result PasswordError (Bool × PasswordDb)
  unfolding find_by_set_password_token set_password_and_clear_token
  set_password_via_token db now token new_password =
      elim (find_by_set_password_token db (hash_token token)) [
        | none ↦ err invalid_link
        | some (id, u) ↦
            require (not (is_expired set_password_token_ttl_ms now u.set_password_requested_at))
              invalid_link
            >> require (not (is_password new_password u.previous_password_hash))
                previous_credential_reuse
            >> require (not (is_password new_password u.password_hash)) credential_reuse
            >> (set_password_and_clear_token db id (hash new_password) >>= λ db'.
                ok (requires_two_factor_setup (find_user users db'.users_now id), db'))
      ]

  -- `changePassword`, without the cache of sessions
  unfoldable pub change_password :
      PasswordDb → ℕ → ℕ → Text → Text → Result PasswordError PasswordDb
  unfolding update_password_and_revoke_other_sessions
  change_password db user_id session_id current_password new_password =
      require (not (text_beq new_password current_password)) credential_reuse
      >> elim (find_user users db.users_now user_id) [
        | none ↦ err current_incorrect
        | some u ↦
            require (is_password current_password u.password_hash) current_incorrect
            >> require (not (is_password new_password u.previous_password_hash))
                previous_credential_reuse
            >> update_password_and_revoke_other_sessions db user_id (hash new_password) session_id
      ]
