-- ===== src/Auth/Password/Change.antt =====
-- What a change of the password by its user leaves.
use ewu_taks.Base.{
  ℕ, Option, none, some, Bool, false, not, ◌&&◌, if◌then◌else◌, Text, nat_eq, ◌==◌, ==_iff, Result,
  ok, text_eq, beq_refl, ◌≡◌, ap, ◌∙◌, arith, Option-cases, Bool-cases, inl, inr,
}
use ewu_taks.Domain.{Table, User, holds}
use ewu_taks.Auth.Tables.{Finder, SessionRows, equals_text, equals_text-some}
use ewu_taks.Auth.Password.{
  PasswordError, InviteStatus, is_expired, reset_token_ttl_ms, find_by_reset_token, change_password,
  validate_reset_token, update_password_and_revoke_other_sessions, update_password_with_rotation,
  delete_all_by_user_id_except,
}
use ewu_taks.Auth.Password.Reset.{Db, HasUniqueTokens}

-- The row after a change of the password.
abbrev pub changed : Text → User → User
changed new_hash u = record u {
  previous_password_hash = u.password_hash;
  password_hash = some new_hash;
}

module _ (users : Table User) (finder : Finder users) (sessions : SessionRows)
    (hash_token : Text → Text) (hash : Text → Text) (compare : Text → Text → Bool)
    (invite_status : users.State → ℕ → Option InviteStatus) where
  open users use {find, write}

  abbrev pub Passwords : Type 0
  Passwords = Db users finder sessions hash_token hash compare invite_status

  abbrev pub change : Passwords → ℕ → ℕ → Text → Text → Result PasswordError Passwords
  change = change_password users finder sessions hash_token hash compare invite_status

  change_password-writes :
      (db db' : Passwords) (user_id session_id : ℕ) (current new_password : Text)
      → change db user_id session_id current new_password ≡ ok db'
      → (u : User) × (find db.users_now user_id ≡ some u)
        × (db'.users_now ≡ write db.users_now user_id (changed (hash new_password)))
        × (db'.sessions_now
            ≡ sessions.delete_many db.sessions_now
                (λ j x. x.user_id == user_id && not (j == session_id)))
  unfolding change_password update_password_and_revoke_other_sessions update_password_with_rotation
      delete_all_by_user_id_except
  change_password-writes db db' user_id session_id current new_password h =
      elim (Option-cases (find db.users_now user_id)) [
        | inl missing ↦ absurd (ground (arith, missing))
        | inr (u, found) ↦ (u, found, ground (arith, found), ground (arith, found))
      ]

  find-changed :
      (db db' : Passwords) (user_id : ℕ) (new_hash : Text) (u : User)
      → find db.users_now user_id ≡ some u
      → db'.users_now ≡ write db.users_now user_id (changed new_hash)
      → (j : ℕ)
      → find db'.users_now j
        ≡ (if user_id == j then some (changed new_hash u) else find db.users_now j)
  find-changed db db' user_id new_hash u found written j = ground (
    arith,
    written,
    users.find-write db.users_now user_id j (changed new_hash),
    found,
    ==_iff user_id j,
  )

  -- A change of the password that returns: the row of the user has the new password, and the old one
  -- as the previous; the session that asked for it and those of other users are as they were, and
  -- the user has no other.
  pub change_password-leaves :
      (db db' : Passwords) (user_id session_id : ℕ) (current new_password : Text)
      → change db user_id session_id current new_password ≡ ok db'
      → (u : User) × (find db.users_now user_id ≡ some u)
        × (find db'.users_now user_id ≡ some (changed (hash new_password) u))
        × ((j : ℕ)
            → sessions.find db'.sessions_now j ≡ (
                if holds
                  (λ x. x.user_id == user_id && not (j == session_id))
                  (sessions.find db.sessions_now j)
                then none
                else sessions.find db.sessions_now j))
  change_password-leaves db db' user_id session_id current new_password h =
      let (u, found, written, rows) =
        change_password-writes db db' user_id session_id current new_password h in
      (
        u,
        found,
        ground (
          arith,
          find-changed db db' user_id (hash new_password) u found written user_id,
          ==_iff user_id user_id,
        ),
        λ j.
            ap (λ (s : sessions.State). sessions.find s j) rows
            ∙ sessions.find-delete_many db.sessions_now
                (λ k x. x.user_id == user_id && not (k == session_id)) j,
      )

  -- A change of the password leaves a reset token that was asked for before valid: where no two users
  -- hold the same token, the token of the user that is not expired is still accepted by the
  -- validation in the state after the change.
  pub change_password-keeps_token :
      (db db' : Passwords) (user_id session_id later : ℕ) (current new_password token : Text)
      (u : User)
      → HasUniqueTokens users finder sessions hash_token hash compare invite_status db.users_now
      → change db user_id session_id current new_password ≡ ok db'
      → find db.users_now user_id ≡ some u
      → u.is_deleted ≡ false
      → u.reset_token ≡ some (hash_token token)
      → is_expired reset_token_ttl_ms later u.password_reset_requested_at ≡ false
      → validate_reset_token users finder sessions hash_token hash compare invite_status db' later
          token
        ≡ ok tt
  unfolding validate_reset_token find_by_reset_token
  change_password-keeps_token db db' user_id session_id later current new_password token u unique h
        found alive held in_time =
      let (v, found_v, written, rows) =
        change_password-writes db db' user_id session_id current new_password h in
      let row = find-changed db db' user_id (hash new_password) v found_v written in
      let p = λ (w : User). equals_text w.reset_token (hash_token token) in
      let same_v : v ≡ u = ground (arith, found, found_v) in
      let at : find db'.users_now user_id ≡ some (changed (hash new_password) u) =
        ground (arith, row user_id, same_v, ==_iff user_id user_id) in
      elim (Option-cases (finder.find_first db'.users_now p)) [
        | inl missing ↦
            let no =
              finder.find_first-missing db'.users_now p user_id (changed (hash new_password) u)
                missing at alive in
            absurd (ground (arith, no, held, beq_refl (hash_token token)))
        | inr ((j, w), there) ↦
            let (found_w, holds_p, alive_w) = finder.find_first-found db'.users_now p j w there in
            let held_w = equals_text-some w.reset_token (hash_token token) holds_p in
            elim (Bool-cases (user_id == j)) [
              | inl same ↦
                  let is : w ≡ changed (hash new_password) u =
                    ground (arith, at, found_w, same, ==_iff user_id j) in
                  ground (arith, there, is, in_time)
              | inr other ↦
                  let old : find db.users_now j ≡ some w = ground (arith, row j, other, found_w) in
                  let same =
                    unique user_id j u w (hash_token token) found old alive alive_w held held_w in
                  absurd (ground (arith, same, other, ==_iff user_id j))
            ]
      ]
