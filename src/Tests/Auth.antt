-- ===== src/Tests/Auth.antt =====
-- Logins and refreshes at concrete inputs.
use ewu_taks.Base.{
  ℕ, ◌+◌, ◌*◌, ◌≤◌, List, [], ◌∷◌, Option, none, some, true, if◌then◌else◌, Text, text_beq, ◌==◌,
  nat_eq, ltb, ok, err, Result, is_some, Bool, false, ◌⊎◌, ◌≡◌, ◌↔◌, refl, arith,
}
use ewu_taks.Domain.{map_option, holds, User, active}
use ewu_taks.Auth.Login.{
  account_locked, record_not_found, find_for_login, validate_login_credentials,
}
use ewu_taks.Auth.Login.Decision.{CanLogIn, validate_login_credentials-allowed}
use ewu_taks.Auth.Login.Lockout.{validate_login_credentials-locked}
use ewu_taks.Auth.Login.Gaps.{validate_login_credentials-deleted}
use ewu_taks.Auth.Refresh.{
  Session, SessionTable, RefreshPayload, RefreshError, session_revoked, invalid_token, refresh,
  verify_session_integrity, rotate_session, validate_refresh_payload, remaining_seconds,
}
use ewu_taks.Auth.Refresh.Rotation.{Rotated, refresh-Rotated}
use ewu_taks.Auth.Refresh.Replay.{HasNoSession, refresh-replayed}
use ewu_taks.Tests.Users.{user_table, new_user}

abbrev secret : Text
secret = b's' ∷ []

abbrev guess : Text
guess = b'g' ∷ []

abbrev bob : User
bob = record new_user { status = active; password_hash = some secret; login_attempts = 4 }

abbrev by_email : user_table.State → Text → Option ℕ
by_email s email = some 7

abbrev with_bob : user_table.State
with_bob = λ id. some bob

abbrev deleted_bob : user_table.State
deleted_bob = λ id. some (record bob { is_deleted = true })

validate_login_credentials-allowed_example :
    ((validate_login_credentials user_table by_email text_beq with_bob with_bob 0 [] secret).0
      ≡ ok bob)
    ↔ ((id : ℕ) × (find_for_login user_table by_email text_beq with_bob [] ≡ some (id, bob))
        × CanLogIn text_beq 0 secret bob)
validate_login_credentials-allowed_example =
    validate_login_credentials-allowed user_table by_email text_beq with_bob with_bob 0 [] secret
      bob

validate_login_credentials-locked_example :
    let db' =
      (validate_login_credentials user_table by_email text_beq with_bob with_bob 50 [] guess).1 in
    validate_login_credentials user_table by_email text_beq db' db' 60 [] secret
    ≡ (err account_locked, db')
unfolding find_for_login
validate_login_credentials-locked_example =
    validate_login_credentials-locked user_table by_email text_beq (λ s id f email h. refl) with_bob
      50 [] guess secret 7 bob refl refl refl refl refl refl 60 secret (omega arith)

validate_login_credentials-deleted_example :
    validate_login_credentials user_table by_email text_beq deleted_bob deleted_bob 50 [] guess
    ≡ (err record_not_found, deleted_bob)
unfolding find_for_login
validate_login_credentials-deleted_example =
    validate_login_credentials-deleted user_table by_email text_beq deleted_bob 50 [] guess secret 7
      (record bob { is_deleted = true }) refl refl refl refl refl

-- sessions as a function below the next id
abbrev Sessions : Type 0
Sessions = ℕ × (ℕ → Option Session)

abbrev below : Sessions → ℕ → Option Session
below s j = if ltb j s.0 then s.1 j else none

below-none : (s : Sessions) (j : ℕ) → s.0 ≤ j → below s j ≡ none
below-none s j h = ground arith

abbrev create_session : Sessions → Session → Sessions
create_session s x = (s.0 + 1, λ j. if s.0 == j then some x else s.1 j)

below-create_session :
    (s : Sessions) (x : Session) (j : ℕ)
    → below (create_session s x) j ≡ (if s.0 == j then some x else below s j)
below-create_session s x j = ground arith

below-write :
    (s : Sessions) (id j : ℕ) (f : Session → Session)
    → below (s.0, λ k. if id == k then map_option f (s.1 k) else s.1 k) j
      ≡ (if id == j then map_option f (below s j) else below s j)
below-write s id j f = ground arith

below-delete :
    (s : Sessions) (id j : ℕ)
    → below (s.0, λ k. if id == k then none else s.1 k) j ≡ (if id == j then none else below s j)
below-delete s id j = ground arith

below-delete_all :
    (s : Sessions) (user_id j : ℕ)
    → below (s.0, λ k. if holds (λ x. x.user_id == user_id) (s.1 k) then none else s.1 k) j
      ≡ (if holds (λ x. x.user_id == user_id) (below s j) then none else below s j)
below-delete_all s user_id j = ground arith

abbrev session_table : SessionTable
session_table = record {
  State = Sessions;
  find = below;
  next = λ s. s.0;
  create = create_session;
  write = λ s id f. (s.0, λ k. if id == k then map_option f (s.1 k) else s.1 k);
  delete = λ s id. (s.0, λ k. if id == k then none else s.1 k);
  delete_all =
      λ s user_id. (s.0, λ k. if holds (λ x. x.user_id == user_id) (s.1 k) then none else s.1 k);
  find-next = below-none;
  find-create = below-create_session;
  find-write = below-write;
  find-delete = below-delete;
  find-delete_all = below-delete_all;
  next-delete = λ s id. refl;
}

-- a token is the list of its user, its session and its time to live
abbrev sign : ℕ → ℕ → ℕ → Text
sign sub session_id seconds = sub ∷ session_id ∷ seconds ∷ []

-- issued at 0
abbrev verify : Text → ℕ → Option RefreshPayload
verify (sub ∷ session_id ∷ seconds ∷ []) now =
    if ltb now (seconds * 1000)
    then some (record { sub = sub; session_id = session_id; is_refresh = true })
    else none
verify token now = none

verify-constant :
    (t : Text) (first second : ℕ) (p q : RefreshPayload)
    → verify t first ≡ some p
    → verify t second ≡ some q
    → p ≡ q
verify-constant [] first second p q h k = cc
verify-constant (a ∷ []) first second p q h k = cc
verify-constant (a ∷ b ∷ []) first second p q h k = cc
verify-constant (a ∷ b ∷ c ∷ []) first second p q h k = ground arith
verify-constant (a ∷ b ∷ c ∷ d ∷ t) first second p q h k = cc

abbrev one_session : Sessions
one_session =
    (5, λ j. some (record { user_id = 7; refresh_token_hash = sign 7 3 60; expires_at = 90000 }))

abbrev rotated : Sessions
rotated =
    (refresh session_table sign verify (λ t. t) (λ u. active) one_session 100
      (some (sign 7 3 60))).1

refresh-Rotated_example :
    Rotated session_table sign verify
      (λ t. t)
      (λ u. active)
      one_session
      rotated
      100
      (sign 7 3 60)
      (sign 7 5 89)
unfolding refresh verify_session_integrity rotate_session validate_refresh_payload remaining_seconds
refresh-Rotated_example =
    refresh-Rotated session_table sign verify (λ t. t) (λ u. active) one_session rotated 100
      (sign 7 3 60) (sign 7 5 89) refl

abbrev again : ℕ → Result RefreshError Text × Sessions
again later =
    refresh session_table sign verify (λ t. t) (λ u. active) rotated later (some (sign 7 3 60))

refresh-replayed_example :
    ((is_some (verify (sign 7 3 60) 200) ≡ true)
      × ((again 200).0 ≡ err session_revoked)
      × HasNoSession session_table sign verify (λ t. t) (λ u. active) (again 200).1 7)
    ⊎ ((is_some (verify (sign 7 3 60) 200) ≡ false) × (again 200 ≡ (err invalid_token, rotated)))
unfolding refresh verify_session_integrity rotate_session validate_refresh_payload remaining_seconds
refresh-replayed_example =
    refresh-replayed session_table sign verify (λ t. t) (λ u. active) verify-constant one_session
      rotated 100 200 (sign 7 3 60) (sign 7 5 89)
      (record { sub = 7; session_id = 3; is_refresh = true }) refl refl

-- six wrong codes, a right one that the lockout keeps out, and one after it
abbrev requests : List (ℕ × Bool)
requests =
    (0, false)
    ∷ (10, false)
    ∷ (15, true)
    ∷ (20, false)
    ∷ (30, false)
    ∷ (40, false)
    ∷ (50, false)
    ∷ (60, false)
    ∷ (70, true)
    ∷ []
