-- ===== src/Tests/Accounts.antt =====
-- Sessions and passwords at concrete inputs.
use ewu_taks.Base.{
  ℕ, ◌+◌, ◌<◌, ◌≤◌, List, [], ◌∷◌, Option, none, some, Bool, true, not, ◌&&◌, ltb, if◌then◌else◌,
  beq_refl, text_eq, Text, text_beq, ◌==◌, nat_eq, ok, err, ◌≡◌, ◌≢◌, refl, arith,
}
use ewu_taks.Domain.{User, active}
use ewu_taks.Auth.Login.{find_for_login, validate_login_credentials}
use ewu_taks.Auth.Refresh.{Session}
use ewu_taks.Auth.Password.{
  PasswordDb, invalid_link, reset_password, find_by_reset_token, validate_reset_token,
  update_password_and_revoke_sessions, update_password_with_rotation, delete_all_by_user_id,
  change_password, update_password_and_revoke_other_sessions, delete_all_by_user_id_except,
}
use ewu_taks.Auth.Password.Reset.{
  HasUniqueTokens, reset, rotated, reset_password-once, reset_password-login,
}
use ewu_taks.Auth.Password.Change.{changed, change_password-keeps_token}
use ewu_taks.Auth.Sessions.{
  MgmtPayload, ConflictDb, create_login_session, count_by_user_id, resolve_session_conflict,
  replace_session, find_by_id, delete_session,
}
use ewu_taks.Auth.Sessions.Limit.{Request, login, replace, serve_all, serve_all-IsLimited}
use ewu_taks.Auth.Sessions.Conflict.{resolve, resolve-once, resolve-replaces}
use ewu_taks.Tests.Users.{new_user}
use ewu_taks.Tests.Tables.{session_rows, Rows, one_user, one_finder}

abbrev sign : ℕ → ℕ → Text
sign user_id session_id = user_id ∷ session_id ∷ []

abbrev no_rows : Rows
no_rows = (0, λ j. none)

abbrev six_requests : List Request
six_requests =
    login 10 1000 7
    ∷ login 20 1000 7
    ∷ login 30 1000 7
    ∷ login 40 1000 7
    ∷ login 50 1000 7
    ∷ replace 60 1000 (some active) 7 2
    ∷ []

serve_all-IsLimited_example :
    count_by_user_id session_rows sign
      (λ t. t)
      (serve_all session_rows sign
        (λ t. t)
        (λ a b c. [])
        (λ t now. none)
        (λ u. active)
        no_rows
        six_requests)
      60
      7
    ≤ 4
unfolding count_by_user_id
serve_all-IsLimited_example =
    serve_all-IsLimited session_rows sign (λ t. t) (λ a b c. []) (λ t now. none) (λ u. active) 60
      six_requests no_rows 7 refl (λ u. omega arith)

abbrev address : Text
address = b'1' ∷ []

abbrev verify : Text → ℕ → Option MgmtPayload
verify token now = if ltb now 120000 then some (record { sub = 7; bound_ip = address }) else none

verify-brief :
    (t : Text) (first second : ℕ) (p q : MgmtPayload)
    → verify t first ≡ some p
    → verify t second ≡ some q
    → second < first + 120000
verify-brief t first second p q h k = ground arith

abbrev full : ConflictDb session_rows sign (λ t. t)
full = record {
  sessions_now =
      (4, λ j. some (record { user_id = 7; refresh_token_hash = []; expires_at = 5000 }));
  consumed = [];
}

abbrev resolved : ConflictDb session_rows sign (λ t. t)
resolved =
    (resolve session_rows sign (λ t. t) verify (λ u. some active) true full 100 1000 (b't' ∷ []) 2
      (some address)).1

resolve-once_example :
    ((resolve session_rows sign
        (λ t. t)
        verify
        (λ u. some active)
        true
        resolved
        200
        1000
        (b't' ∷ [])
        3
        (some address)).1
      ≡ resolved)
    × ((signed' : Text)
        → (resolve session_rows sign
            (λ t. t)
            verify
            (λ u. some active)
            true
            resolved
            200
            1000
            (b't' ∷ [])
            3
            (some address)).0
          ≢ ok signed')
unfolding resolve_session_conflict replace_session find_by_id delete_session count_by_user_id
    create_login_session
resolve-once_example =
    resolve-once session_rows sign (λ t. t) verify (λ u. some active) verify-brief true full 100
      1000 2 (b't' ∷ []) (7 ∷ 4 ∷ []) (some address) refl true resolved 200 3 (some address) [] refl

resolve-replaces_example :
    (payload : MgmtPayload) × (x : Session) × (verify (b't' ∷ []) 100 ≡ some payload)
    × (some address ≡ some payload.bound_ip)
    × (some active ≡ some active)
    × (session_rows.find full.sessions_now 2 ≡ some x)
    × (x.user_id ≡ payload.sub)
    × (100 < x.expires_at)
    × (session_rows.find resolved.sessions_now 2 ≡ none)
unfolding resolve_session_conflict replace_session find_by_id delete_session count_by_user_id
    create_login_session
resolve-replaces_example =
    resolve-replaces session_rows sign (λ t. t) verify (λ u. some active) true full 100 1000 2
      (b't' ∷ []) (7 ∷ 4 ∷ []) (some address) refl

-- a password is compared with a hash that is itself after a letter
abbrev hash : Text → Text
hash password = b'h' ∷ password

abbrev compare_hash : Text → Text → Bool
compare_hash password hashed = text_beq (hash password) hashed

abbrev alice : User
alice = record new_user {
  status = active;
  password_hash = some (hash (b'o' ∷ []));
  reset_token = some (b't' ∷ []);
  password_reset_requested_at = some 0;
}

abbrev accounts :
    PasswordDb one_user one_finder session_rows (λ t. t) hash compare_hash (λ s id. none)
accounts = record { users_now = some alice; sessions_now = full.sessions_now }

unique_tokens :
    HasUniqueTokens one_user one_finder session_rows
      (λ t. t)
      hash
      compare_hash
      (λ s id. none)
      (some alice)
unique_tokens i j u v t found found' alive alive' held held' = ground arith

abbrev after_reset :
    PasswordDb one_user one_finder session_rows (λ t. t) hash compare_hash (λ s id. none)
after_reset = record {
  users_now = some (rotated (hash (b'n' ∷ [])) alice);
  sessions_now = session_rows.delete_many full.sessions_now (λ j x. x.user_id == 7);
}

reset_password-once_example :
    (reset one_user one_finder session_rows
        (λ t. t)
        hash
        compare_hash
        (λ s id. none)
        after_reset
        20
        (b't' ∷ [])
        (b'm' ∷ [])
      ≡ err invalid_link)
    × (validate_reset_token one_user one_finder session_rows
          (λ t. t)
          hash
          compare_hash
          (λ s id. none)
          after_reset
          20
          (b't' ∷ [])
        ≡ err invalid_link)
unfolding reset_password find_by_reset_token update_password_and_revoke_sessions
    update_password_with_rotation delete_all_by_user_id
reset_password-once_example =
    reset_password-once one_user one_finder session_rows (λ t. t) hash compare_hash (λ s id. none)
      accounts after_reset 10 (b't' ∷ []) (b'n' ∷ []) unique_tokens refl 20 (b'm' ∷ [])

abbrev by_email : Option User → Text → Option ℕ
by_email s email = some 7

reset_password-login_example :
    (validate_login_credentials one_user by_email compare_hash after_reset.users_now
      after_reset.users_now 20 []
      (b'n' ∷ [])).0
    ≡ ok (rotated (hash (b'n' ∷ [])) alice)
unfolding reset_password find_by_reset_token update_password_and_revoke_sessions
    update_password_with_rotation delete_all_by_user_id find_for_login
reset_password-login_example =
    reset_password-login one_user one_finder session_rows (λ t. t) hash compare_hash (λ s id. none)
      by_email (λ s id f email h. refl) (λ password. beq_refl (hash password)) accounts after_reset
      10 20 7 [] (b't' ∷ []) (b'n' ∷ []) alice unique_tokens refl refl refl refl refl refl refl

abbrev after_change :
    PasswordDb one_user one_finder session_rows (λ t. t) hash compare_hash (λ s id. none)
after_change = record {
  users_now = some (changed (hash (b'n' ∷ [])) alice);
  sessions_now = session_rows.delete_many full.sessions_now (λ j x. x.user_id == 7 && not (j == 1));
}

change_password-keeps_token_example :
    validate_reset_token one_user one_finder session_rows
      (λ t. t)
      hash
      compare_hash
      (λ s id. none)
      after_change
      20
      (b't' ∷ [])
    ≡ ok tt
unfolding change_password update_password_and_revoke_other_sessions update_password_with_rotation
    delete_all_by_user_id_except
change_password-keeps_token_example =
    change_password-keeps_token one_user one_finder session_rows (λ t. t) hash compare_hash
      (λ s id. none) accounts after_change 7 1 20 (b'o' ∷ []) (b'n' ∷ []) (b't' ∷ []) alice
      unique_tokens refl refl refl refl refl
