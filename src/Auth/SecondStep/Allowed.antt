-- ===== src/Auth/SecondStep/Allowed.antt =====
-- When a login starts a session.
use ewu_taks.Base.{
  ℕ, ◌+◌, [], ◌∷◌, Option, none, some, Bool, true, false, not, ◌&&◌, ◌||◌, Text, text_eq, ==_iff,
  nat_eq, ltb, Result, ok, err, is_ok, ◌≡◌, refl, arith, Option-cases, Result-cases, inl, inr,
}
use ewu_taks.Domain.{User, status_beq, active, holds}
use ewu_taks.Auth.Login.{find_for_login, validate_login_credentials}
use ewu_taks.Auth.TwoFactor.{check_lockout, clear_attempts}
use ewu_taks.Auth.Sessions.{
  is_consumed, count_by_user_id, enforce_session_limit, max_concurrent_sessions,
}
use ewu_taks.Auth.TrustedDevices.{SessionMetadata}
use ewu_taks.Auth.SecondStep.{
  Services, EntryError, EntryDb, LoginResult, session, requires_two_factor, Call, settled,
  with_users, as_login, is_trusted, enter, go_on, log_in, add_trust, check_code, fail_code,
  pass_code, verify_two_factor,
}

abbrev pub starts_session : Result EntryError LoginResult → Bool
starts_session (ok (session token)) = true
starts_session (ok (requires_two_factor token)) = false
starts_session (err e) = false

module _ (x : Services) where
  -- Whether the user has room for one more session.
  abbrev pub has_room : EntryDb x → ℕ → ℕ → Bool
  has_room db now user_id =
      ltb
        (count_by_user_id x.sessions x.sign_refresh x.hash_token db.factors.sessions_now now
          user_id)
        max_concurrent_sessions

  abbrev pub is_live_active : EntryDb x → ℕ → Bool
  is_live_active db user_id =
      holds (λ u. not u.is_deleted && status_beq u.status active)
        (x.users.find db.factors.users_now user_id)

  enter-has_room :
      (db : EntryDb x) (now user_id : ℕ)
      → is_ok (enter x db now user_id).0 ≡ has_room db now user_id
  unfolding enter enforce_session_limit
  enter-has_room db now user_id = ground arith

  pass-allowed :
      (db : EntryDb x) (now user_id : ℕ)
      → is_ok (pass_code x db now user_id).0 ≡ is_live_active db user_id && has_room db now user_id
  unfolding pass_code clear_attempts
  pass-allowed db now user_id =
      let f = db.factors in
      let db' =
        with_users x db (settled (clear_attempts x.users f.users_now user_id) f.users_now) in
      let cleared =
        λ (u : User). record u { two_factor_attempts = 0; two_factor_attempts_lockout = none } in
      ground (
        arith,
        enter-has_room db' now user_id,
        x.users.find-write f.users_now user_id user_id cleared,
        ==_iff user_id user_id,
      )

  trust-ok :
      (now user_id : ℕ) (trust : Option Text) (meta : SessionMetadata)
      → (r : Result EntryError Text × EntryDb x)
      → is_ok (add_trust x now user_id trust meta r).0 ≡ is_ok r.0
  trust-ok now user_id none meta r = refl
  trust-ok now user_id (some t) meta (err e, db) = refl
  trust-ok now user_id (some t) meta (ok token, db) = refl

  pub fail-refused :
      (db : EntryDb x) (is_released : Bool) (now user_id : ℕ) (key : Text)
      → is_ok (fail_code x db is_released now user_id key).0 ≡ false
  unfolding fail_code
  fail-refused db is_released now user_id key = ground arith

  -- The check of a code leaves the users and the sessions.
  check-same :
      (db : EntryDb x) (now user_id : ℕ) (code : Text)
      → ((check_code x db.factors now user_id code).1.users_now ≡ db.factors.users_now)
        × ((check_code x db.factors now user_id code).1.sessions_now ≡ db.factors.sessions_now)
  unfolding check_code
  check-same db now user_id code = (ground arith, ground arith)

  -- What a call of `verifyTwoFactor` must meet.
  abbrev pub admits : EntryDb x → Call x → Bool
  admits db c = elim (x.verify c.token c.now) [
    | none ↦ false
    | some user_id ↦
        check_lockout x.users db.factors.users_now c.now user_id
        && c.is_redis_up
        && not (is_consumed db.consumed c.now (x.hash_token c.token))
        && (check_code x db.factors c.now user_id c.code).0
        && is_live_active db user_id
        && has_room db c.now user_id
  ]

  -- The second step of a login returns if and only if its token is valid and was not used, which
  -- Redis confirms, the user of the token is not locked out, the code is right, and the user is
  -- active, not deleted and has fewer than four sessions that are not expired.
  pub verify_two_factor-allowed :
      (db : EntryDb x) (c : Call x) → is_ok (verify_two_factor x db c).0 ≡ admits db c
  unfolding verify_two_factor
  verify_two_factor-allowed db c = elim (Option-cases (x.verify c.token c.now)) [
    | inl invalid ↦ ground (arith, invalid)
    | inr (id, valid) ↦
        let key = x.hash_token c.token in
        let checked = check_code x db.factors c.now id c.code in
        let claimed : EntryDb x = record {
          factors = checked.1;
          consumed = (key, c.now + x.token_ms) ∷ db.consumed;
        } in
        ground (
          arith,
          valid,
          trust-ok c.now id c.trust c.meta (pass_code x claimed c.now id),
          pass-allowed claimed c.now id,
          fail-refused claimed c.is_released c.now id key,
          check-same db c.now id c.code,
        )
  ]

  login-ok : (r : Result EntryError Text × EntryDb x) → starts_session (as_login x r).0 ≡ is_ok r.0
  login-ok (ok token, db) = refl
  login-ok (err e, db) = refl

  go_on-allowed :
      (db : EntryDb x) (now user_id : ℕ) (user : User) (meta : SessionMetadata)
      → (cookie : Option Text)
      → starts_session (go_on x db now user_id user meta cookie).0
        ≡ (not user.is_two_factor_enabled || is_trusted x db now user_id meta cookie)
          && has_room db now user_id
  unfolding go_on
  go_on-allowed db now user_id user meta cookie =
      ground (arith, login-ok (enter x db now user_id), enter-has_room db now user_id)

  trusted-with_users :
      (db : EntryDb x) (s : x.users.State) (now user_id : ℕ) (meta : SessionMetadata)
      → (cookie : Option Text)
      → is_trusted x (with_users x db s) now user_id meta cookie
        ≡ is_trusted x db now user_id meta cookie
  trusted-with_users db s now user_id meta none = refl
  trusted-with_users db s now user_id meta (some []) = refl
  trusted-with_users db s now user_id meta (some (c ∷ cs)) = refl

  -- What a login must meet to get a session from its credentials alone.
  abbrev pub skips :
      x.users.State → EntryDb x → ℕ → Text → Text → SessionMetadata → Option Text → Bool
  skips seen db now email password meta cookie =
      let checked =
        validate_login_credentials x.users x.by_email x.compare seen db.factors.users_now now email
          password in
      elim checked.0 [
        | err e ↦ false
        | ok user ↦ elim (find_for_login x.users x.by_email x.compare seen email) [
          | none ↦ false
          | some (user_id, row) ↦
              (not user.is_two_factor_enabled || is_trusted x db now user_id meta cookie)
              && has_room db now user_id
        ]
      ]

  -- A login starts a session at once if and only if its credentials are accepted, the second factor
  -- of the user is off or the cookie is a trust token of that user that is valid for the address and
  -- the agent, and the user has fewer than four sessions that are not expired.
  pub log_in-skips :
      (seen : x.users.State) (db : EntryDb x) (now : ℕ) (email password : Text)
      → (meta : SessionMetadata) (cookie : Option Text)
      → starts_session (log_in x seen db now email password meta cookie).0
        ≡ skips seen db now email password meta cookie
  unfolding log_in
  log_in-skips seen db now email password meta cookie =
      let checked =
        validate_login_credentials x.users x.by_email x.compare seen db.factors.users_now now email
          password in
      elim (Result-cases checked.0) [
        | inl (e, refused) ↦ ground (arith, refused)
        | inr (user, accepted) ↦
            elim (Option-cases (find_for_login x.users x.by_email x.compare seen email)) [
              | inl missing ↦ ground (arith, accepted, missing)
              | inr ((id, row), found) ↦ ground (
                arith,
                accepted,
                found,
                go_on-allowed (with_users x db checked.1) now id user meta cookie,
                trusted-with_users db checked.1 now id meta cookie,
              )
            ]
      ]
