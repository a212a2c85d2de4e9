-- ===== src/Auth/Sessions/Limit.antt =====
-- The number of sessions of a user under every sequence of requests.
use ewu_taks.Base.{
  ℕ, ◌+◌, ◌≤◌, List, [], ◌∷◌, Option, some, Bool, true, false, not, ◌&&◌, if◌then◌else◌, Text, ◌==◌,
  nat_eq, ltb, leb, all, Result, ok, err, ◌≡◌, refl, ap, arith, ==_iff, Option-cases, Bool-cases,
  Result-cases, inl, inr,
}
use ewu_taks.Domain.{UserStatus, status_beq, active}
use ewu_taks.Auth.Refresh.{
  Session, RefreshPayload, refresh, verify_session_integrity, rotate_session,
  validate_refresh_payload, remaining_seconds,
}
use ewu_taks.Auth.Refresh.Rotation.{verify_session_integrity-ok}
use ewu_taks.Auth.Tables.{SessionRows, table_of}
use ewu_taks.Auth.Sessions.{
  active_of, count_by_user_id, start_session, create_login_session, enforce_session_limit,
  max_concurrent_sessions, logout, logout_all, terminate_session, delete_session, delete_others,
  delete_expired, replace_session,
}

-- A request with what it brings: the time, a user, a session, the life of a session.
pub data Request : Type 0 where
  login : ℕ → ℕ → ℕ → Request
  refresh_with : ℕ → Option Text → Request
  log_out : ℕ → Request
  log_out_all : ℕ → ℕ → Request
  terminate : ℕ → ℕ → ℕ → ℕ → Request
  replace : ℕ → ℕ → Option UserStatus → ℕ → ℕ → Request
  clean_up : ℕ → Request

-- Whether a request that reads the clock came by a time.
abbrev pub is_by : ℕ → Request → Bool
is_by t (login now refresh_ms user_id) = leb now t
is_by t (refresh_with now token) = true
is_by t (log_out session_id) = true
is_by t (log_out_all user_id keep) = true
is_by t (terminate now user_id current target) = true
is_by t (replace now refresh_ms status user_id target) = leb now t
is_by t (clean_up now) = true

-- The table that a call leaves.
abbrev pub after_or : {State Thrown : Type 0} → State → Result Thrown State → State
after_or s (err e) = s
after_or s (ok s') = s'

abbrev pub after_login :
    {State Thrown Token : Type 0} → State → Result Thrown (Token × State) → State
after_login s (err e) = s
after_login s (ok r) = r.1

pair_of : {A B : Type 0} {a : A} (r : A × B) → r.0 ≡ a → r ≡ (a, r.1)
pair_of (x, y) e = ap (λ z. (z, y)) e

module _ (sessions : SessionRows) (sign : ℕ → ℕ → Text) (hash_token : Text → Text)
    (sign_refresh : ℕ → ℕ → ℕ → Text) (verify : Text → ℕ → Option RefreshPayload)
    (status_of : ℕ → UserStatus) where
  open sessions use {State, find, next, create, write, delete_many, count}

  abbrev pub serve : State → Request → State
  serve s (login now refresh_ms user_id) =
      after_login s (start_session sessions sign hash_token s now refresh_ms user_id)
  serve s (refresh_with now token) =
      (refresh (table_of sessions) sign_refresh verify hash_token status_of s now token).1
  serve s (log_out session_id) = logout sessions sign hash_token s session_id
  serve s (log_out_all user_id keep) = logout_all sessions sign hash_token s user_id keep
  serve s (terminate now user_id current target) =
      after_or s (terminate_session sessions sign hash_token s now user_id current target)
  serve s (replace now refresh_ms status user_id target) =
      (replace_session sessions sign hash_token s now refresh_ms status user_id target).1
  serve s (clean_up now) = delete_expired sessions sign hash_token s now

  abbrev pub serve_all : State → List Request → State
  serve_all s [] = s
  serve_all s (r ∷ rs) = serve_all (serve s r) rs

  -- Each user has at most four sessions that are not expired at a time.
  abbrev pub IsLimited : ℕ → State → Type 0
  IsLimited t s = (user_id : ℕ) → count_by_user_id sessions sign hash_token s t user_id ≤ 4

  -- A session that is active later is active earlier.
  count-later :
      (s : State) (now t user_id : ℕ)
      → now ≤ t
      → count_by_user_id sessions sign hash_token s t user_id
        ≤ count_by_user_id sessions sign hash_token s now user_id
  unfolding count_by_user_id
  count-later s now t user_id by =
      sessions.count-le s (active_of sessions sign hash_token t user_id)
        (active_of sessions sign hash_token now user_id) (λ j x h. ground (arith, h, by))

  -- A deletion keeps the limit.
  delete_many-IsLimited :
      (t : ℕ) (s : State) (q : ℕ → Session → Bool) → IsLimited t s → IsLimited t (delete_many s q)
  unfolding count_by_user_id
  delete_many-IsLimited t s q limited user_id = omega (
    arith,
    sessions.count-delete_many s q (active_of sessions sign hash_token t user_id),
    limited user_id,
  )

  -- A new session counts for its user.
  count-create_login_session :
      (t : ℕ) (s : State) (owner expires_at user_id : ℕ)
      → count_by_user_id sessions sign hash_token
          (create_login_session sessions sign hash_token s owner expires_at).1
          t
          user_id
        ≤ (if owner == user_id then 1 else 0)
          + count_by_user_id sessions sign hash_token s t user_id
  unfolding count_by_user_id create_login_session
  count-create_login_session t s owner expires_at user_id =
      let p = active_of sessions sign hash_token t user_id in
      let blank : Session = record {
        user_id = owner;
        refresh_token_hash = [];
        expires_at = expires_at;
      } in
      ground (
        arith,
        sessions.count-write (create s blank) (next s)
            (λ x. record x { refresh_token_hash = hash_token (sign owner (next s)) }) p
            (λ j x. refl),
        sessions.count-create s blank p,
      )

  -- A login keeps the limit.
  create_login_session-IsLimited :
      (t now : ℕ) (s : State) (owner expires_at : ℕ)
      → now ≤ t
      → leb max_concurrent_sessions (count_by_user_id sessions sign hash_token s now owner) ≡ false
      → IsLimited t s
      → IsLimited t (create_login_session sessions sign hash_token s owner expires_at).1
  create_login_session-IsLimited t now s owner expires_at by free limited user_id = ground (
    arith,
    count-create_login_session t s owner expires_at user_id,
    count-later s now t owner by,
    limited user_id,
    free,
    ==_iff owner user_id,
  )

  start_session-IsLimited :
      (t now refresh_ms user_id : ℕ) (s : State)
      → now ≤ t
      → IsLimited t s
      → IsLimited t
          (after_login s (start_session sessions sign hash_token s now refresh_ms user_id))
  unfolding start_session enforce_session_limit
  start_session-IsLimited t now refresh_ms user_id s by limited =
      elim (Bool-cases
        (leb max_concurrent_sessions (count_by_user_id sessions sign hash_token s now user_id))) [
          | inl full ↦ rw full limited
          | inr free ↦
              rw free
                (create_login_session-IsLimited t now s user_id (now + refresh_ms) by free limited)
        ]

  replace_session-IsLimited :
      (t now refresh_ms : ℕ) (status : Option UserStatus) (user_id target : ℕ) (s : State)
      → now ≤ t
      → IsLimited t s
      → IsLimited t
          (replace_session sessions sign hash_token s now refresh_ms status user_id target).1
  unfolding replace_session delete_session
  replace_session-IsLimited t now refresh_ms status user_id target s by limited =
      let deleted = delete_session sessions sign hash_token s target in
      let kept = delete_many-IsLimited t s (λ j x. j == target) limited in
      elim (Bool-cases (
        leb max_concurrent_sessions
          (count_by_user_id sessions sign hash_token deleted now user_id))) [
            | inl full ↦ rw full kept
            | inr free ↦
                let created =
                  create_login_session-IsLimited t now deleted user_id (now + refresh_ms) by free
                    kept in
                elim (Option-cases status) [
                  | inl missing ↦ rw (free, missing) kept
                  | inr (st, known) ↦ elim (Bool-cases (status_beq st active)) [
                    | inl yes_active ↦ rw (free, known, yes_active) created
                    | inr not_active ↦ rw (free, known, not_active) kept
                  ]
                ]
          ]

  -- A rotation replaces a session by one of the same user with the same end.
  rotate_session-IsLimited :
      (t now sub id : ℕ) (x : Session) (s s' : State) (signed : Text)
      → find s id ≡ some x
      → rotate_session (table_of sessions) sign_refresh verify hash_token status_of s now sub x id
        ≡ some (signed, s')
      → IsLimited t s
      → IsLimited t s'
  unfolding rotate_session count_by_user_id
  rotate_session-IsLimited t now sub id x s s' signed found rotated limited user_id =
      let p = active_of sessions sign hash_token t user_id in
      let deleted = delete_many s (λ j y. j == id) in
      let blank : Session = record {
        user_id = x.user_id;
        refresh_token_hash = [];
        expires_at = x.expires_at;
      } in
      let token = sign_refresh sub (next deleted) (remaining_seconds x.expires_at now) in
      let f = λ (y : Session). record y { refresh_token_hash = hash_token token } in
      let is : s' ≡ write (create deleted blank) (next deleted) f = ground (arith, found) in
      let written = sessions.count-write (create deleted blank) (next deleted) f p (λ j y. refl) in
      let created = sessions.count-create deleted blank p in
      elim (Bool-cases (x.user_id == user_id && ltb t x.expires_at)) [
        | inl counted ↦
            let fewer = sessions.count-delete_one s id x p found counted in
            rw is (ground (arith, written, created, counted, fewer, limited user_id))
        | inr uncounted ↦
            let fewer = sessions.count-delete_many s (λ j y. j == id) p in
            rw is (ground (arith, written, created, uncounted, fewer, limited user_id))
      ]

  verify_session_integrity-IsLimited :
      (t now session_id user_id : ℕ) (token : Text) (s : State)
      → IsLimited t s
      → IsLimited t
          (verify_session_integrity
            (table_of sessions)
            sign_refresh
            verify
            hash_token
            status_of
            s
            now
            session_id
            user_id
            token).1
  unfolding verify_session_integrity
  verify_session_integrity-IsLimited t now session_id user_id token s limited u =
      let all_of = λ (owner : ℕ). delete_many-IsLimited t s (λ j x. x.user_id == owner) limited u in
      let one = delete_many-IsLimited t s (λ j x. j == session_id) limited u in
      elim (Option-cases (find s session_id)) [
        | inl missing ↦ ground (arith, missing, all_of user_id)
        | inr (x, found) ↦ ground (arith, found, all_of user_id, all_of x.user_id, one, limited u)
      ]

  refresh-IsLimited :
      (t now : ℕ) (token : Option Text) (s : State)
      → IsLimited t s
      → IsLimited t
          (refresh (table_of sessions) sign_refresh verify hash_token status_of s now token).1
  unfolding refresh
  refresh-IsLimited t now token s limited u =
      elim (Result-cases (validate_refresh_payload verify now token)) [
        | inl (e, refused) ↦ ground (arith, refused, limited u)
        | inr ((payload, raw), valid) ↦
            let id = payload.session_id in
            let checked =
              verify_session_integrity (table_of sessions) sign_refresh verify hash_token status_of
                s now id payload.sub raw in
            let kept = verify_session_integrity-IsLimited t now id payload.sub raw s limited in
            elim (Result-cases checked.0) [
              | inl (e, refused) ↦ ground (arith, valid, refused, kept u)
              | inr (x, passed) ↦
                  let checks =
                    verify_session_integrity-ok (table_of sessions) sign_refresh verify hash_token
                      status_of s checked.1 now id payload.sub raw x (pair_of checked passed) in
                  elim (Option-cases (
                    rotate_session (table_of sessions) sign_refresh verify hash_token status_of
                      checked.1 now payload.sub x id)) [
                        | inl gone ↦ ground (arith, valid, passed, gone, kept u)
                        | inr ((signed, s'), rotated) ↦
                            let there : find checked.1 id ≡ some x =
                              ground (arith, checks.0, checks.1) in
                            let after =
                              rotate_session-IsLimited t now payload.sub id x checked.1 s' signed
                                there rotated kept in
                            ground (arith, valid, passed, rotated, after u)
                      ]
            ]
      ]

  serve-IsLimited :
      (t : ℕ) (r : Request) (s : State) → is_by t r ≡ true → IsLimited t s → IsLimited t (serve s r)
  unfolding logout logout_all terminate_session delete_session delete_others delete_expired
  serve-IsLimited t (login now refresh_ms user_id) s by limited u =
      start_session-IsLimited t now refresh_ms user_id s (ground arith) limited u
  serve-IsLimited t (refresh_with now token) s by limited u =
      refresh-IsLimited t now token s limited u
  serve-IsLimited t (log_out session_id) s by limited u =
      delete_many-IsLimited t s (λ j x. j == session_id) limited u
  serve-IsLimited t (log_out_all user_id keep) s by limited u =
      delete_many-IsLimited t s (λ j x. x.user_id == user_id && not (j == keep)) limited u
  serve-IsLimited t (terminate now user_id current target) s by limited u =
      let kept = delete_many-IsLimited t s (λ j x. j == target) limited u in
      elim (Result-cases
        (terminate_session sessions sign hash_token s now user_id current target)) [
          | inl (e, refused) ↦ ground (arith, refused, limited u)
          | inr (s', done) ↦ ground (arith, done, kept)
        ]
  serve-IsLimited t (replace now refresh_ms status user_id target) s by limited u =
      replace_session-IsLimited t now refresh_ms status user_id target s (ground arith) limited u
  serve-IsLimited t (clean_up now) s by limited u =
      delete_many-IsLimited t s (λ j x. ltb x.expires_at now) limited u

  -- The limit of four sessions: from a state in which each user has at most four sessions that are
  -- not expired at a time `t`, any sequence of logins, refreshes, logouts, terminations, resolutions
  -- of conflicts and clean-ups, of any users, where those that create a session came by `t` and one
  -- after the other, leaves a state with the same bound at `t`.
  pub serve_all-IsLimited :
      (t : ℕ) (requests : List Request) (s : State) (user_id : ℕ)
      → all (is_by t) requests ≡ true
      → IsLimited t s
      → count_by_user_id sessions sign hash_token (serve_all s requests) t user_id ≤ 4
  serve_all-IsLimited t [] s user_id by limited = limited user_id
  serve_all-IsLimited t (r ∷ rs) s user_id by limited =
      serve_all-IsLimited t rs (serve s r) user_id (ground arith)
        (serve-IsLimited t r s (ground arith) limited)
