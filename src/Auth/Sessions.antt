-- ===== src/Auth/Sessions.antt =====
-- The sessions of a user in auth.service.ts (enforceSessionLimit, createLoginSession,
-- resolveSessionConflict, logout, logoutAll, terminateSession, listSessions) with what they call of
-- session.repository.ts. A request runs as a whole: the lock of enforceSessionLimit, which keeps
-- other logins of the user out, is not modelled, nor the cache of sessions, the trusted device and
-- the token of a conflict.
pub mod Limit
pub mod Conflict
use ewu_taks.Base.{
  ℕ, ◌+◌, List, [], ◌∷◌, Option, none, some, Bool, true, false, not, ◌&&◌, if◌then◌else◌, Text,
  text_beq, text_eq, ◌==◌, nat_eq, ltb, leb, any, is_some, Result, ok, err, ◌>>=◌, ◌>>◌, require,
}
use ewu_taks.Domain.{UserStatus, status_beq, active, holds}
use ewu_taks.Auth.Refresh.{Session}
use ewu_taks.Auth.Tables.{SessionRows, equals_text}

abbrev pub max_concurrent_sessions : ℕ
max_concurrent_sessions = 4

-- two minutes
abbrev pub session_mgmt_token_ms : ℕ
session_mgmt_token_ms = 120000

pub data SessionError : Type 0 where
  max_sessions_reached invalid_token wrong_ip session_not_found token_used : SessionError
  redis_unavailable user_not_found contact_administrator current_session : SessionError

-- `ISessionMgmtTokenPayload`
pub record MgmtPayload : Type 0 where
  pub sub : ℕ
  pub bound_ip : Text

abbrev pub is_owned : ℕ → Option Session → Bool
is_owned user_id none = false
is_owned user_id (some x) = x.user_id == user_id

-- Whether a token was used and Redis still keeps it.
abbrev pub is_consumed : List (Text × ℕ) → ℕ → Text → Bool
is_consumed consumed now key = any (λ e. text_beq e.0 key && ltb now e.1) consumed

module _ (sessions : SessionRows) (sign : ℕ → ℕ → Text) (hash_token : Text → Text) where
  open sessions use {State, find, next, create, write, delete_many, count}

  -- The sessions of a user that are not expired.
  abbrev pub active_of : ℕ → ℕ → ℕ → Session → Bool
  active_of now user_id j x = x.user_id == user_id && ltb now x.expires_at

  unfoldable pub count_by_user_id : State → ℕ → ℕ → ℕ
  count_by_user_id s now user_id = count s (active_of now user_id)

  unfoldable pub find_by_id : State → ℕ → ℕ → Option Session
  find_by_id s now id = elim (find s id) [
    | none ↦ none
    | some x ↦ if ltb now x.expires_at then some x else none
  ]

  unfoldable pub delete_session : State → ℕ → State
  delete_session s id = delete_many s (λ j x. j == id)

  unfoldable pub delete_others : State → ℕ → ℕ → State
  delete_others s user_id keep = delete_many s (λ j x. x.user_id == user_id && not (j == keep))

  unfoldable pub delete_expired : State → ℕ → State
  delete_expired s now = delete_many s (λ j x. ltb x.expires_at now)

  -- `createLoginSession` of the repository: the signed token and the table
  unfoldable pub create_login_session : State → ℕ → ℕ → Text × State
  create_login_session s user_id expires_at =
      let id = next s in
      let created =
        create s (record { user_id = user_id; refresh_token_hash = []; expires_at = expires_at }) in
      let signed = sign user_id id in
      (signed, write created id (λ x. record x { refresh_token_hash = hash_token signed }))

  unfoldable pub enforce_session_limit : State → ℕ → ℕ → Result SessionError (Unit {0})
  unfolding count_by_user_id
  enforce_session_limit s now user_id =
      if leb max_concurrent_sessions (count_by_user_id s now user_id)
      then err max_sessions_reached
      else ok tt

  -- The end of a login whose user is known, with or without a second factor.
  unfoldable pub start_session : State → ℕ → ℕ → ℕ → Result SessionError (Text × State)
  unfolding enforce_session_limit create_login_session
  start_session s now refresh_ms user_id = enforce_session_limit s now user_id >>= λ checked.
      ok (create_login_session s user_id (now + refresh_ms))

  unfoldable pub logout : State → ℕ → State
  unfolding delete_session
  logout s session_id = delete_session s session_id

  unfoldable pub logout_all : State → ℕ → ℕ → State
  unfolding delete_others
  logout_all s user_id current_session_id = delete_others s user_id current_session_id

  unfoldable pub terminate_session : State → ℕ → ℕ → ℕ → ℕ → Result SessionError State
  unfolding find_by_id delete_session
  terminate_session s now user_id current_id target_id =
      require (not (target_id == current_id)) current_session
      >> require (is_owned user_id (find_by_id s now target_id)) session_not_found
      >> ok (delete_session s target_id)

  -- The tokens that were used, each with the time until which Redis keeps it.
  pub record ConflictDb : Type 0 where
    pub sessions_now : State
    pub consumed : List (Text × ℕ)

  -- The steps after the token is consumed.
  unfoldable pub replace_session :
      State → ℕ → ℕ → Option UserStatus → ℕ → ℕ → Result SessionError Text × State
  unfolding delete_session count_by_user_id create_login_session
  replace_session s now refresh_ms status user_id target_id =
      let deleted = delete_session s target_id in
      let created = create_login_session deleted user_id (now + refresh_ms) in
      if leb max_concurrent_sessions (count_by_user_id deleted now user_id)
      then (err max_sessions_reached, deleted)
      else elim status [
        | none ↦ (err user_not_found, deleted)
        | some st ↦
            if status_beq st active
            then (ok created.0, created.1)
            else (err contact_administrator, deleted)
      ]

  -- `resolveSessionConflict`. `verify` reads a token at a time, `is_redis_up` says whether Redis
  -- answers, `status_of` is the status of the user, `none` for one that is not found.
  unfoldable pub resolve_session_conflict :
      (Text → ℕ → Option MgmtPayload)
      → (ℕ → Option UserStatus)
      → Bool
      → ConflictDb
      → ℕ
      → ℕ
      → Text
      → ℕ
      → Option Text
      → Result SessionError Text × ConflictDb
  resolve_session_conflict verify status_of is_redis_up db now refresh_ms token target_id ip =
      elim (verify token now) [
        | none ↦ (err invalid_token, db)
        | some payload ↦
            let key = hash_token token in
            let replaced =
              replace_session db.sessions_now now refresh_ms (status_of payload.sub) payload.sub
                target_id in
            if not (equals_text ip payload.bound_ip)
            then (err wrong_ip, db)
            else if not (is_owned payload.sub (find_by_id db.sessions_now now target_id))
            then (err session_not_found, db)
            else if not is_redis_up
            then (err redis_unavailable, db)
            else if is_consumed db.consumed now key
            then (err token_used, db)
            else (
              replaced.0,
              record {
                sessions_now = replaced.1;
                consumed = (key, now + session_mgmt_token_ms) ∷ db.consumed;
              },
            )
      ]
