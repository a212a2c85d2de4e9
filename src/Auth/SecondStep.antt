-- ===== src/Auth/SecondStep.antt =====
-- `login` and `verifyTwoFactor` of auth.service.ts. The parameters are the tables and packages that
-- they use; `verify` reads a two-factor token at a time. Redis keeps the tokens that were used, and
-- a request on it may fail; the database does not. A call runs as a whole, without the
-- lock of enforceSessionLimit, and writes that the source does not wait for are done at once.
pub mod Allowed
pub mod Once
use ewu_taks.Base.{
  ℕ, ◌+◌, List, [], ◌∷◌, Option, none, some, Bool, true, false, not, ◌&&◌, if◌then◌else◌, Text,
  text_beq, text_eq, ◌==◌, nat_eq, leb, ltb, all, filter, length, Result, ok, err,
}
use ewu_taks.Domain.{Table, Owned, User, UserStatus, status_beq, active}
use ewu_taks.Auth.Tables.{Finder, SessionRows, find_user}
use ewu_taks.Auth.Login.{
  LoginError, find_for_login, validate_login_credentials, clear_login_attempts,
}
use ewu_taks.Auth.TwoFactor.{check_lockout, check_and_record_failed_attempt, clear_attempts}
use ewu_taks.Auth.BackupCodes.{BackupCode, verify_backup_code}
use ewu_taks.Auth.Sessions.{is_consumed, enforce_session_limit, create_login_session}
use ewu_taks.Auth.SecondFactor.{FactorDb, verify_code}
use ewu_taks.Auth.TrustedDevices.{
  DeviceRows, SessionMetadata, create_trust_token, validate_trust_token,
}

pub data EntryError : Type 0 where
  refused : LoginError → EntryError
  max_sessions_reached invalid_token too_many_attempts redis_unavailable : EntryError
  token_used invalid_code record_not_found user_not_found contact_administrator : EntryError

-- `LoginResult`: the refresh token of a session, or a two-factor token
pub data LoginResult : Type 0 where
  session : Text → LoginResult
  requires_two_factor : Text → LoginResult

-- What the two methods get from outside, and the configuration.
pub record Services : Type 1 where
  pub users : Table User
  pub finder : Finder users
  pub sessions : SessionRows
  pub devices : Owned
  pub device_rows : DeviceRows devices
  pub by_email : users.State → Text → Option ℕ
  pub verify_totp : Text → Text → ℕ → Bool
  pub hash : Text → Text
  pub compare : Text → Text → Bool
  pub hash_token : Text → Text
  pub sign_refresh : ℕ → ℕ → Text
  pub sign_two_factor : ℕ → ℕ → Text
  pub verify : Text → ℕ → Option ℕ
  pub max_attempts : ℕ
  pub lockout_ms : ℕ
  -- how long Redis keeps a token as used
  pub token_ms : ℕ
  pub refresh_ms : ℕ
  pub device_ms : ℕ

-- `/^\d{6}$/`
abbrev pub is_totp_code : Text → Bool
is_totp_code code = length code == 6 && all (λ c. leb 48 c && leb c 57) code

-- The result of a write that is not waited for.
abbrev pub settled : {State : Type 0} → Option State → State → State
settled none s = s
settled (some s') s = s'

abbrev pub released : Text → List (Text × ℕ) → List (Text × ℕ)
released key consumed = filter (λ e. not (text_beq e.0 key)) consumed

module _ (x : Services) where
  abbrev pub Factors : Type 0
  Factors =
      FactorDb x.users x.finder x.sessions x.devices x.verify_totp x.hash x.compare x.hash_token

  -- The database, and the keys in Redis of the tokens that were used with their ends.
  pub record EntryDb : Type 0 where
    pub factors : Factors
    pub consumed : List (Text × ℕ)

  abbrev pub with_users : EntryDb → x.users.State → EntryDb
  with_users db s = record db { factors = record db.factors { users_now = s } }

  -- `enforceSessionLimit` and `createLoginSession`: the refresh token and the state
  unfoldable pub enter : EntryDb → ℕ → ℕ → Result EntryError Text × EntryDb
  enter db now user_id =
      let f = db.factors in
      let created =
        create_login_session x.sessions x.sign_refresh x.hash_token f.sessions_now user_id
          (now + x.refresh_ms) in
      let cleared =
        settled (clear_login_attempts x.users x.by_email x.compare f.users_now now user_id)
          f.users_now in
      elim (enforce_session_limit x.sessions x.sign_refresh x.hash_token f.sessions_now now
        user_id) [
          | err e ↦ (err max_sessions_reached, db)
          | ok checked ↦ (
            ok created.0,
            record db { factors = record f { sessions_now = created.1; users_now = cleared } },
          )
        ]

  abbrev pub as_login : Result EntryError Text × EntryDb → Result EntryError LoginResult × EntryDb
  as_login (ok token, db) = (ok (session token), db)
  as_login (err e, db) = (err e, db)

  abbrev pub is_trusted : EntryDb → ℕ → ℕ → SessionMetadata → Option Text → Bool
  is_trusted db now user_id meta none = false
  is_trusted db now user_id meta (some []) = false
  is_trusted db now user_id meta (some (c ∷ cs)) =
      validate_trust_token x.devices x.device_rows x.hash_token db.factors.devices_now now (c ∷ cs)
        user_id meta

  -- `login` after the check of the credentials
  unfoldable pub go_on :
      EntryDb
      → ℕ
      → ℕ
      → User
      → SessionMetadata
      → Option Text
      → Result EntryError LoginResult × EntryDb
  unfolding enter
  go_on db now user_id user meta cookie =
      let entered = as_login (enter db now user_id) in
      if user.is_two_factor_enabled
      then (if is_trusted db now user_id meta cookie
          then entered
          else (ok (requires_two_factor (x.sign_two_factor now user_id)), db))
      else entered

  -- `login`. The id comes with the row of the user. The credentials are read in the state `seen`.
  unfoldable pub log_in :
      x.users.State
      → EntryDb
      → ℕ
      → Text
      → Text
      → SessionMetadata
      → Option Text
      → Result EntryError LoginResult × EntryDb
  unfolding go_on
  log_in seen db now email password meta cookie =
      let checked =
        validate_login_credentials x.users x.by_email x.compare seen db.factors.users_now now email
          password in
      let db' = with_users db checked.1 in
      elim checked.0 [
        | err e ↦ (err (refused e), db')
        | ok user ↦ elim (find_for_login x.users x.by_email x.compare seen email) [
          | none ↦ (err user_not_found, db')
          | some (user_id, row) ↦ go_on db' now user_id user meta cookie
        ]
      ]

  -- The code is one of TOTP or a backup code, which is used up.
  unfoldable pub check_code : Factors → ℕ → ℕ → Text → Bool × Factors
  check_code f now user_id code =
      let looked = verify_backup_code x.compare f.codes_now now user_id code in
      if is_totp_code code
      then (
        verify_code x.users x.finder x.sessions x.devices x.verify_totp x.hash x.compare
            x.hash_token f now user_id code,
        f,
      )
      else (looked.0, record f { codes_now = looked.1 })

  -- A wrong code: the claim is released if Redis answers, and the attempt counted.
  unfoldable pub fail_code : EntryDb → Bool → ℕ → ℕ → Text → Result EntryError Text × EntryDb
  fail_code db is_released now user_id key =
      let db' = record db {
        consumed = if is_released then released key db.consumed else db.consumed;
      } in
      elim (check_and_record_failed_attempt x.users x.max_attempts x.lockout_ms db.factors.users_now
        now user_id) [
          | none ↦ (err record_not_found, db')
          | some s ↦ (err invalid_code, with_users db' s)
        ]

  -- A right code, up to the trust token.
  unfoldable pub pass_code : EntryDb → ℕ → ℕ → Result EntryError Text × EntryDb
  unfolding enter
  pass_code db now user_id =
      let f = db.factors in
      let db' = with_users db (settled (clear_attempts x.users f.users_now user_id) f.users_now) in
      let entered = enter db' now user_id in
      elim (find_user x.users db'.factors.users_now user_id) [
        | none ↦ (err user_not_found, db')
        | some user ↦
            if status_beq user.status active then entered else (err contact_administrator, db')
      ]

  -- The trust token, if it is asked for and the session is there.
  abbrev pub add_trust :
      ℕ
      → ℕ
      → Option Text
      → SessionMetadata
      → Result EntryError Text × EntryDb
      → Result EntryError Text × EntryDb
  add_trust now user_id none meta r = r
  add_trust now user_id (some raw_token) meta (err e, db) = (err e, db)
  add_trust now user_id (some raw_token) meta (ok token, db) = (
    ok token,
    record db {
      factors = record db.factors {
        devices_now =
            create_trust_token x.devices x.device_rows x.hash_token db.factors.devices_now now
              x.device_ms raw_token user_id meta;
      };
    },
  )

  -- What a call of `verifyTwoFactor` comes with: whether Redis answers to the claim and to its
  -- release, and the raw trust token where `trustDevice` is set.
  pub record Call : Type 0 where
    pub now : ℕ
    pub token : Text
    pub code : Text
    pub meta : SessionMetadata
    pub trust : Option Text
    pub is_redis_up : Bool
    pub is_released : Bool

  -- `verifyTwoFactor`
  unfoldable pub verify_two_factor : EntryDb → Call → Result EntryError Text × EntryDb
  unfolding check_code fail_code pass_code
  verify_two_factor db c = elim (x.verify c.token c.now) [
    | none ↦ (err invalid_token, db)
    | some user_id ↦
        let key = x.hash_token c.token in
        let checked = check_code db.factors c.now user_id c.code in
        let claimed : EntryDb = record {
          factors = checked.1;
          consumed = (key, c.now + x.token_ms) ∷ db.consumed;
        } in
        if not (check_lockout x.users db.factors.users_now c.now user_id)
        then (err too_many_attempts, db)
        else if not c.is_redis_up
        then (err redis_unavailable, db)
        else if is_consumed db.consumed c.now key
        then (err token_used, db)
        else if checked.0
        then add_trust c.now user_id c.trust c.meta (pass_code claimed c.now user_id)
        else fail_code claimed c.is_released c.now user_id key
  ]
