-- ===== src/Tests/Entry.antt =====
-- The two steps of a login at concrete inputs.
use ewu_taks.Base.{
  ℕ, ◌+◌, ◌≤◌, [], ◌∷◌, Option, none, some, true, ltb, if◌then◌else◌, Text, text_beq, text_eq,
  beq_refl, ◌==◌, nat_eq, is_ok, ◌≡◌, refl, arith,
}
use ewu_taks.Domain.{Owned, active, holds}
use ewu_taks.Auth.Login.{validate_login_credentials, check_status, find_for_login}
use ewu_taks.Auth.TwoFactor.{check_lockout}
use ewu_taks.Auth.Sessions.{count_by_user_id}
use ewu_taks.Auth.BackupCodes.{verify_backup_code, find_unused_by_user_id, mark_used_if_unused}
use ewu_taks.Auth.TrustedDevices.{
  TrustedDevice, DeviceRows, SessionMetadata, create_trust_token, validate_trust_token,
}
use ewu_taks.Auth.TrustedDevices.Trust.{create_trust_token-valid}
use ewu_taks.Auth.SecondStep.{Services, EntryDb, Call, check_code, log_in, verify_two_factor}
use ewu_taks.Auth.SecondStep.Allowed.{starts_session, log_in-skips, verify_two_factor-allowed}
use ewu_taks.Auth.SecondStep.Once.{entered, entered-le}
use ewu_taks.Tests.Users.{new_user}
use ewu_taks.Tests.Tables.{session_rows, one_user, one_finder}

-- how many devices a user has, and the device of a token
abbrev Devices : Type 0
Devices = (ℕ → ℕ) × (Text → Option TrustedDevice)

abbrev devices : Owned
devices = record {
  State = Devices;
  count = λ s id. s.0 id;
  delete_all = λ s id. (
    λ j. if id == j then 0 else s.0 j,
    λ h. if holds (λ d. d.user_id == id) (s.1 h) then none else s.1 h,
  );
  count-delete_all = λ s id j. refl;
}

abbrev device_rows : DeviceRows devices
device_rows = record {
  create = λ s d. (
    λ j. if d.user_id == j then s.0 j + 1 else s.0 j,
    λ h. if text_beq d.token_hash h then some d else s.1 h,
  );
  find_by_token_hash = λ s h. s.1 h;
  find-create = λ s d fresh. ground (arith, beq_refl d.token_hash);
}

abbrev services : Services
services = record {
  users = one_user;
  finder = one_finder;
  sessions = session_rows;
  devices = devices;
  device_rows = device_rows;
  by_email = λ s email. some 7;
  verify_totp = λ secret code now. text_beq secret code;
  hash = λ t. t;
  compare = text_beq;
  hash_token = λ t. t;
  sign_refresh = λ user_id session_id. user_id ∷ session_id ∷ [];
  sign_two_factor = λ now user_id. b't' ∷ [];
  verify = λ token now. if ltb now 300000 then some 7 else none;
  max_attempts = 5;
  lockout_ms = 900000;
  token_ms = 300000;
  refresh_ms = 1000;
  device_ms = 5000;
}

abbrev meta : SessionMetadata
meta = record { ip_address = some (b'1' ∷ []); user_agent = none }

abbrev start : EntryDb services
start = record {
  factors = record {
    users_now = some (record new_user {
      status = active;
      password_hash = some (b'p' ∷ []);
      is_two_factor_enabled = true;
      two_factor_secret = some (b's' ∷ []);
    });
    codes_now =
        record { id = 1; user_id = 7; hash = b'c' ∷ []; used_at = none }
        ∷ record { id = 2; user_id = 7; hash = b'd' ∷ []; used_at = none }
        ∷ [];
    next_code = 3;
    devices_now = (λ j. 0, λ h. none);
    sessions_now = (0, λ j. none);
  };
  consumed = [];
}

abbrev with_code : ℕ → Text → Call services
with_code now code = record {
  now = now;
  token = b't' ∷ [];
  code = code;
  meta = meta;
  trust = some (b'r' ∷ []);
  is_redis_up = true;
  is_released = true;
}

entered-le_example :
    entered services
      (b't' ∷ [])
      start
      (with_code 10 (b'x' ∷ []) ∷ with_code 20 (b'c' ∷ []) ∷ with_code 30 (b'd' ∷ []) ∷ [])
    ≤ 1
entered-le_example =
    entered-le services (λ a b h. h) (λ t first second p q h k. ground arith) (b't' ∷ []) start
      (with_code 10 (b'x' ∷ []) ∷ with_code 20 (b'c' ∷ []) ∷ with_code 30 (b'd' ∷ []) ∷ [])

verify_two_factor-allowed_example :
    is_ok (verify_two_factor services start (with_code 10 (b'c' ∷ []))).0 ≡ true
unfolding verify_backup_code find_unused_by_user_id mark_used_if_unused count_by_user_id check_code
    check_lockout
verify_two_factor-allowed_example =
    verify_two_factor-allowed services start (with_code 10 (b'c' ∷ []))

abbrev trusting : EntryDb services
trusting = record start {
  factors = record start.factors {
    devices_now = (
      λ j. 1,
      λ h. some (record {
        user_id = 7;
        token_hash = b'r' ∷ [];
        ip_address = some (b'1' ∷ []);
        user_agent = none;
        expires_at = 500;
      }),
    );
  };
}

log_in-skips_example :
    starts_session
      (log_in services start.factors.users_now trusting 10
        (b'a' ∷ [])
        (b'p' ∷ [])
        meta
        (some (b'r' ∷ []))).0
    ≡ true
unfolding validate_login_credentials check_status find_for_login validate_trust_token
    count_by_user_id
log_in-skips_example =
    log_in-skips services start.factors.users_now trusting 10 (b'a' ∷ []) (b'p' ∷ []) meta
      (some (b'r' ∷ []))

create_trust_token-valid_example :
    validate_trust_token devices device_rows
      (λ t. t)
      (create_trust_token devices device_rows
        (λ t. t)
        (λ j. 0, λ h. none)
        10
        5000
        (b'r' ∷ [])
        7
        meta)
      20
      (b'r' ∷ [])
      7
      meta
    ≡ true
create_trust_token-valid_example =
    create_trust_token-valid devices device_rows (λ t. t) (λ j. 0, λ h. none) 10 5000 20 7 7
      (b'r' ∷ []) meta refl
