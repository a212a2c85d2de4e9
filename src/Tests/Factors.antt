-- ===== src/Tests/Factors.antt =====
-- The second factor and its backup codes at concrete inputs.
use ewu_taks.Base.{
  ℕ, ◌≤◌, List, [], ◌∷◌, none, some, Bool, true, Text, text_beq, text_eq, beq_refl, ◌==◌, nat_eq,
  if◌then◌else◌, inl, is_some, ◌≡◌, refl, arith,
}
use ewu_taks.Domain.{User, Owned, active}
use ewu_taks.Auth.BackupCodes.{delete_codes, create_codes, BackupCode, verify_backup_code}
use ewu_taks.Auth.BackupCodes.Once.{Attempt, accepted, left, accepted-le}
use ewu_taks.Auth.SecondFactor.{
  FactorDb, confirm_two_factor_setup, generate_setup, confirm_setup, disable,
}
use ewu_taks.Auth.SecondFactor.Requests.{Request, generate, confirm, turn_off}
use ewu_taks.Auth.SecondFactor.Enabled.{serve_all-HasSecrets}
use ewu_taks.Auth.SecondFactor.Codes.{backup_codes-accepted}
use ewu_taks.Tests.Users.{new_user}
use ewu_taks.Tests.Tables.{session_rows, one_user, one_finder}

abbrev code_row : BackupCode
code_row = record { id = 1; user_id = 7; hash = b'c' ∷ []; used_at = none }

abbrev attempts : List Attempt
attempts = (10, 7, b'c' ∷ []) ∷ (20, 7, b'c' ∷ []) ∷ (30, 8, b'c' ∷ []) ∷ []

accepted-le_example :
    accepted text_beq 7 (b'c' ∷ []) (code_row ∷ []) attempts
    ≤ left text_beq 7 (b'c' ∷ []) (code_row ∷ [])
accepted-le_example = accepted-le text_beq 7 (b'c' ∷ []) (code_row ∷ []) attempts

abbrev devices : Owned
devices = record {
  State = ℕ → ℕ;
  count = λ s id. s id;
  delete_all = λ s id j. if id == j then 0 else s j;
  count-delete_all = λ s id j. refl;
}

-- a code is right if it is the secret
abbrev fits : Text → Text → ℕ → Bool
fits secret code now = text_beq secret code

abbrev hash : Text → Text
hash t = t

abbrev factors : FactorDb one_user one_finder session_rows devices fits hash text_beq hash
factors = record {
  users_now = some (record new_user { status = active });
  codes_now = [];
  next_code = 1;
  devices_now = λ id. 0;
  sessions_now = (0, λ j. none);
}

abbrev requests : List Request
requests =
    generate 7 (b's' ∷ [])
    ∷ confirm 10 7 (b's' ∷ []) ((b'c' ∷ []) ∷ []) 3
    ∷ turn_off 20 7 (b'x' ∷ [])
    ∷ []

abbrev secured_user : User
secured_user = record new_user {
  status = active;
  two_factor_secret = some (b's' ∷ []);
  is_two_factor_enabled = true;
  two_factor_confirmed_at = some 10;
}

serve_all-HasSecrets_example : is_some secured_user.two_factor_secret ≡ true
unfolding confirm_two_factor_setup generate_setup confirm_setup disable
serve_all-HasSecrets_example =
    serve_all-HasSecrets one_user one_finder session_rows devices fits hash text_beq hash factors
      requests 7 secured_user (λ id u found. ground arith) refl refl

abbrev user_with_secret : User
user_with_secret = record new_user { status = active; two_factor_secret = some (b's' ∷ []) }

abbrev started : FactorDb one_user one_finder session_rows devices fits hash text_beq hash
started = record factors { users_now = some user_with_secret }

abbrev confirmed : FactorDb one_user one_finder session_rows devices fits hash text_beq hash
confirmed = record factors {
  users_now =
      some (record user_with_secret {
        is_two_factor_enabled = true;
        two_factor_confirmed_at = some 10;
      });
  codes_now = code_row ∷ [];
  next_code = 2;
}

backup_codes-accepted_example :
    (verify_backup_code text_beq confirmed.codes_now 20 7 (b'c' ∷ [])).0 ≡ true
unfolding confirm_setup delete_codes create_codes
backup_codes-accepted_example =
    backup_codes-accepted one_user one_finder session_rows devices fits hash text_beq hash
      (λ t. beq_refl t) started confirmed 10 7 20 (b's' ∷ []) (b'c' ∷ []) ((b'c' ∷ []) ∷ [])
      ((b'c' ∷ []) ∷ []) (inl refl) refl
