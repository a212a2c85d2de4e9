-- ===== src/Auth/TwoFactor/Guesses.antt =====
-- How many codes can be tried.
use ewu_taks.Base.{
  ℕ, ◌+◌, ◌-◌, ◌≤◌, List, [], ◌∷◌, none, some, get_or, Bool, true, false, not, ◌&&◌, if◌then◌else◌,
  leb, ltb,
}
use ewu_taks.Domain.{Table, User}
use ewu_taks.Auth.TwoFactor.{
  failed_code, check_and_record_failed_attempt, check_lockout, clear_attempts,
}

-- The row after a failed code.
abbrev pub after_failure : ℕ → ℕ → ℕ → User → User
after_failure max_attempts lockout_ms now u =
    let v = failed_code now u in
    if leb max_attempts v.two_factor_attempts
    then record v { two_factor_attempts_lockout = some (now + lockout_ms) }
    else v

-- Without a lockout some attempts are left.
abbrev pub is_counted : ℕ → User → Bool
is_counted max_attempts u = elim u.two_factor_attempts_lockout [
  | none ↦ ltb u.two_factor_attempts max_attempts
  | some until ↦ true
]

-- How many codes may still be tried before `end`.
abbrev pub budget : ℕ → ℕ → User → ℕ
budget max_attempts end u = elim u.two_factor_attempts_lockout [
  | none ↦ max_attempts - u.two_factor_attempts
  | some until ↦ if leb end until then 0 else max_attempts
]

abbrev pub is_kind : Bool → Bool → Bool
is_kind true right = right
is_kind false right = not right

module _ (users : Table User) (max_attempts lockout_ms id : ℕ) where
  open users use {find, write, find-write}

  -- A request: its time, and whether its code is right. A lockout keeps it from being looked at; a
  -- wrong code is counted, a right one clears the count.
  abbrev pub attempt : users.State → ℕ × Bool → users.State
  attempt db (now, true) =
      if check_lockout users db now id then get_or (clear_attempts users db id) db else db
  attempt db (now, false) =
      if check_lockout users db now id
      then get_or (check_and_record_failed_attempt users max_attempts lockout_ms db now id) db
      else db

  -- How many codes that are wrong, or right, are looked at.
  abbrev pub tried : Bool → users.State → List (ℕ × Bool) → ℕ
  tried is_right db [] = 0
  tried is_right db ((now, right) ∷ requests) =
      let rest = tried is_right (attempt db (now, right)) requests in
      (if check_lockout users db now id && is_kind is_right right then 1 else 0) + rest

  module _ (start : ℕ) (positive : 1 ≤ max_attempts) where
    abbrev pub in_window : ℕ → Bool
    in_window now = leb start now && ltb now (start + lockout_ms)
