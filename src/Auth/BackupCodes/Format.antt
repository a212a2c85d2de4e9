-- ===== src/Auth/BackupCodes/Format.antt =====
-- The shape of a backup code, and what its characters share.
use ewu_taks.Base.{
  ℕ, ◌+◌, ◌-◌, ◌/◌, ◌%◌, [], ◌∷◌, Text, Bool, true, false, ◌&&◌, leb, ◌==◌, ◌≡◌, arith,
}
use ewu_taks.Auth.BackupCodes.{plain_code, digit_at}

abbrev is_upper : ℕ → Bool
is_upper c = leb 65 c && leb c 90

abbrev is_digit : ℕ → Bool
is_digit c = leb 48 c && leb c 57

-- `AAAA-0000`
abbrev pub is_backup_code : Text → Bool
is_backup_code (a ∷ b ∷ c ∷ d ∷ e ∷ f ∷ g ∷ h ∷ i ∷ []) =
    is_upper a
    && is_upper b
    && is_upper c
    && is_upper d
    && e == b'-'
    && is_digit f
    && is_digit g
    && is_digit h
    && is_digit i
is_backup_code other = false

-- The last digit and the third letter of a code are both even or both odd.
abbrev pub shares_parity : Text → Bool
shares_parity (a ∷ b ∷ c ∷ d ∷ e ∷ f ∷ g ∷ h ∷ i ∷ []) = (c - 65) % 2 == (i - 48) % 2
shares_parity other = false

is_upper-letter : (w : ℕ) → is_upper (65 + w % 26) ≡ true
is_upper-letter w = ground arith

is_digit-digit_at : (power n : ℕ) → is_digit (digit_at power n) ≡ true
is_digit-digit_at power n = let m : ℕ = n / power in is_digit_of m
  where
    is_digit_of : (m : ℕ) → is_digit (48 + m % 10) ≡ true
    is_digit_of m = ground arith

-- Whatever the random bytes are, a code has four capital letters, a dash and four digits.
pub plain_code-format : (w0 w1 w2 w3 : ℕ) → is_backup_code (plain_code w0 w1 w2 w3) ≡ true
unfolding plain_code
plain_code-format w0 w1 w2 w3 =
    let n = w2 % 10000 + 10000 in
    simp (
      is_upper-letter w0,
      is_upper-letter w1,
      is_upper-letter w2,
      is_upper-letter w3,
      is_digit-digit_at 1000 n,
      is_digit-digit_at 100 n,
      is_digit-digit_at 10 n,
      is_digit-digit_at 1 n,
    )

-- Whatever the random bytes are, the last digit of a code is odd if and only if its third letter has
-- an odd place in the alphabet, counted from 0.
pub plain_code-parity : (w0 w1 w2 w3 : ℕ) → shares_parity (plain_code w0 w1 w2 w3) ≡ true
unfolding plain_code
plain_code-parity w0 w1 w2 w3 = ground arith
