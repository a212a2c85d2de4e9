-- ===== src/Auth/BackupCodes.antt =====
-- The backup codes of two-factor.service.ts (generatePlainBackupCodes, verifyBackupCode) and
-- backup-code.repository.ts. The table is the list of its rows in the order in which a query returns
-- them; `compare` is the comparison of the password hash. The row lock on the user makes the calls
-- for a user come one after the other.
pub mod Once
pub mod Format
use ewu_taks.Base.{
  ℕ, ◌+◌, ◌-◌, ◌*◌, ◌/◌, ◌%◌, List, [], ◌∷◌, ◌++◌, map, Option, none, some, Bool, true, false, not,
  ◌&&◌, if◌then◌else◌, Text, ◌==◌, nat_eq, filter, any, length, is_some,
}

pub record BackupCode : Type 0 where
  pub id : ℕ
  pub user_id : ℕ
  pub hash : Text
  pub used_at : Option ℕ

abbrev pub is_unused_of : ℕ → BackupCode → Bool
is_unused_of user_id c = c.user_id == user_id && not (is_some c.used_at)

unfoldable pub find_unused_by_user_id : List BackupCode → ℕ → List BackupCode
find_unused_by_user_id rows user_id = filter (is_unused_of user_id) rows

unfoldable pub count_unused_by_user_id : List BackupCode → ℕ → ℕ
unfolding find_unused_by_user_id
count_unused_by_user_id rows user_id = length (find_unused_by_user_id rows user_id)

-- `where: { id, usedAt: null }`
abbrev pub is_unused_id : ℕ → BackupCode → Bool
is_unused_id id c = c.id == id && not (is_some c.used_at)

-- Whether a row was marked, and the rows.
unfoldable pub mark_used_if_unused : List BackupCode → ℕ → ℕ → Bool × List BackupCode
mark_used_if_unused rows now id = (
  any (is_unused_id id) rows,
  map (λ c. if is_unused_id id c then record c { used_at = some now } else c) rows,
)

unfoldable pub delete_codes : List BackupCode → ℕ → List BackupCode
delete_codes rows user_id = filter (λ c. not (c.user_id == user_id)) rows

-- `createMany`; ids count up from `next`.
unfoldable pub create_codes : ℕ → ℕ → List Text → List BackupCode
create_codes next user_id [] = []
create_codes next user_id (h ∷ hashes) =
    record { id = next; user_id = user_id; hash = h; used_at = none }
    ∷ create_codes (next + 1) user_id hashes

-- `results.find((r) => r.isMatch)`
abbrev pub find_match : (Text → Bool) → List BackupCode → Option BackupCode
find_match matches [] = none
find_match matches (c ∷ cs) =
    let rest = find_match matches cs in if matches c.hash then some c else rest

module _ (compare : Text → Text → Bool) where
  -- `verifyBackupCode`, with the rows that it leaves
  unfoldable pub verify_backup_code : List BackupCode → ℕ → ℕ → Text → Bool × List BackupCode
  unfolding find_unused_by_user_id
  verify_backup_code rows now user_id code =
      elim (find_match (compare code) (find_unused_by_user_id rows user_id)) [
        | none ↦ (false, rows)
        | some c ↦ mark_used_if_unused rows now c.id
      ]

-- The decimal digit of a number at a power of ten, as a character
abbrev pub digit_at : ℕ → ℕ → ℕ
digit_at power n = 48 + (n / power) % 10

-- A code from the four 16-bit words of its eight random bytes: `readUInt16BE(i * 2)` is the word
-- `i`, so that `readUInt16BE(4)` is the third.
unfoldable pub plain_code : ℕ → ℕ → ℕ → ℕ → Text
plain_code w0 w1 w2 w3 =
    let digits = w2 % 10000 + 10000 in
    (65 + w0 % 26)
    ∷ (65 + w1 % 26)
    ∷ (65 + w2 % 26)
    ∷ (65 + w3 % 26)
    ∷ b'-'
    ∷ digit_at 1000 digits
    ∷ digit_at 100 digits
    ∷ digit_at 10 digits
    ∷ digit_at 1 digits
    ∷ []
