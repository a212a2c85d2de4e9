-- ===== src/Auth/BackupCodes/Once.antt =====
-- How often a backup code is accepted.
use ewu_taks.Base.{
  ℕ, ◌+◌, ◌≤◌, List, [], ◌∷◌, some, Bool, ◌&&◌, if◌then◌else◌, Text, text_beq, text_beq_iff, ◌==◌,
  nat_eq, ==_iff, filter, length, ◌≡◌, arith, Option-cases, Bool-cases, inl, inr,
}
use ewu_taks.Auth.BackupCodes.{
  BackupCode, is_unused_of, find_match, find_unused_by_user_id, mark_used_if_unused,
  verify_backup_code,
}

-- The rows of a user that are not used and fit a code.
abbrev pub fits : (Text → Text → Bool) → ℕ → Text → BackupCode → Bool
fits compare user_id code c = is_unused_of user_id c && compare code c.hash

abbrev pub left : (Text → Text → Bool) → ℕ → Text → List BackupCode → ℕ
left compare user_id code rows = length (filter (fits compare user_id code) rows)

module _ (compare : Text → Text → Bool) (user_id : ℕ) (code : Text) where
  left-marked-le :
      (now id : ℕ) (rows : List BackupCode)
      → left compare user_id code (mark_used_if_unused rows now id).1
        ≤ left compare user_id code rows
  unfolding mark_used_if_unused
  left-marked-le now id [] = omega arith
  left-marked-le now id (c ∷ rows) = ground (arith, left-marked-le now id rows)

  left-marked-lt :
      (now : ℕ) (c : BackupCode) (rows : List BackupCode)
      → find_match (compare code) (find_unused_by_user_id rows user_id) ≡ some c
      → left compare user_id code (mark_used_if_unused rows now c.id).1 + 1
        ≤ left compare user_id code rows
  unfolding mark_used_if_unused find_unused_by_user_id
  left-marked-lt now c [] h = absurd (ground arith)
  left-marked-lt now c (d ∷ rows) h =
      let fewer = left-marked-le now c.id rows in
      elim (Bool-cases (is_unused_of user_id d)) [
        | inl open_row ↦ elim (Bool-cases (compare code d.hash)) [
          | inl matches ↦
              let same : d ≡ c = ground (arith, open_row, matches, h) in
              ground (arith, open_row, matches, same, fewer, ==_iff d.id c.id)
          | inr differs ↦
              let later = left-marked-lt now c rows (ground (arith, open_row, differs, h)) in
              ground (arith, open_row, differs, later)
        ]
        | inr closed ↦
            let later = left-marked-lt now c rows (ground (arith, closed, h)) in
            ground (arith, closed, later)
      ]

-- An attempt: the time, the user and the code.
abbrev pub Attempt : Type 0
Attempt = ℕ × ℕ × Text

module _ (compare : Text → Text → Bool) (user_id : ℕ) (code : Text) where
  abbrev pub is_attempt : Attempt → Bool
  is_attempt a = a.1 == user_id && text_beq a.2 code

  -- How many attempts of the user with the code are accepted among all attempts.
  abbrev pub accepted : List BackupCode → List Attempt → ℕ
  accepted rows [] = 0
  accepted rows (a ∷ attempts) =
      let answer = verify_backup_code compare rows a.0 a.1 a.2 in
      let rest = accepted answer.1 attempts in (if answer.0 && is_attempt a then 1 else 0) + rest

  left-verify_backup_code :
      (rows : List BackupCode) (a : Attempt)
      → let answer = verify_backup_code compare rows a.0 a.1 a.2 in
        (if answer.0 && is_attempt a then 1 else 0) + left compare user_id code answer.1
        ≤ left compare user_id code rows
  unfolding verify_backup_code
  left-verify_backup_code rows (now, owner, given) =
      elim (Option-cases (find_match (compare given) (find_unused_by_user_id rows owner))) [
        | inl missing ↦ ground (arith, missing)
        | inr (c, found) ↦ elim (Bool-cases (owner == user_id && text_beq given code)) [
          | inl same ↦
              let is_owner : owner ≡ user_id = ground (arith, same, ==_iff owner user_id) in
              let is_code : given ≡ code = (text_beq_iff given code).0 (ground (arith, same)) in
              let found' : find_match (compare code) (find_unused_by_user_id rows user_id)
                  ≡ some c =
                ground (arith, found, is_owner, is_code) in
              ground (arith, found, same, left-marked-lt compare user_id code now c rows found')
          | inr other ↦
              ground (arith, found, other, left-marked-le compare user_id code now c.id rows)
        ]
      ]

  -- In any sequence of attempts, of all users and with all codes, a code of a user is accepted at
  -- most as often as there were rows of the user that were not used and fit it: once, where one row
  -- does.
  pub accepted-le :
      (rows : List BackupCode) (attempts : List Attempt)
      → accepted rows attempts ≤ left compare user_id code rows
  accepted-le rows [] = omega arith
  accepted-le rows (a ∷ attempts) =
      let answer = verify_backup_code compare rows a.0 a.1 a.2 in
      omega (arith, accepted-le answer.1 attempts, left-verify_backup_code rows a)
