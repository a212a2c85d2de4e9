-- ===== src/Auth/SecondFactor/Codes.antt =====
-- The codes that a setup or a regeneration hands out are accepted.
use ewu_taks.Base.{
  ℕ, ◌+◌, List, [], ◌∷◌, map, none, some, Bool, true, false, ◌&&◌, Text, text_beq, text_beq_iff,
  text_eq, contains, nat_eq, ==_iff, any, any-append, filter, ok, ◌≡◌, ◌⊎◌, refl, arith,
  Option-cases, Bool-cases, Result-cases, inl, inr,
}
use ewu_taks.Domain.{Table, Owned, User}
use ewu_taks.Auth.Tables.{Finder, SessionRows, find_user}
use ewu_taks.Auth.BackupCodes.{
  BackupCode, is_unused_of, is_unused_id, find_match, find_unused_by_user_id, mark_used_if_unused,
  verify_backup_code, delete_codes, create_codes,
}
use ewu_taks.Auth.BackupCodes.Once.{fits}
use ewu_taks.Auth.SecondFactor.{
  FactorDb, update_row, confirm_setup, regenerate_backup_codes, enabled, replace_codes,
}

-- A row that a query finds is there, not used and of the user.
find_match-unused :
    (matches : Text → Bool) (user_id : ℕ) (rows : List BackupCode) (c : BackupCode)
    → find_match matches (filter (is_unused_of user_id) rows) ≡ some c
    → any (is_unused_id c.id) rows ≡ true
find_match-unused matches user_id [] c h = absurd (ground arith)
find_match-unused matches user_id (d ∷ rows) c h =
    elim (Bool-cases (is_unused_of user_id d && matches d.hash)) [
      | inl here ↦
          let same : d ≡ c = ground (arith, here) in ground (arith, here, same, ==_iff d.id c.id)
      | inr other ↦ ground (arith, find_match-unused matches user_id rows c (ground (arith, other)))
    ]

-- A code that fits a row of the user that is not used is accepted.
verify_backup_code-fits :
    (compare : Text → Text → Bool) (rows : List BackupCode) (now user_id : ℕ) (code : Text)
    → any (fits compare user_id code) rows ≡ true
    → (verify_backup_code compare rows now user_id code).0 ≡ true
unfolding verify_backup_code find_unused_by_user_id mark_used_if_unused
verify_backup_code-fits compare rows now user_id code h =
    elim (Option-cases (find_match (compare code) (filter (is_unused_of user_id) rows))) [
      | inl missing ↦ absurd (ground (arith, missing, missing_none compare user_id code rows, h))
      | inr (c, found) ↦
          ground (arith, found, find_match-unused (compare code) user_id rows c found)
    ]
  where
    missing_none :
        (compare : Text → Text → Bool) (user_id : ℕ) (code : Text) (rows : List BackupCode)
        → find_match (compare code) (filter (is_unused_of user_id) rows) ≡ none
        → any (fits compare user_id code) rows ≡ false
    missing_none compare user_id code [] missing = refl
    missing_none compare user_id code (d ∷ rows) missing =
        elim (Bool-cases (is_unused_of user_id d && compare code d.hash)) [
          | inl here ↦ absurd (ground (arith, here, missing))
          | inr other ↦ ground (
            arith,
            other,
            missing_none compare user_id code rows (ground (arith, other, missing)),
          )
        ]

-- Among the rows of new codes each code fits one.
any-create_codes :
    (compare : Text → Text → Bool) (hash : Text → Text)
    → ((t : Text) → compare t (hash t) ≡ true)
    → (next user_id : ℕ) (plain : List Text) (code : Text) → contains plain code ≡ true
    → any (fits compare user_id code) (create_codes next user_id (map hash plain)) ≡ true
unfolding create_codes
any-create_codes compare hash law next user_id [] code h = h
any-create_codes compare hash law next user_id (p ∷ plain) code h =
    elim (Bool-cases (text_beq p code)) [
      | inl same ↦
          let is : p ≡ code = (text_beq_iff p code).0 same in
          ground (arith, is, law code, ==_iff user_id user_id)
      | inr other ↦ ground (
        arith,
        any-create_codes compare hash law (next + 1) user_id plain code (ground (arith, other)),
      )
    ]

module _ (users : Table User) (finder : Finder users) (sessions : SessionRows) (devices : Owned)
    (verify_totp : Text → Text → ℕ → Bool) (hash : Text → Text) (compare : Text → Text → Bool)
    (hash_token : Text → Text) where
  abbrev Db : Type 0
  Db = FactorDb users finder sessions devices verify_totp hash compare hash_token

  replace_codes-fits :
      ((t : Text) → compare t (hash t) ≡ true)
      → (db : Db) (user_id : ℕ) (plain : List Text) (code : Text) → contains plain code ≡ true
      → any
          (fits compare user_id code)
          (replace_codes users finder sessions devices verify_totp hash compare hash_token db
            user_id plain).codes_now
        ≡ true
  replace_codes-fits law db user_id plain code h = ground (
    arith,
    any-append (fits compare user_id code) (delete_codes db.codes_now user_id)
        (create_codes db.next_code user_id (map hash plain)),
    any-create_codes compare hash law db.next_code user_id plain code h,
  )

  -- Where a password fits its own hash: each code that a confirmed setup hands out is accepted by the
  -- state that it leaves, at any time, and so is each code of a regeneration.
  pub backup_codes-accepted :
      ((t : Text) → compare t (hash t) ≡ true)
      → (db db' : Db) (now user_id later : ℕ) (totp code : Text) (plain codes : List Text)
      → ((confirm_setup users finder sessions devices verify_totp hash compare hash_token db now
              user_id totp plain
            ≡ ok (codes, db'))
          ⊎ (regenerate_backup_codes users finder sessions devices verify_totp hash compare
                hash_token db now user_id totp plain
              ≡ ok (codes, db')))
      → contains codes code ≡ true
      → (verify_backup_code compare db'.codes_now later user_id code).0 ≡ true
  unfolding confirm_setup regenerate_backup_codes
  backup_codes-accepted law db db' now user_id later totp code plain codes (inl done) h =
      elim (Option-cases (find_user users db.users_now user_id)) [
        | inl missing ↦ absurd (ground (arith, missing, done))
        | inr (u, there) ↦
            elim (Result-cases (
              update_row users finder sessions devices verify_totp hash compare hash_token db
                user_id (enabled now))) [
                  | inl (e, failed) ↦ absurd (ground (arith, there, failed, done))
                  | inr (db1, updated) ↦
                      let given : plain ≡ codes = ground (arith, there, updated, done) in
                      let codes_after : db'.codes_now
                          ≡ (replace_codes users finder sessions devices verify_totp hash compare
                              hash_token db1 user_id plain).codes_now =
                        ground (arith, there, updated, done) in
                      rw codes_after (
                        verify_backup_code-fits compare _ later user_id code
                          (replace_codes-fits law db1 user_id plain code (rw given h)))
                ]
      ]
  backup_codes-accepted law db db' now user_id later totp code plain codes (inr done) h =
      elim (Option-cases (find_user users db.users_now user_id)) [
        | inl missing ↦ absurd (ground (arith, missing, done))
        | inr (u, there) ↦
            let given : plain ≡ codes = ground (arith, there, done) in
            let codes_after : db'.codes_now
                ≡ (replace_codes users finder sessions devices verify_totp hash compare hash_token
                    db user_id plain).codes_now =
              ground (arith, there, done) in
            rw codes_after (
              verify_backup_code-fits compare _ later user_id code
                (replace_codes-fits law db user_id plain code (rw given h)))
      ]
