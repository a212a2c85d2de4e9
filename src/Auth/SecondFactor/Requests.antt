-- ===== src/Auth/SecondFactor/Requests.antt =====
-- The requests on the second factor of a user, and what an update of the users keeps.
use ewu_taks.Base.{
  ℕ, List, [], ◌∷◌, some, Bool, true, false, not, ◌||◌, Text, ◌==◌, nat_eq, ==_iff, is_some, Result,
  ok, err, ◌≡◌, ◌⊎◌, arith, Option-cases, Bool-cases, Result-cases, inl, inr,
}
use ewu_taks.Domain.{Table, Owned, User, holds}
use ewu_taks.Auth.Tables.{Finder, SessionRows, find_user}
use ewu_taks.Auth.Sessions.Limit.{after_or}
use ewu_taks.Auth.SecondFactor.{
  FactorDb, TwoFactorError, update_row, generate_setup, confirm_two_factor_setup, disable,
  regenerate_backup_codes, admin_disable, admin_reset, request_recovery, confirm_recovery,
}

pub data Request : Type 0 where
  generate : ℕ → Text → Request
  confirm : ℕ → ℕ → Text → List Text → ℕ → Request
  turn_off : ℕ → ℕ → Text → Request
  regenerate : ℕ → ℕ → Text → List Text → Request
  turn_off_by_admin : ℕ → Request
  reset_by_admin : ℕ → Bool → Request
  ask_recovery : ℕ → ℕ → Text → Request
  recover : ℕ → Text → Request

abbrev pub is_secured : User → Bool
is_secured u = not u.is_two_factor_enabled || is_some u.two_factor_secret

abbrev pub after_pair :
    {State Thrown Codes : Type 0} → State → Result Thrown (Codes × State) → State
after_pair s (err e) = s
after_pair s (ok r) = r.1

module _ (users : Table User) (finder : Finder users) (sessions : SessionRows) (devices : Owned)
    (verify_totp : Text → Text → ℕ → Bool) (hash : Text → Text) (compare : Text → Text → Bool)
    (hash_token : Text → Text) where
  open users use {find, write, find-write}

  abbrev pub Db : Type 0
  Db = FactorDb users finder sessions devices verify_totp hash compare hash_token

  abbrev pub serve : Db → Request → Db
  serve db (generate user_id secret) = after_or db (
      generate_setup users finder sessions devices verify_totp hash compare hash_token db user_id
        secret)
  serve db (confirm now user_id code plain current) = after_pair db (
      confirm_two_factor_setup users finder sessions devices verify_totp hash compare hash_token db
        now user_id code plain current)
  serve db (turn_off now user_id code) = after_or db (
      disable users finder sessions devices verify_totp hash compare hash_token db now user_id code)
  serve db (regenerate now user_id code plain) = after_pair db (
      regenerate_backup_codes users finder sessions devices verify_totp hash compare hash_token db
        now user_id code plain)
  serve db (turn_off_by_admin user_id) =
      after_or db
        (admin_disable users finder sessions devices verify_totp hash compare hash_token db user_id)
  serve db (reset_by_admin user_id clear) = after_or db (
      admin_reset users finder sessions devices verify_totp hash compare hash_token db user_id
        clear)
  serve db (ask_recovery now user_id token) = after_or db (
      request_recovery users finder sessions devices verify_totp hash compare hash_token db now
        user_id token)
  serve db (recover now token) = after_or db (
      confirm_recovery users finder sessions devices verify_totp hash compare hash_token db now
        token)

  abbrev pub serve_all : Db → List Request → Db
  serve_all db [] = db
  serve_all db (r ∷ rs) = serve_all (serve db r) rs

  -- Each user with the second factor on has a secret.
  abbrev pub HasSecrets : users.State → Type 0
  HasSecrets s = (id : ℕ) (u : User) → find s id ≡ some u → is_secured u ≡ true

  -- A write keeps the property if what it writes has it.
  write-HasSecrets :
      (s : users.State) (user_id : ℕ) (f : User → User)
      → ((v : User) → find s user_id ≡ some v → is_secured (f v) ≡ true)
      → HasSecrets s
      → HasSecrets (write s user_id f)
  write-HasSecrets s user_id f good secured id u found = elim (Bool-cases (user_id == id)) [
    | inl same ↦ elim (Option-cases (find s user_id)) [
      | inl missing ↦
          absurd
            (ground (arith, find-write s user_id id f, same, ==_iff user_id id, missing, found))
      | inr (v, there) ↦
          ground
            (arith, find-write s user_id id f, same, ==_iff user_id id, there, found, good v there)
    ]
    | inr other ↦ secured id u (ground (arith, find-write s user_id id f, other, found))
  ]

  pub update_row-HasSecrets :
      (db db' : Db) (user_id : ℕ) (f : User → User)
      → update_row users finder sessions devices verify_totp hash compare hash_token db user_id f
        ≡ ok db'
      → ((v : User) → find db.users_now user_id ≡ some v → is_secured (f v) ≡ true)
      → HasSecrets db.users_now
      → HasSecrets db'.users_now
  update_row-HasSecrets db db' user_id f h good secured =
      elim (Bool-cases (holds (λ u. not u.is_deleted) (find db.users_now user_id))) [
        | inl there ↦
            let is : db'.users_now ≡ write db.users_now user_id f = ground (arith, there) in
            rw is (write-HasSecrets db.users_now user_id f good secured)
        | inr gone ↦ absurd (ground (arith, gone))
      ]

  pub find_user-some :
      (s : users.State) (id : ℕ) (u : User)
      → find_user users s id ≡ some u
      → (find s id ≡ some u) × (u.is_deleted ≡ false)
  find_user-some s id u h = elim (Option-cases (find s id)) [
    | inl missing ↦ absurd (ground (arith, missing))
    | inr (v, there) ↦ elim (Bool-cases v.is_deleted) [
      | inl dead ↦ absurd (ground (arith, there, dead))
      | inr alive ↦
          let same : v ≡ u = ground (arith, there, alive) in
          (ground (arith, there, same), ground (arith, same, alive))
    ]
  ]

  abbrev pub update : Db → ℕ → (User → User) → Result TwoFactorError Db
  update = update_row users finder sessions devices verify_totp hash compare hash_token

  -- A request whose effect on the users is that of one update, or none.
  abbrev pub IsUpdated : Db → Db → ℕ → (User → User) → Type 0
  IsUpdated db after user_id f =
      (after.users_now ≡ db.users_now)
      ⊎ ((db1 : Db) × (update db user_id f ≡ ok db1) × (after.users_now ≡ db1.users_now))

  pub applied :
      (db after : Db) (user_id : ℕ) (f : User → User)
      → after.users_now ≡ (after_or db (update db user_id f)).users_now
      → IsUpdated db after user_id f
  applied db after user_id f h = elim (Result-cases (update db user_id f)) [
    | inl (e, failed) ↦ inl (ground (arith, h, failed))
    | inr (db1, done) ↦ inr (db1, done, ground (arith, h, done))
  ]

  pub updated_or_not :
      (db after : Db) (user_id : ℕ) (f : User → User)
      → IsUpdated db after user_id f
      → ((v : User) → find db.users_now user_id ≡ some v → is_secured (f v) ≡ true)
      → HasSecrets db.users_now
      → HasSecrets after.users_now
  updated_or_not db after user_id f (inl same) good secured = rw same secured
  updated_or_not db after user_id f (inr (db1, done, same)) good secured =
      rw same (update_row-HasSecrets db db1 user_id f done good secured)
