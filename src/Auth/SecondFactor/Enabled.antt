-- ===== src/Auth/SecondFactor/Enabled.antt =====
-- Whoever has the second factor on has a secret to check it against.
use ewu_taks.Base.{
  ℕ, List, [], ◌∷◌, some, Bool, true, not, ◌&&◌, ◌||◌, Text, ◌==◌, nat_eq, is_some, Result, ok, ◌≡◌,
  refl, arith, Option-cases, Bool-cases, Result-cases, inl, inr,
}
use ewu_taks.Domain.{Table, Owned, User, holds}
use ewu_taks.Auth.Tables.{Finder, SessionRows, find_user, equals_text}
use ewu_taks.Auth.Password.{is_recent}
use ewu_taks.Auth.SecondFactor.{
  delete_codes_and_devices, recovery_cooldown_ms, FactorDb, TwoFactorError, generate_setup,
  confirm_setup, confirm_two_factor_setup, disable, regenerate_backup_codes, admin_disable,
  admin_reset, request_recovery, confirm_recovery, enabled, disabled, admin_disabled, with_secret,
  cleared_recovery, fits_secret,
}
use ewu_taks.Auth.SecondFactor.Requests.{
  Request, generate, confirm, turn_off, regenerate, turn_off_by_admin, reset_by_admin, ask_recovery,
  recover, serve as serve_request, serve_all as serve_requests, HasSecrets as AllSecured,
  update as update_by, IsUpdated as IsUpdatedBy, applied as applied_by,
  updated_or_not as updated_by, update_row-HasSecrets as update_row-AllSecured,
  find_user-some as found_user,
}

module _ (users : Table User) (finder : Finder users) (sessions : SessionRows) (devices : Owned)
    (verify_totp : Text → Text → ℕ → Bool) (hash : Text → Text) (compare : Text → Text → Bool)
    (hash_token : Text → Text) where
  open users use {find, write, find-write}

  abbrev Db : Type 0
  Db = FactorDb users finder sessions devices verify_totp hash compare hash_token

  abbrev serve : Db → Request → Db
  serve = serve_request users finder sessions devices verify_totp hash compare hash_token

  abbrev serve_all : Db → List Request → Db
  serve_all = serve_requests users finder sessions devices verify_totp hash compare hash_token

  abbrev HasSecrets : users.State → Type 0
  HasSecrets = AllSecured users finder sessions devices verify_totp hash compare hash_token

  abbrev update : Db → ℕ → (User → User) → Result TwoFactorError Db
  update = update_by users finder sessions devices verify_totp hash compare hash_token

  abbrev IsUpdated : Db → Db → ℕ → (User → User) → Type 0
  IsUpdated = IsUpdatedBy users finder sessions devices verify_totp hash compare hash_token

  generate-HasSecrets :
      (db : Db) (user_id : ℕ) (secret : Text)
      → HasSecrets db.users_now
      → HasSecrets (serve db (generate user_id secret)).users_now
  unfolding generate_setup
  generate-HasSecrets db user_id secret secured =
      let f = with_secret secret in
      let after = serve db (generate user_id secret) in
      let effect : IsUpdated db after user_id f =
        elim (Bool-cases
          (holds (λ u. u.is_two_factor_enabled) (find_user users db.users_now user_id))) [
            | inl on ↦ inl (ground (arith, on))
            | inr off ↦
                applied_by users finder sessions devices verify_totp hash compare hash_token db
                  after user_id f (ground (arith, off))
          ] in
      updated_by users finder sessions devices verify_totp hash compare hash_token db after user_id
        f effect (λ v e. refl) secured

  confirm-HasSecrets :
      (db : Db) (now user_id current : ℕ) (code : Text) (plain : List Text)
      → HasSecrets db.users_now
      → HasSecrets (serve db (confirm now user_id code plain current)).users_now
  unfolding confirm_two_factor_setup confirm_setup
  confirm-HasSecrets db now user_id current code plain secured =
      let after = serve db (confirm now user_id code plain current) in
      elim (Option-cases (find_user users db.users_now user_id)) [
        | inl missing ↦
            let same : after.users_now ≡ db.users_now = ground (arith, missing) in rw same secured
        | inr (u, there) ↦
            let passes =
              is_some u.two_factor_secret
              && not u.is_two_factor_enabled
              && fits_secret users finder sessions devices verify_totp hash compare hash_token
                  u.two_factor_secret code now in
            elim (Bool-cases passes) [
              | inr refused ↦
                  let same : after.users_now ≡ db.users_now = ground (arith, there, refused) in
                  rw same secured
              | inl passed ↦
                  let effect : IsUpdated db after user_id (enabled now) =
                    applied_by users finder sessions devices verify_totp hash compare hash_token db
                      after user_id (enabled now) (ground (arith, there, passed)) in
                  let row =
                    (found_user users finder sessions devices verify_totp hash compare hash_token
                      db.users_now user_id u there).0 in
                  updated_by users finder sessions devices verify_totp hash compare hash_token db
                    after user_id (enabled now) effect (λ v at. ground (arith, at, row, passed))
                    secured
            ]
      ]

  turn_off-HasSecrets :
      (db : Db) (now user_id : ℕ) (code : Text)
      → HasSecrets db.users_now
      → HasSecrets (serve db (turn_off now user_id code)).users_now
  unfolding disable
  turn_off-HasSecrets db now user_id code secured =
      let after = serve db (turn_off now user_id code) in
      elim (Option-cases (find db.users_now user_id)) [
        | inl missing ↦
            let same : after.users_now ≡ db.users_now = ground (arith, missing) in rw same secured
        | inr (u, there) ↦
            let effect : IsUpdated db after user_id disabled =
              elim (Bool-cases (
                u.is_two_factor_enabled
                && is_some u.two_factor_secret
                && not u.is_two_factor_enforced
                && fits_secret users finder sessions devices verify_totp hash compare hash_token
                    u.two_factor_secret code now)) [
                      | inr refused ↦ inl (ground (arith, there, refused))
                      | inl passed ↦
                          applied_by users finder sessions devices verify_totp hash compare
                            hash_token db after user_id disabled (ground (arith, there, passed))
                    ] in
            updated_by users finder sessions devices verify_totp hash compare hash_token db after
              user_id disabled effect (λ v at. refl) secured
      ]

  regenerate-users :
      (db : Db) (now user_id : ℕ) (code : Text) (plain : List Text)
      → (serve db (regenerate now user_id code plain)).users_now ≡ db.users_now
  unfolding regenerate_backup_codes
  regenerate-users db now user_id code plain =
      elim (Option-cases (find_user users db.users_now user_id)) [
        | inl missing ↦ ground (arith, missing)
        | inr (u, there) ↦
            elim (Bool-cases (
              u.is_two_factor_enabled
              && is_some u.two_factor_secret
              && fits_secret users finder sessions devices verify_totp hash compare hash_token
                  u.two_factor_secret code now)) [
                    | inr refused ↦ ground (arith, there, refused)
                    | inl passed ↦ ground (arith, there, passed)
                  ]
      ]

  turn_off_by_admin-HasSecrets :
      (db : Db) (user_id : ℕ)
      → HasSecrets db.users_now
      → HasSecrets (serve db (turn_off_by_admin user_id)).users_now
  unfolding admin_disable
  turn_off_by_admin-HasSecrets db user_id secured =
      let after = serve db (turn_off_by_admin user_id) in
      let effect : IsUpdated db after user_id admin_disabled =
        elim (Bool-cases (
          holds (λ u. u.is_two_factor_enabled || u.is_two_factor_enforced)
            (find_user users db.users_now user_id))) [
              | inr refused ↦ inl (ground (arith, refused))
              | inl passed ↦
                  applied_by users finder sessions devices verify_totp hash compare hash_token db
                    after user_id admin_disabled (ground (arith, passed))
            ] in
      updated_by users finder sessions devices verify_totp hash compare hash_token db after user_id
        admin_disabled effect (λ v at. refl) secured

  admin_reset-HasSecrets :
      (db db' : Db) (user_id : ℕ) (clear : Bool)
      → admin_reset users finder sessions devices verify_totp hash compare hash_token db user_id
          clear
        ≡ ok db'
      → HasSecrets db.users_now
      → HasSecrets db'.users_now
  unfolding admin_reset
  admin_reset-HasSecrets db db' user_id clear h secured =
      elim (Result-cases (update db user_id admin_disabled)) [
        | inl (e, failed) ↦ absurd (ground (arith, failed))
        | inr (db1, done) ↦
            let first =
              update_row-AllSecured users finder sessions devices verify_totp hash compare
                hash_token db db1 user_id admin_disabled done (λ v at. refl) secured in
            elim (Bool-cases clear) [
              | inr kept ↦
                  let same : db'.users_now ≡ db1.users_now = ground (arith, done, kept) in
                  rw same first
              | inl cleared ↦
                  let removed =
                    delete_codes_and_devices users finder sessions devices verify_totp hash compare
                      hash_token db1 user_id in
                  let signed_out = record removed {
                    sessions_now =
                        sessions.delete_many removed.sessions_now (λ j x. x.user_id == user_id);
                  } in
                  update_row-AllSecured users finder sessions devices verify_totp hash compare
                    hash_token signed_out db' user_id cleared_recovery
                    (ground (arith, done, cleared)) (first user_id) first
            ]
      ]

  ask_recovery-HasSecrets :
      (db : Db) (now user_id : ℕ) (token : Text)
      → HasSecrets db.users_now
      → HasSecrets (serve db (ask_recovery now user_id token)).users_now
  unfolding request_recovery
  ask_recovery-HasSecrets db now user_id token secured =
      let f = λ (v : User). record v {
        two_factor_recovery_token = some (hash_token token);
        two_factor_recovery_requested_at = some now;
      } in
      let after = serve db (ask_recovery now user_id token) in
      let effect : IsUpdated db after user_id f =
        elim (Option-cases (find_user users db.users_now user_id)) [
          | inl missing ↦ inl (ground (arith, missing))
          | inr (u, there) ↦
              elim (Bool-cases (
                u.is_two_factor_enabled
                && not (is_recent recovery_cooldown_ms now u.two_factor_recovery_requested_at))) [
                  | inr refused ↦ inl (ground (arith, there, refused))
                  | inl passed ↦
                      applied_by users finder sessions devices verify_totp hash compare hash_token
                        db after user_id f (ground (arith, there, passed))
                ]
        ] in
      updated_by users finder sessions devices verify_totp hash compare hash_token db after user_id
        f effect (secured user_id) secured

  recover-HasSecrets :
      (db : Db) (now : ℕ) (token : Text)
      → HasSecrets db.users_now
      → HasSecrets (serve db (recover now token)).users_now
  unfolding confirm_recovery
  recover-HasSecrets db now token secured =
      let after = serve db (recover now token) in
      let p = λ (u : User). equals_text u.two_factor_recovery_token (hash_token token) in
      elim (Result-cases (
        confirm_recovery users finder sessions devices verify_totp hash compare hash_token db now
          token)) [
            | inl (e, refused) ↦
                let same : after.users_now ≡ db.users_now = ground (arith, refused) in
                rw same secured
            | inr (db', done) ↦ elim (Option-cases (finder.find_first db.users_now p)) [
              | inl missing ↦ absurd (ground (arith, missing, done))
              | inr ((id, u), there) ↦
                  let reset : admin_reset users finder sessions devices verify_totp hash compare
                        hash_token db id true
                      ≡ ok db' =
                    ground (arith, there, done) in
                  let same : after.users_now ≡ db'.users_now = ground (arith, done) in
                  rw same (admin_reset-HasSecrets db db' id true reset secured)
            ]
          ]

  serve-HasSecrets :
      (db : Db) (r : Request) → HasSecrets db.users_now → HasSecrets (serve db r).users_now
  serve-HasSecrets db (generate user_id secret) secured =
      generate-HasSecrets db user_id secret secured
  serve-HasSecrets db (confirm now user_id code plain current) secured =
      confirm-HasSecrets db now user_id current code plain secured
  serve-HasSecrets db (turn_off now user_id code) secured =
      turn_off-HasSecrets db now user_id code secured
  serve-HasSecrets db (regenerate now user_id code plain) secured =
      rw (regenerate-users db now user_id code plain) secured
  serve-HasSecrets db (turn_off_by_admin user_id) secured =
      turn_off_by_admin-HasSecrets db user_id secured
  serve-HasSecrets db (reset_by_admin user_id clear) secured =
      elim (Result-cases (
        admin_reset users finder sessions devices verify_totp hash compare hash_token db user_id
          clear)) [
            | inl (e, refused) ↦
                let same : (serve db (reset_by_admin user_id clear)).users_now ≡ db.users_now =
                  ground (arith, refused) in
                rw same secured
            | inr (db', done) ↦
                let same : (serve db (reset_by_admin user_id clear)).users_now ≡ db'.users_now =
                  ground (arith, done) in
                rw same (admin_reset-HasSecrets db db' user_id clear done secured)
          ]
  serve-HasSecrets db (ask_recovery now user_id token) secured =
      ask_recovery-HasSecrets db now user_id token secured
  serve-HasSecrets db (recover now token) secured = recover-HasSecrets db now token secured

  -- Under every sequence of setups, confirmations, deactivations by the user and by an
  -- administrator, new backup codes, resets and recoveries, one after the other, each user with the
  -- second factor on has a secret, if that held at the start.
  pub serve_all-HasSecrets :
      (db : Db) (requests : List Request) (id : ℕ) (u : User)
      → HasSecrets db.users_now
      → find (serve_all db requests).users_now id ≡ some u
      → u.is_two_factor_enabled ≡ true
      → is_some u.two_factor_secret ≡ true
  serve_all-HasSecrets db [] id u secured found enabled =
      ground (arith, secured id u found, enabled)
  serve_all-HasSecrets db (r ∷ rs) id u secured found enabled =
      serve_all-HasSecrets (serve db r) rs id u (serve-HasSecrets db r secured) found enabled
