-- ===== src/Auth/SecondStep/Once.antt =====
-- A two-factor token logs in once.
use ewu_taks.Base.{
  ℕ, ◌+◌, ◌≤◌, ◌<◌, List, [], ◌∷◌, Option, none, some, Bool, true, false, ◌&&◌, if◌then◌else◌, Text,
  text_beq, text_beq_iff, text_eq, beq_refl, nat_eq, Result, ok, err, is_ok, ◌≡◌, ap, ◌∙◌, sym,
  subst, refl, arith, Option-cases, Bool-cases, inl, inr,
}
use ewu_taks.Auth.Sessions.{is_consumed}
use ewu_taks.Auth.TwoFactor.{check_lockout, clear_attempts}
use ewu_taks.Auth.TrustedDevices.{SessionMetadata}
use ewu_taks.Auth.SecondStep.{
  Services, EntryError, EntryDb, Call, released, settled, with_users, add_trust, enter, check_code,
  fail_code, pass_code, verify_two_factor,
}
use ewu_taks.Auth.SecondStep.Allowed.{fail-refused}

-- The release of another key keeps a token used.
is_consumed-released :
    (consumed : List (Text × ℕ)) (key other : Text) (now : ℕ)
    → text_beq other key ≡ false
    → is_consumed (released other consumed) now key ≡ is_consumed consumed now key
is_consumed-released [] key other now h = refl
is_consumed-released (e ∷ consumed) key other now h = elim (Bool-cases (text_beq e.0 other)) [
  | inl same ↦
      let is : e.0 ≡ other = (text_beq_iff e.0 other).0 same in
      let differs : text_beq e.0 key ≡ false = ap (λ (t : Text). text_beq t key) is ∙ h in
      ground (arith, same, differs, is_consumed-released consumed key other now h)
  | inr kept ↦ ground (arith, kept, is_consumed-released consumed key other now h)
]

module _ (x : Services) where
  abbrev pub serve : EntryDb x → List (Call x) → EntryDb x
  serve db [] = db
  serve db (c ∷ cs) = serve (verify_two_factor x db c).1 cs

  -- How many calls with the token return.
  abbrev pub entered : Text → EntryDb x → List (Call x) → ℕ
  entered token db [] = 0
  entered token db (c ∷ cs) =
      let answer = verify_two_factor x db c in
      let rest = entered token answer.1 cs in
      (if is_ok answer.0 && text_beq c.token token then 1 else 0) + rest

  -- The token counts as used whenever it is valid.
  abbrev IsUsed : Text → EntryDb x → Type 0
  IsUsed token db =
      (now id : ℕ)
      → x.verify token now ≡ some id
      → is_consumed db.consumed now (x.hash_token token) ≡ true

  enter-consumed :
      (db : EntryDb x) (now user_id : ℕ) → ((enter x db now user_id).1).consumed ≡ db.consumed
  unfolding enter
  enter-consumed db now user_id = ground arith

  pass-consumed :
      (db : EntryDb x) (now user_id : ℕ) → ((pass_code x db now user_id).1).consumed ≡ db.consumed
  unfolding pass_code
  pass-consumed db now user_id =
      let f = db.factors in
      let db' =
        with_users x db (settled (clear_attempts x.users f.users_now user_id) f.users_now) in
      ground (arith, enter-consumed db' now user_id)

  trust-consumed :
      (now user_id : ℕ) (trust : Option Text) (meta : SessionMetadata)
      → (r : Result EntryError Text × EntryDb x)
      → (add_trust x now user_id trust meta r).1.consumed ≡ r.1.consumed
  trust-consumed now user_id none meta r = refl
  trust-consumed now user_id (some t) meta (err e, db) = refl
  trust-consumed now user_id (some t) meta (ok token, db) = refl

  fail-consumed :
      (db : EntryDb x) (is_released : Bool) (now user_id : ℕ) (key : Text)
      → ((fail_code x db is_released now user_id key).1).consumed
        ≡ (if is_released then released key db.consumed else db.consumed)
  unfolding fail_code
  fail-consumed db is_released now user_id key = ground arith

  -- A call that returns found a token that was not used, and uses it.
  accepted-uses :
      (db : EntryDb x) (c : Call x)
      → is_ok (verify_two_factor x db c).0 ≡ true
      → (id : ℕ) × (x.verify c.token c.now ≡ some id)
        × (is_consumed db.consumed c.now (x.hash_token c.token) ≡ false)
        × (((verify_two_factor x db c).1).consumed
            ≡ ((x.hash_token c.token, c.now + x.token_ms) ∷ db.consumed))
  unfolding verify_two_factor
  accepted-uses db c h = elim (Option-cases (x.verify c.token c.now)) [
    | inl invalid ↦ absurd (ground (arith, invalid))
    | inr (id, valid) ↦
        let key = x.hash_token c.token in
        let checked = check_code x db.factors c.now id c.code in
        let claimed : EntryDb x = record {
          factors = checked.1;
          consumed = (key, c.now + x.token_ms) ∷ db.consumed;
        } in
        let free : check_lockout x.users db.factors.users_now c.now id ≡ true =
          ground (arith, valid) in
        let up : c.is_redis_up ≡ true = ground (arith, valid, free) in
        let fresh : is_consumed db.consumed c.now key ≡ false = ground (arith, valid, free, up) in
        let right : checked.0 ≡ true =
          ground
            (arith, valid, free, up, fresh, fail-refused x claimed c.is_released c.now id key) in
        (
          id,
          valid,
          fresh,
          ground (
            arith,
            valid,
            free,
            up,
            fresh,
            right,
            trust-consumed c.now id c.trust c.meta (pass_code x claimed c.now id),
            pass-consumed claimed c.now id,
          ),
        )
  ]

  -- A call with another key leaves a used one used.
  call-keeps :
      (db : EntryDb x) (c : Call x) (key : Text) (now : ℕ)
      → text_beq (x.hash_token c.token) key ≡ false
      → is_consumed db.consumed now key ≡ true
      → is_consumed ((verify_two_factor x db c).1).consumed now key ≡ true
  unfolding verify_two_factor
  call-keeps db c key now differs used = elim (Option-cases (x.verify c.token c.now)) [
    | inl invalid ↦ ground (arith, invalid)
    | inr (id, valid) ↦
        let own = x.hash_token c.token in
        let checked = check_code x db.factors c.now id c.code in
        let grown = (own, c.now + x.token_ms) ∷ db.consumed in
        let claimed : EntryDb x = record { factors = checked.1; consumed = grown } in
        let still : is_consumed grown now key ≡ true = ground (arith, used) in
        let left : is_consumed (released own grown) now key ≡ true =
          is_consumed-released grown key own now differs ∙ still in
        let passed : is_consumed
              ((add_trust x c.now id c.trust c.meta (pass_code x claimed c.now id)).1).consumed now
              key
            ≡ true =
          ap (λ (l : List (Text × ℕ)). is_consumed l now key)
            (trust-consumed c.now id c.trust c.meta (pass_code x claimed c.now id)
              ∙ pass-consumed claimed c.now id)
          ∙ still in
        let failed : is_consumed ((fail_code x claimed c.is_released c.now id own).1).consumed now
              key
            ≡ true =
          ap (λ (l : List (Text × ℕ)). is_consumed l now key)
            (fail-consumed claimed c.is_released c.now id own)
          ∙ ground (arith, still, left) in
        ground (arith, valid, used, passed, failed)
  ]

  -- A call with a used token changes nothing.
  call-used :
      (db : EntryDb x) (c : Call x)
      → IsUsed c.token db
      → ((verify_two_factor x db c).1 ≡ db) × (is_ok (verify_two_factor x db c).0 ≡ false)
  unfolding verify_two_factor
  call-used db c used = elim (Option-cases (x.verify c.token c.now)) [
    | inl invalid ↦ (ground (arith, invalid), ground (arith, invalid))
    | inr (id, valid) ↦
        let gone = used c.now id valid in (ground (arith, valid, gone), ground (arith, valid, gone))
  ]

module _ (x : Services) (separates : (a b : Text) → x.hash_token a ≡ x.hash_token b → a ≡ b)
    (brief : (t : Text) (first second p q : ℕ)
      → x.verify t first ≡ some p
      → x.verify t second ≡ some q
      → second < first + x.token_ms) where
  call-IsUsed :
      (db : EntryDb x) (c : Call x) (token : Text)
      → IsUsed x token db
      → IsUsed x token (verify_two_factor x db c).1
  call-IsUsed db c token used now id valid =
      elim (Bool-cases (text_beq (x.hash_token c.token) (x.hash_token token))) [
        | inl same ↦
            let is : c.token ≡ token =
              separates c.token token
                ((text_beq_iff (x.hash_token c.token) (x.hash_token token)).0 same) in
            let kept = (call-used x db c (subst (λ t. IsUsed x t db) (sym is) used)).0 in
            ap (λ (d : EntryDb x). is_consumed d.consumed now (x.hash_token token)) kept
            ∙ used now id valid
        | inr differs ↦ call-keeps x db c (x.hash_token token) now differs (used now id valid)
      ]

  entered-used :
      (token : Text) (db : EntryDb x) (calls : List (Call x))
      → IsUsed x token db
      → entered x token db calls ≡ 0
  entered-used token db [] used = refl
  entered-used token db (c ∷ cs) used =
      let rest = entered-used token (verify_two_factor x db c).1 cs (call-IsUsed db c token used) in
      elim (Bool-cases (text_beq c.token token)) [
        | inl same ↦
            let is : c.token ≡ token = (text_beq_iff c.token token).0 same in
            let (kept, refused) = call-used x db c (subst (λ t. IsUsed x t db) (sym is) used) in
            ground (arith, same, refused, rest)
        | inr other ↦ ground (arith, other, rest)
      ]

  -- A two-factor token logs in at most once, whatever calls come one after the other, with whatever
  -- tokens and codes, and whether or not Redis answers to each of them: where the hash of the tokens
  -- has no collision and a token is valid for less than the time that Redis keeps it as used.
  pub entered-le :
      (token : Text) (db : EntryDb x) (calls : List (Call x)) → entered x token db calls ≤ 1
  entered-le token db [] = omega arith
  entered-le token db (c ∷ cs) =
      let answer = verify_two_factor x db c in
      let rest = entered-le token answer.1 cs in
      elim (Bool-cases (is_ok answer.0 && text_beq c.token token)) [
        | inl hit ↦
            let is : c.token ≡ token = (text_beq_iff c.token token).0 (ground (arith, hit)) in
            let (id, valid, fresh, grown) = accepted-uses x db c (ground (arith, hit)) in
            let used : IsUsed x c.token answer.1 = λ now p verified.
              let soon = brief c.token c.now now id p valid verified in
              ap (λ (l : List (Text × ℕ)). is_consumed l now (x.hash_token c.token)) grown
              ∙ ground (arith, soon, beq_refl (x.hash_token c.token)) in
            let none_left =
              entered-used token answer.1 cs (subst (λ t. IsUsed x t answer.1) is used) in
            ground (arith, hit, none_left)
        | inr other ↦ ground (arith, other, rest)
      ]
