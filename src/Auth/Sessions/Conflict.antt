-- ===== src/Auth/Sessions/Conflict.antt =====
-- What the resolution of a session conflict does, and that its token works once.
use ewu_taks.Base.{
  ℕ, ◌+◌, ◌<◌, List, [], ◌∷◌, ◌++◌, Option, none, some, Bool, true, false, Text, text_eq, beq_refl,
  ◌==◌, nat_eq, ==_iff, ltb, leb, Result, ok, ◌≡◌, ◌≢◌, ap, ◌∙◌, arith, Option-cases, Bool-cases,
  inl, inr,
}
use ewu_taks.Domain.{UserStatus, status_beq, status_beq_lem, active}
use ewu_taks.Auth.Refresh.{Session}
use ewu_taks.Auth.Tables.{SessionRows, equals_text, equals_text-some, find-delete}
use ewu_taks.Auth.Sessions.{
  SessionError, MgmtPayload, ConflictDb, resolve_session_conflict, replace_session, find_by_id,
  is_owned, is_consumed, delete_session, create_login_session, count_by_user_id,
  max_concurrent_sessions,
}

is_consumed-added :
    (since rest : List (Text × ℕ)) (key : Text) (until later : ℕ)
    → later < until
    → is_consumed (since ++ (key, until) ∷ rest) later key ≡ true
is_consumed-added [] rest key until later soon = ground (arith, soon, beq_refl key)
is_consumed-added (e ∷ since) rest key until later soon =
    ground (arith, is_consumed-added since rest key until later soon)

module _ (sessions : SessionRows) (sign : ℕ → ℕ → Text) (hash_token : Text → Text)
    (verify : Text → ℕ → Option MgmtPayload) (status_of : ℕ → Option UserStatus) where
  open sessions use {State, find, next, create, write, delete_many, count}

  abbrev pub Db : Type 0
  Db = ConflictDb sessions sign hash_token

  abbrev pub resolve : Bool → Db → ℕ → ℕ → Text → ℕ → Option Text → Result SessionError Text × Db
  resolve = resolve_session_conflict sessions sign hash_token verify status_of

  -- What holds of a resolution that returns.
  pub record IsResolved (db db' : Db) (now refresh_ms : ℕ) (token : Text) (target : ℕ)
      (ip : Option Text) (payload : MgmtPayload) : Type 0 where
    pub verified : verify token now ≡ some payload
    pub from_ip : equals_text ip payload.bound_ip ≡ true
    pub owned :
        is_owned payload.sub (find_by_id sessions sign hash_token db.sessions_now now target) ≡ true
    pub fresh : is_consumed db.consumed now (hash_token token) ≡ false
    pub is_active : status_of payload.sub ≡ some active
    pub below :
        leb max_concurrent_sessions (
          count_by_user_id sessions sign hash_token
            (delete_session sessions sign hash_token db.sessions_now target)
            now
            payload.sub)
        ≡ false
    pub replaced :
        db'.sessions_now
        ≡ (create_login_session sessions sign hash_token
            (delete_session sessions sign hash_token db.sessions_now target)
            payload.sub
            (now + refresh_ms)).1
    pub consumed : db'.consumed ≡ ((hash_token token, now + 120000) ∷ db.consumed)

  replace_session-ok :
      (s : State) (now refresh_ms user_id target : ℕ) (status : Option UserStatus) (signed : Text)
      → (replace_session sessions sign hash_token s now refresh_ms status user_id target).0
        ≡ ok signed
      → (leb max_concurrent_sessions (
            count_by_user_id sessions sign hash_token
              (delete_session sessions sign hash_token s target)
              now
              user_id)
          ≡ false)
        × (status ≡ some active)
        × ((replace_session sessions sign hash_token s now refresh_ms status user_id target).1
            ≡ (create_login_session sessions sign hash_token
                (delete_session sessions sign hash_token s target)
                user_id
                (now + refresh_ms)).1)
  unfolding replace_session
  replace_session-ok s now refresh_ms user_id target status signed h =
      elim (Bool-cases (
        leb max_concurrent_sessions (
          count_by_user_id sessions sign hash_token
            (delete_session sessions sign hash_token s target) now user_id))) [
              | inl full ↦ absurd (ground (arith, full))
              | inr free ↦ elim (Option-cases status) [
                | inl unknown ↦ absurd (ground (arith, free, unknown))
                | inr (st, known) ↦ elim (Bool-cases (status_beq st active)) [
                  | inl acts ↦ (
                    free,
                    known ∙ ap some (status_beq_lem st active acts),
                    ground (arith, free, known, acts),
                  )
                  | inr idle ↦ absurd (ground (arith, free, known, idle))
                ]
              ]
            ]

  resolve-IsResolved :
      (is_redis_up : Bool) (db : Db) (now refresh_ms target : ℕ) (token signed : Text)
      → (ip : Option Text) → (resolve is_redis_up db now refresh_ms token target ip).0 ≡ ok signed
      → (payload : MgmtPayload) × IsResolved db
          (resolve is_redis_up db now refresh_ms token target ip).1
          now
          refresh_ms
          token
          target
          ip
          payload
  unfolding resolve_session_conflict
  resolve-IsResolved is_redis_up db now refresh_ms target token signed ip h =
      elim (Option-cases (verify token now)) [
        | inl missing ↦ absurd (ground (arith, missing))
        | inr (payload, verified) ↦
            let from_ip : equals_text ip payload.bound_ip ≡ true = ground (arith, verified) in
            let owned : is_owned payload.sub
                  (find_by_id sessions sign hash_token db.sessions_now now target)
                ≡ true =
              ground (arith, verified, from_ip) in
            let up : is_redis_up ≡ true = ground (arith, verified, from_ip, owned) in
            let fresh : is_consumed db.consumed now (hash_token token) ≡ false =
              ground (arith, verified, from_ip, owned, up) in
            let parts =
              replace_session-ok db.sessions_now now refresh_ms payload.sub target
                (status_of payload.sub) signed
                (ground (arith, verified, from_ip, owned, up, fresh)) in
            (
              payload,
              record {
                verified = verified;
                from_ip = from_ip;
                owned = owned;
                fresh = fresh;
                is_active = parts.1;
                below = parts.0;
                replaced = ground (arith, verified, from_ip, owned, up, fresh, parts.2);
                consumed = ground (arith, verified, from_ip, owned, up, fresh);
              },
            )
      ]

  find-create_login_session :
      (s : State) (user_id expires_at j : ℕ)
      → j < next s
      → find (create_login_session sessions sign hash_token s user_id expires_at).1 j ≡ find s j
  unfolding create_login_session
  find-create_login_session s user_id expires_at j below =
      let blank : Session = record {
        user_id = user_id;
        refresh_token_hash = [];
        expires_at = expires_at;
      } in
      let f =
        λ (x : Session). record x { refresh_token_hash = hash_token (sign user_id (next s)) } in
      ground (
        arith,
        sessions.find-write (create s blank) (next s) j f,
        sessions.find-create s blank j,
        ==_iff (next s) j,
      )

  owned_row :
      (s : State) (now user_id target : ℕ)
      → is_owned user_id (find_by_id sessions sign hash_token s now target) ≡ true
      → (x : Session) × (find s target ≡ some x) × (x.user_id ≡ user_id) × (now < x.expires_at)
  unfolding find_by_id
  owned_row s now user_id target h = elim (Option-cases (find s target)) [
    | inl missing ↦ absurd (ground (arith, missing))
    | inr (x, found) ↦
        let live : ltb now x.expires_at ≡ true = ground (arith, found) in
        (x, found, ground (arith, found, live, ==_iff x.user_id user_id), ground (arith, live))
  ]

  -- The resolution of a conflict that returns comes with a valid token, from the address that the
  -- token is bound to, for an active user; the session that it ends was one of that user that was
  -- not expired, and is gone.
  pub resolve-replaces :
      (is_redis_up : Bool) (db : Db) (now refresh_ms target : ℕ) (token signed : Text)
      → (ip : Option Text) → (resolve is_redis_up db now refresh_ms token target ip).0 ≡ ok signed
      → (payload : MgmtPayload) × (x : Session) × (verify token now ≡ some payload)
        × (ip ≡ some payload.bound_ip)
        × (status_of payload.sub ≡ some active)
        × (find db.sessions_now target ≡ some x)
        × (x.user_id ≡ payload.sub)
        × (now < x.expires_at)
        × (find ((resolve is_redis_up db now refresh_ms token target ip).1).sessions_now target
            ≡ none)
  unfolding delete_session
  resolve-replaces is_redis_up db now refresh_ms target token signed ip h =
      let (payload, r) =
        resolve-IsResolved is_redis_up db now refresh_ms target token signed ip h in
      let row = owned_row db.sessions_now now payload.sub target r.owned in
      let deleted = delete_session sessions sign hash_token db.sessions_now target in
      let below : target < next db.sessions_now =
        elim (Bool-cases (ltb target (next db.sessions_now))) [
          | inl lower ↦ ground (arith, lower)
          | inr above ↦ absurd (
              ground
                (arith, sessions.find-next db.sessions_now target (ground (arith, above)), row.1))
        ] in
      let same_next = sessions.next-delete_many db.sessions_now (λ j x. j == target) in
      let kept =
        find-create_login_session deleted payload.sub (now + refresh_ms) target
          (ground (arith, below, same_next)) in
      (
        payload,
        row.0,
        r.verified,
        equals_text-some ip payload.bound_ip r.from_ip,
        r.is_active,
        row.1,
        row.2,
        row.3,
        ap (λ (s : State). find s target) r.replaced
            ∙ kept
            ∙ ground
                (arith, find-delete sessions db.sessions_now target target, ==_iff target target),
      )

  -- A token for a conflict works once, where a token is valid for less than the two minutes that
  -- Redis keeps it as used: after a resolution that returns, the same token is refused without any
  -- effect, whatever the sessions are by then, whichever other tokens were used, from any address
  -- and for any session.
  pub resolve-once :
      ((t : Text) (first second : ℕ) (p q : MgmtPayload)
        → verify t first ≡ some p
        → verify t second ≡ some q
        → second < first + 120000)
      → (is_redis_up : Bool) (db : Db) (now refresh_ms target : ℕ) (token signed : Text)
      → (ip : Option Text) → (resolve is_redis_up db now refresh_ms token target ip).0 ≡ ok signed
      → (is_redis_up' : Bool) (db' : Db) (later target' : ℕ) (ip' : Option Text)
      → (since : List (Text × ℕ))
      → db'.consumed
        ≡ (since ++ ((resolve is_redis_up db now refresh_ms token target ip).1).consumed)
      → ((resolve is_redis_up' db' later refresh_ms token target' ip').1 ≡ db')
        × ((signed' : Text)
            → (resolve is_redis_up' db' later refresh_ms token target' ip').0 ≢ ok signed')
  unfolding resolve_session_conflict
  resolve-once brief is_redis_up db now refresh_ms target token signed ip h is_redis_up' db' later
        target' ip' since grown =
      let (payload, r) =
        resolve-IsResolved is_redis_up db now refresh_ms target token signed ip h in
      elim (Option-cases (verify token later)) [
        | inl missing ↦ (ground (arith, missing), λ signed' e. ground (arith, missing, e))
        | inr (p, verified) ↦
            let soon = brief token now later payload p r.verified verified in
            let used : is_consumed db'.consumed later (hash_token token) ≡ true =
              ap (λ (c : List (Text × ℕ)). is_consumed c later (hash_token token))
                (grown ∙ ap (λ (c : List (Text × ℕ)). since ++ c) r.consumed)
              ∙ is_consumed-added since db.consumed (hash_token token) (now + 120000) later soon in
            (ground (arith, verified, used), λ signed' e. ground (arith, verified, used, e))
      ]
