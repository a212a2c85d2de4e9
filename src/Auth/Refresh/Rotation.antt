-- ===== src/Auth/Refresh/Rotation.antt =====
-- What a refresh that returns found and what it leaves.
use ewu_taks.Base.{
  ℕ, ◌≤◌, ◌<◌, [], ◌∷◌, Option, none, some, true, false, if◌then◌else◌, Text, nat_eq, text_beq,
  text_beq_iff, ◌==◌, ==_iff, ltb, ok, ◌≡◌, ◌≢◌, arith, Result-cases, ap, Option-cases, Bool-cases,
  inl, inr,
}
use ewu_taks.Domain.{UserStatus, status_beq, status_beq_lem, active}
use ewu_taks.Auth.Refresh.{
  Session, SessionTable, RefreshPayload, validate_refresh_payload, verify_session_integrity,
  rotate_session, refresh, remaining_seconds,
}

module _ (table : SessionTable) (sign : ℕ → ℕ → ℕ → Text)
    (verify : Text → ℕ → Option RefreshPayload) (hash : Text → Text)
    (status_of : ℕ → UserStatus) where
  open table use {
    State, find, next, create, write, delete, delete_all, find-next, find-create, find-write,
    find-delete, next-delete,
  }

  -- The session of the token was its user's, live and of an active user; it is gone, and a new one
  -- of the same user, that ends when the old one did, stands in its place.
  pub record Rotated (db db' : State) (now : ℕ) (token signed : Text) : Type 0 where
    pub payload : RefreshPayload
    pub session : Session
    pub verified : verify token now ≡ some payload
    pub is_refresh : payload.is_refresh ≡ true
    pub found : find db payload.session_id ≡ some session
    pub owner : session.user_id ≡ payload.sub
    pub same_hash : hash token ≡ session.refresh_token_hash
    pub live : now ≤ session.expires_at
    pub is_active : status_of payload.sub ≡ active
    pub old_gone : find db' payload.session_id ≡ none
    pub new_there :
        find db' (next db)
        ≡ some (record {
          user_id = payload.sub;
          refresh_token_hash = hash signed;
          expires_at = session.expires_at;
        })
    pub others : (j : ℕ) → payload.session_id ≢ j → next db ≢ j → find db' j ≡ find db j

  -- A session that passes the checks.
  pub verify_session_integrity-ok :
      (db db' : State) (now session_id user_id : ℕ) (token : Text) (session : Session)
      → verify_session_integrity table sign verify hash status_of db now session_id user_id token
        ≡ (ok session, db')
      → (db' ≡ db)
        × (find db session_id ≡ some session)
        × (session.user_id ≡ user_id)
        × (hash token ≡ session.refresh_token_hash)
        × (now ≤ session.expires_at)
        × (status_of session.user_id ≡ active)
  unfolding verify_session_integrity
  verify_session_integrity-ok db db' now session_id user_id token session h =
      elim (Option-cases (find db session_id)) [
        | inl missing ↦ absurd (ground arith)
        | inr (x, found) ↦
            let owned : (x.user_id == user_id) ≡ true = ground (arith, found) in
            let hashes : text_beq (hash token) x.refresh_token_hash ≡ true =
              ground (arith, found, owned) in
            let live : ltb x.expires_at now ≡ false = ground (arith, found, owned, hashes) in
            let acts : status_beq (status_of x.user_id) active ≡ true =
              ground (arith, found, owned, hashes, live) in
            let same : x ≡ session = ground (arith, found, owned, hashes, live, acts) in
            (
              ground (arith, found, owned, hashes, live, acts),
              rw (← same) found,
              rw (← same) ((==_iff x.user_id user_id).0 owned),
              rw (← same) ((text_beq_iff (hash token) x.refresh_token_hash).0 hashes),
              rw (← same) (ground arith),
              rw (← same) (status_beq_lem _ _ acts),
            )
      ]

  -- The rows after a session is deleted, another created, and that one written.
  find-replaced :
      (db : State) (session_id j : ℕ) (x : Session) (f : Session → Session)
      → let deleted = delete db session_id in
        find (write (create deleted x) (next deleted) f) j
        ≡ (if next db == j then some (f x) else if session_id == j then none else find db j)
  find-replaced db session_id j x f =
      let deleted = delete db session_id in
      let created = create deleted x in
      rw
        (
          find-write created (next deleted) j f,
          find-create deleted x j,
          find-delete db session_id j,
          next-delete db session_id,
        )
        (ground arith)

  -- What the rotation of a session leaves.
  rotate_session-some :
      (db db' : State) (now sub session_id : ℕ) (session : Session) (signed : Text)
      → find db session_id ≡ some session
      → rotate_session table sign verify hash status_of db now sub session session_id
        ≡ some (signed, db')
      → (find db' session_id ≡ none)
        × (find db' (next db)
            ≡ some (record {
              user_id = session.user_id;
              refresh_token_hash = hash signed;
              expires_at = session.expires_at;
            }))
        × ((j : ℕ) → session_id ≢ j → next db ≢ j → find db' j ≡ find db j)
  unfolding rotate_session
  rotate_session-some db db' now sub session_id session signed found h =
      let fresh : session_id < next db = elim (Bool-cases (ltb session_id (next db))) [
        | inl below ↦ ground arith
        | inr above ↦ absurd (ground (arith, find-next db session_id (ground arith), found))
      ] in
      let deleted = delete db session_id in
      let x : Session = record {
        user_id = session.user_id;
        refresh_token_hash = [];
        expires_at = session.expires_at;
      } in
      let token = sign sub (next deleted) (remaining_seconds session.expires_at now) in
      let f = λ (y : Session). record y { refresh_token_hash = hash token } in
      let is_token : token ≡ signed = ground (arith, found) in
      let left : write (create deleted x) (next deleted) f ≡ db' = ground (arith, found) in
      (
        rw (← left, find-replaced db session_id session_id x f)
            (ground (arith, ==_iff session_id session_id)),
        rw (← left, ← is_token, find-replaced db session_id (next db) x f)
            (ground (arith, ==_iff (next db) (next db))),
        λ j ne fresh_ne.
            rw (← left, find-replaced db session_id j x f)
              (ground (arith, ==_iff session_id j, ==_iff (next db) j)),
      )

  refresh_checked :
      (db db' : State) (now : ℕ) (token signed : Text) (p : RefreshPayload)
      → verify token now ≡ some p
      → p.is_refresh ≡ true
      → refresh table sign verify hash status_of db now (some token) ≡ (ok signed, db')
      → Rotated db db' now token signed
  unfolding refresh validate_refresh_payload
  refresh_checked db db' now [] signed p verified is_refresh h = absurd (ground arith)
  refresh_checked db db' now (c ∷ cs) signed p verified is_refresh h =
      let token = c ∷ cs in
      let checked =
        verify_session_integrity table sign verify hash status_of db now p.session_id p.sub token in
      elim (Result-cases checked.0) [
        | inl (e, refused) ↦ absurd (ground (arith, verified, is_refresh, refused))
        | inr (session, allowed) ↦
            let (same, found, owner, hashes, live, acts) =
              verify_session_integrity-ok db checked.1 now p.session_id p.sub token session
                (ap (λ r. (r, checked.1)) allowed) in
            let rotated : rotate_session table sign verify hash status_of db now p.sub session
                  p.session_id
                ≡ some (signed, db') =
              ground (arith, verified, is_refresh, allowed, same) in
            let (gone, there, others) =
              rotate_session-some db db' now p.sub p.session_id session signed found rotated in
            record {
              payload = p;
              session = session;
              verified = verified;
              is_refresh = is_refresh;
              found = found;
              owner = owner;
              same_hash = hashes;
              live = live;
              is_active = rw owner at acts;
              old_gone = gone;
              new_there = rw owner at there;
              others = others;
            }
      ]

  -- A refresh that returns a token found, by a valid refresh token, a session of the token's user
  -- with the token's hash, not expired and of an active user; it removed that session, put a new
  -- one of the same user with the same end and the hash of the new token in its place, and left
  -- all others alone.
  pub refresh-Rotated :
      (db db' : State) (now : ℕ) (token signed : Text)
      → refresh table sign verify hash status_of db now (some token) ≡ (ok signed, db')
      → Rotated db db' now token signed
  unfolding refresh validate_refresh_payload
  refresh-Rotated db db' now [] signed h = absurd (ground arith)
  refresh-Rotated db db' now (c ∷ cs) signed h = elim (Option-cases (verify (c ∷ cs) now)) [
    | inl missing ↦ absurd (ground arith)
    | inr (p, verified) ↦ elim (Bool-cases p.is_refresh) [
      | inr other ↦ absurd (ground (arith, verified))
      | inl is_refresh ↦ refresh_checked db db' now (c ∷ cs) signed p verified is_refresh h
    ]
  ]
