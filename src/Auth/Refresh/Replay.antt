-- ===== src/Auth/Refresh/Replay.antt =====
-- What becomes of a refresh token that comes back.
use ewu_taks.Base.{
  ℕ, [], ◌∷◌, Option, none, some, true, false, Text, nat_eq, ==_iff, ok, err, is_some, ◌≡◌, ◌≢◌,
  ◌⊎◌, ◌∙◌, ap, refl, arith, Option-cases, inl, inr,
}
use ewu_taks.Domain.{UserStatus}
use ewu_taks.Auth.Refresh.{
  Session, SessionTable, RefreshPayload, session_revoked, invalid_token, validate_refresh_payload,
  verify_session_integrity, refresh,
}
use ewu_taks.Auth.Refresh.Rotation.{refresh-Rotated}

module _ (table : SessionTable) (sign : ℕ → ℕ → ℕ → Text)
    (verify : Text → ℕ → Option RefreshPayload) (hash : Text → Text)
    (status_of : ℕ → UserStatus) where
  open table use {State, find, next, delete_all, find-delete_all}

  -- The user has no session.
  abbrev pub HasNoSession : State → ℕ → Type 0
  HasNoSession db user_id = (j : ℕ) (x : Session) → find db j ≡ some x → x.user_id ≢ user_id

  delete_all-HasNoSession :
      (db : State) (user_id : ℕ) → HasNoSession (delete_all db user_id) user_id
  delete_all-HasNoSession db user_id j x h same = elim (Option-cases (find db j)) [
    | inl missing ↦ absurd (ground (arith, missing, find-delete_all db user_id j))
    | inr (y, found) ↦
        absurd (ground (arith, found, find-delete_all db user_id j, ==_iff y.user_id user_id))
  ]

  -- A token whose session is gone ends all sessions of its user.
  refresh-gone :
      (db : State) (now : ℕ) (token : Text) (p : RefreshPayload)
      → verify token now ≡ some p
      → p.is_refresh ≡ true
      → find db p.session_id ≡ none
      → token ≢ []
      → refresh table sign verify hash status_of db now (some token)
        ≡ (err session_revoked, delete_all db p.sub)
  unfolding refresh validate_refresh_payload verify_session_integrity
  refresh-gone db now [] p verified is_refresh gone some_text = absurd (some_text refl)
  refresh-gone db now (c ∷ cs) p verified is_refresh gone some_text =
      ground (arith, verified, is_refresh, gone)

  refresh-text :
      (db db' : State) (now : ℕ) (token signed : Text)
      → refresh table sign verify hash status_of db now (some token) ≡ (ok signed, db')
      → token ≢ []
  unfolding refresh validate_refresh_payload
  refresh-text db db' now [] signed h = absurd (ground arith)
  refresh-text db db' now (c ∷ cs) signed h = λ e. cc

  -- A token that is not valid changes nothing.
  refresh-expired :
      (db : State) (now : ℕ) (token : Text)
      → verify token now ≡ none
      → token ≢ []
      → refresh table sign verify hash status_of db now (some token) ≡ (err invalid_token, db)
  unfolding refresh validate_refresh_payload
  refresh-expired db now [] expired some_text = absurd (some_text refl)
  refresh-expired db now (c ∷ cs) expired some_text = ground (arith, expired)

  -- A token that was exchanged for a new one and comes back in the state that the exchange left is
  -- refused at whatever time, where a token has the same content at all times at which it is valid.
  -- If it is still valid, its coming back ends all sessions of the user, the one of the new token
  -- included; if it has expired, nothing changes.
  pub refresh-replayed :
      ((t : Text) (first second : ℕ) (p q : RefreshPayload)
        → verify t first ≡ some p
        → verify t second ≡ some q
        → p ≡ q)
      → (db db' : State) (now later : ℕ) (token signed : Text) (p : RefreshPayload)
      → refresh table sign verify hash status_of db now (some token) ≡ (ok signed, db')
      → verify token now ≡ some p
      → let again = refresh table sign verify hash status_of db' later (some token) in
        ((is_some (verify token later) ≡ true)
          × (again.0 ≡ err session_revoked)
          × HasNoSession again.1 p.sub)
        ⊎ ((is_some (verify token later) ≡ false) × (again ≡ (err invalid_token, db')))
  refresh-replayed constant db db' now later token signed p h verified =
      let r = refresh-Rotated table sign verify hash status_of db db' now token signed h in
      let not_empty = refresh-text db db' now token signed h in
      elim (Option-cases (verify token later)) [
        | inl expired ↦
            inr (ground (arith, expired), refresh-expired db' later token expired not_empty)
        | inr (q, valid) ↦
            let same : q ≡ r.payload = constant token later now q r.payload valid r.verified in
            let is : r.payload ≡ p = ground (arith, r.verified, verified) in
            let again =
              refresh-gone db' later token r.payload (valid ∙ ap some same) r.is_refresh r.old_gone
                not_empty in
            inl (
              ground (arith, valid),
              rw again refl,
              rw (again, ← is) (delete_all-HasNoSession db' r.payload.sub),
            )
      ]
