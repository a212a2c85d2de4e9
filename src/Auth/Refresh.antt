-- ===== src/Auth/Refresh.antt =====
-- `refresh` of auth.service.ts with `rotateSession` of session.repository.ts. A token is what
-- `sign` makes of a user, a session and a time to live; `verify` reads it at a time, or throws where
-- it is not valid or has expired by then, and `hash` is what the database keeps of it. `status_of` is the status of the user that a session is joined
-- with.
pub mod Rotation
pub mod Replay
use ewu_taks.Base.{
  ℕ, suc, ◌+◌, ◌-◌, ◌/◌, ◌≤◌, max, List, [], ◌∷◌, Option, none, some, Bool, true, false, not,
  if◌then◌else◌, Text, nat_eq, text_beq, ◌==◌, ltb, Result, ok, err, ◌>>=◌, ◌>>◌, require, ◌≡◌,
}
use ewu_taks.Domain.{map_option, holds, UserStatus, status_beq, active}

pub record Session : Type 0 where
  pub user_id : ℕ
  pub refresh_token_hash : Text
  pub expires_at : ℕ

-- The sessions table: ids count up and are never given twice.
pub record SessionTable : Type 1 where
  pub State : Type 0
  pub find : State → ℕ → Option Session
  pub next : State → ℕ
  pub create : State → Session → State
  pub write : State → ℕ → (Session → Session) → State
  pub delete : State → ℕ → State
  pub delete_all : State → ℕ → State
  pub find-next : (s : State) (j : ℕ) → next s ≤ j → find s j ≡ none
  pub find-create :
      (s : State) (x : Session) (j : ℕ)
      → find (create s x) j ≡ (if next s == j then some x else find s j)
  pub find-write :
      (s : State) (id j : ℕ) (f : Session → Session)
      → find (write s id f) j ≡ (if id == j then map_option f (find s j) else find s j)
  pub find-delete :
      (s : State) (id j : ℕ) → find (delete s id) j ≡ (if id == j then none else find s j)
  pub find-delete_all :
      (s : State) (user_id j : ℕ)
      → find (delete_all s user_id) j
        ≡ (if holds (λ x. x.user_id == user_id) (find s j) then none else find s j)
  pub next-delete : (s : State) (id : ℕ) → next (delete s id) ≡ next s

pub record RefreshPayload : Type 0 where
  pub sub : ℕ
  pub session_id : ℕ
  pub is_refresh : Bool

pub data RefreshError : Type 0 where
  no_refresh_token invalid_token wrong_token_type session_revoked token_reuse : RefreshError
  session_expired account_not_active record_not_found : RefreshError

-- `validateRefreshPayload`
unfoldable pub validate_refresh_payload :
    (Text → ℕ → Option RefreshPayload)
    → ℕ
    → Option Text
    → Result RefreshError (RefreshPayload × Text)
validate_refresh_payload verify now none = err no_refresh_token
validate_refresh_payload verify now (some []) = err no_refresh_token
validate_refresh_payload verify now (some (c ∷ cs)) = elim (verify (c ∷ cs) now) [
  | none ↦ err invalid_token
  | some payload ↦ if payload.is_refresh then ok (payload, c ∷ cs) else err wrong_token_type
]

-- The seconds that a rotated token lives, at least one minute.
unfoldable pub remaining_seconds : ℕ → ℕ → ℕ
remaining_seconds expires_at now = max 60 ((expires_at - now) / 1000)

module _ (table : SessionTable) (sign : ℕ → ℕ → ℕ → Text)
    (verify : Text → ℕ → Option RefreshPayload) (hash : Text → Text)
    (status_of : ℕ → UserStatus) where
  open table use {State, find, next, create, write, delete, delete_all}

  -- `verifySessionIntegrity`, with the table that it leaves
  unfoldable pub verify_session_integrity :
      State → ℕ → ℕ → ℕ → Text → Result RefreshError Session × State
  verify_session_integrity db now session_id user_id raw_token = elim (find db session_id) [
    | none ↦ (err session_revoked, delete_all db user_id)
    | some session ↦
        if not (session.user_id == user_id)
        then (err session_revoked, delete_all db session.user_id)
        else if not (text_beq (hash raw_token) session.refresh_token_hash)
        then (err token_reuse, delete_all db user_id)
        else if ltb session.expires_at now
        then (err session_expired, delete db session_id)
        else if not (status_beq (status_of session.user_id) active)
        then (err account_not_active, db)
        else (ok session, db)
  ]

  -- `rotateSession`: the new token and the table; `none` is P2025, when the session is gone.
  unfoldable pub rotate_session : State → ℕ → ℕ → Session → ℕ → Option (Text × State)
  rotate_session db now sub old session_id = elim (find db session_id) [
    | none ↦ none
    | some row ↦
        let deleted = delete db session_id in
        let id = next deleted in
        let created = create deleted (record {
          user_id = old.user_id;
          refresh_token_hash = [];
          expires_at = old.expires_at;
        }) in
        let signed = sign sub id (remaining_seconds old.expires_at now) in
        some (signed, write created id (λ x. record x { refresh_token_hash = hash signed }))
  ]

  -- `rotateTokens`, without the access token and the cache of sessions
  abbrev pub rotate_tokens : State → ℕ → RefreshPayload → Session → Result RefreshError Text × State
  rotate_tokens db now payload session =
      elim (rotate_session db now payload.sub session payload.session_id) [
        | none ↦ (err record_not_found, db)
        | some (signed, db') ↦ (ok signed, db')
      ]

  -- `refresh`, where no other request comes between the check and the rotation
  unfoldable pub refresh : State → ℕ → Option Text → Result RefreshError Text × State
  unfolding validate_refresh_payload verify_session_integrity rotate_session
  refresh db now raw_token = elim (validate_refresh_payload verify now raw_token) [
    | err e ↦ (err e, db)
    | ok (payload, token) ↦
        let checked = verify_session_integrity db now payload.session_id payload.sub token in
        elim checked.0 [
          | err e ↦ (err e, checked.1)
          | ok session ↦ rotate_tokens checked.1 now payload session
        ]
  ]
