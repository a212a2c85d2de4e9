-- ===== src/Guards/JwtAuth.antt =====
-- jwt-auth.guard.ts. The header, the reply of the session cache, the row in the database and the
-- time are arguments; `verify` is `TokenService.verifyAccessToken`, `none` for a token that it
-- throws on. Times are milliseconds. The ids of a token are numbers, as the service signs them.
use ewu_taks.Base.{
  ℕ, ◌≤◌, List, [], ◌∷◌, Option, none, some, Bool, true, false, not, ◌||◌, Text, if◌then◌else◌, ◌≡◌,
  ◌⊎◌, ◌↔◌, inl, inr, arith, ltb, ◌==◌, map, drop, take, text_beq, Option-cases,
}
use ewu_taks.Guards.{Verdict, allowed, forbidden, unauthorized, UserRole}
use ewu_taks.Guards.Hierarchy.{max_level}
use ewu_taks.Domain.{UserStatus, pending, active, suspended, inactive, rejected, invited, revoked}

pub record AccessPayload : Type 0 where
  pub is_access : Bool
  pub sub : ℕ
  pub session_id : ℕ

-- `ICachedSession`
pub record CachedSession : Type 0 where
  pub user_id : ℕ
  pub roles : List UserRole
  pub effective_role_level : ℕ
  pub expires_at : ℕ
  pub status : UserStatus
  pub is_two_factor_enabled : Bool
  pub is_two_factor_enforced : Bool
  pub two_factor_grace_period_end : Option ℕ

pub record RoleOfUser : Type 0 where
  pub id : ℕ
  pub name : Text
  pub level : ℕ

-- `SessionForAuth`
pub record SessionForAuth : Type 0 where
  pub user_id : ℕ
  pub expires_at : ℕ
  pub status : UserStatus
  pub is_two_factor_enabled : Bool
  pub is_two_factor_enforced : Bool
  pub two_factor_grace_period_end : Option ℕ
  pub user_roles : List RoleOfUser

-- `fetchAndCacheSession`, from the row of the session.
unfoldable pub to_cached_session : SessionForAuth → CachedSession
to_cached_session row = record {
  user_id = row.user_id;
  roles = map (λ r. record { id = r.id; name = r.name }) row.user_roles;
  effective_role_level =
      max_level (map (λ r. record { id = r.id; level = r.level }) row.user_roles);
  expires_at = row.expires_at;
  status = row.status;
  is_two_factor_enabled = row.is_two_factor_enabled;
  is_two_factor_enforced = row.is_two_factor_enforced;
  two_factor_grace_period_end = row.two_factor_grace_period_end;
}

-- `cached ?? (await this.fetchAndCacheSession(userId, sessionId))`
unfoldable pub session_data : Option CachedSession → Option SessionForAuth → Option CachedSession
unfolding to_cached_session
session_data (some cached) row = some cached
session_data none none = none
session_data none (some row) = some (to_cached_session row)

abbrev pub bearer : Text
bearer = b'B' ∷ b'e' ∷ b'a' ∷ b'r' ∷ b'e' ∷ b'r' ∷ b' ' ∷ []

-- `extractToken`; an empty token counts as none, since the caller tests it as a truth value.
unfoldable pub extract_token : Option Text → Option Text
extract_token none = none
extract_token (some header) =
    if text_beq (take 7 header) bearer
    then elim (drop 7 header) [ [] ↦ none | c ∷ cs ↦ some (c ∷ cs) ]
    else none

-- `enforceAccountStatus`; `allowed` where the source returns.
unfoldable pub enforce_account_status : UserStatus → Bool → Verdict
enforce_account_status pending allow_pending = if allow_pending then allowed else forbidden
enforce_account_status suspended allow_pending = forbidden
enforce_account_status inactive allow_pending = unauthorized
enforce_account_status rejected allow_pending = unauthorized
enforce_account_status invited allow_pending = unauthorized
enforce_account_status revoked allow_pending = unauthorized
enforce_account_status active allow_pending = allowed

abbrev pub grace_over : ℕ → Option ℕ → Bool
grace_over now none = true
grace_over now (some grace_period_end) = ltb grace_period_end now

-- `enforceTwoFactor`
unfoldable pub enforce_two_factor : ℕ → CachedSession → Bool → Verdict
enforce_two_factor now session skip =
    if skip || (session.is_two_factor_enabled || not session.is_two_factor_enforced)
    then allowed
    else if grace_over now session.two_factor_grace_period_end
    then forbidden
    else allowed

-- The checks on the session, from the seventh step of `canActivate` on.
unfoldable pub check_session : ℕ → ℕ → Bool → Bool → Option CachedSession → Verdict
unfolding enforce_account_status enforce_two_factor
check_session now user_id allow_pending skip none = unauthorized
check_session now user_id allow_pending skip (some session) =
    if not (session.user_id == user_id)
    then unauthorized
    else if ltb session.expires_at now
    then unauthorized
    else elim (enforce_account_status session.status allow_pending) [
      | allowed ↦ enforce_two_factor now session skip
      | other ↦ other
    ]

module _ (verify : Text → Option AccessPayload) where
  -- `canActivate`: `cached` and `row` are what the cache and the database hold for the two ids.
  unfoldable pub jwt_auth_guard :
      ℕ
      → Bool
      → Bool
      → Bool
      → Option Text
      → (ℕ → ℕ → Option CachedSession)
      → (ℕ → Option SessionForAuth)
      → Verdict
  unfolding extract_token session_data check_session
  jwt_auth_guard now is_public allow_pending skip header cached row =
      if is_public then allowed else elim (extract_token header) [
        | none ↦ unauthorized
        | some token ↦ elim (verify token) [
          | none ↦ unauthorized
          | some payload ↦
              if not payload.is_access
              then unauthorized
              else check_session now payload.sub allow_pending skip
                  (session_data (cached payload.sub payload.session_id) (row payload.session_id))
        ]
      ]

-- What a session has to satisfy.
pub record IsAdmissible (now user_id : ℕ) (allow_pending skip : Bool) (session : CachedSession)
    : Type 0 where
  pub owner : session.user_id ≡ user_id
  pub unexpired : now ≤ session.expires_at
  pub status : (session.status ≡ active) ⊎ ((session.status ≡ pending) × (allow_pending ≡ true))
  pub two_factor :
      (skip ≡ true)
      ⊎ (session.is_two_factor_enabled ≡ true)
      ⊎ (session.is_two_factor_enforced ≡ false)
      ⊎ (grace_over now session.two_factor_grace_period_end ≡ false)

-- The checks on a session pass exactly if it is admissible.
check_session-IsAdmissible :
    (now user_id : ℕ) (allow_pending skip : Bool) (session : CachedSession)
    → (check_session now user_id allow_pending skip (some session) ≡ allowed)
      ↔ IsAdmissible now user_id allow_pending skip session
unfolding check_session
check_session-IsAdmissible now user_id allow_pending skip session = (
  λ h. record {
    owner = ground arith;
    unexpired = ground arith;
    status = ground arith;
    two_factor = ground arith;
  },
  λ a. ground (arith, a.owner, a.unexpired, a.status, a.two_factor),
)

-- On a route that is not public the guard lets a request pass exactly if the header carries a
-- token, the token verifies as an access token, and the session that the cache, or else the
-- database, has for its ids is the user's own, has not expired, belongs to an active account (or
-- to a pending one, where the route allows it), and meets an enforced second factor.
pub jwt_auth_guard-allowed :
    (verify : Text → Option AccessPayload) (now : ℕ) (allow_pending skip : Bool)
    (header : Option Text) (cached : ℕ → ℕ → Option CachedSession) (row : ℕ → Option SessionForAuth)
    → (jwt_auth_guard verify now false allow_pending skip header cached row ≡ allowed) ↔ (
        (token : Text) × (payload : AccessPayload) × (session : CachedSession) × (extract_token
            header
          ≡ some token)
        × (verify token ≡ some payload)
        × (payload.is_access ≡ true)
        × (session_data (cached payload.sub payload.session_id) (row payload.session_id)
            ≡ some session)
        × IsAdmissible now payload.sub allow_pending skip session)
unfolding jwt_auth_guard
jwt_auth_guard-allowed verify now allow_pending skip header cached row = (
  λ h. elim (Option-cases (extract_token header)) [
    | inl no_token ↦ absurd (ground arith)
    | inr (token, has_token) ↦ elim (Option-cases (verify token)) [
      | inl invalid ↦ absurd (ground arith)
      | inr (payload, valid) ↦
          elim (Option-cases
            (session_data (cached payload.sub payload.session_id) (row payload.session_id))) [
              | inl no_session ↦ absurd (ground arith)
              | inr (session, found) ↦ (
                token,
                payload,
                session,
                has_token,
                valid,
                ground arith,
                found,
                (check_session-IsAdmissible now payload.sub allow_pending skip session).0
                    (ground arith),
              )
            ]
    ]
  ],
  λ (token, payload, session, has_token, valid, access, found, a). ground (
    arith,
    has_token,
    valid,
    access,
    found,
    (check_session-IsAdmissible now payload.sub allow_pending skip session).1 a,
  ),
)
