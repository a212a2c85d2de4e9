-- ===== src/Tests/Guards.antt =====
-- The guards at concrete requests.
use ewu_taks.Base.{
  List, [], ◌∷◌, Option, none, some, true, false, if◌then◌else◌, Text, any, nat_eq, ◌≡◌, ◌↔◌, refl,
}
use ewu_taks.Domain.{active}
use ewu_taks.Rbac.Entry.{RoleCacheEntry, build_entry}
use ewu_taks.Guards.{allowed, forbidden, UserContext, UserRole}
use ewu_taks.Guards.Permissions.{permissions_guard, parse_permission}
use ewu_taks.Guards.Permissions.Decision.{permissions_guard-roles, grants_required}
use ewu_taks.Guards.Hierarchy.{TargetRole}
use ewu_taks.Guards.JwtAuth.{
  AccessPayload, CachedSession, extract_token, session_data, jwt_auth_guard, IsAdmissible,
  jwt_auth_guard-allowed,
}
use ewu_taks.Rbac.Service.{init}
use ewu_taks.Rbac.Service.Coherence.{IsCoherent-init}
use ewu_taks.Tests.Rbac.{rows_before, read_key, read_row}

abbrev editor : UserRole
editor = record { id = 3; name = b'e' ∷ [] }

abbrev alice : UserContext
alice = record { user_id = 1; roles = editor ∷ []; effective_role_level = 50 }

permissions_guard-roles_example :
    (permissions_guard rows_before init 0 false (read_key ∷ []) (some alice)).1
    ≡ (if any (grants_required rows_before alice.roles) (read_key ∷ []) then allowed else forbidden)
unfolding parse_permission
permissions_guard-roles_example =
    permissions_guard-roles rows_before init 0 read_key [] alice (IsCoherent-init rows_before) refl
      refl

abbrev target_role : TargetRole
target_role = record { role_ids = 4 ∷ []; role_level = 20 }

abbrev held : List RoleCacheEntry
held = build_entry (read_row ∷ []) ∷ []

abbrev verify_token : Text → Option AccessPayload
verify_token token = some (record { is_access = true; sub = 1; session_id = 9 })

abbrev cached_session : CachedSession
cached_session = record {
  user_id = 1;
  roles = editor ∷ [];
  effective_role_level = 50;
  expires_at = 1000;
  status = active;
  is_two_factor_enabled = false;
  is_two_factor_enforced = false;
  two_factor_grace_period_end = none;
}

-- `Bearer t`
abbrev header : Text
header = b'B' ∷ b'e' ∷ b'a' ∷ b'r' ∷ b'e' ∷ b'r' ∷ b' ' ∷ b't' ∷ []

jwt_auth_guard-allowed_example :
    (jwt_auth_guard verify_token 10 false false false
        (some header)
        (λ u s. some cached_session)
        (λ s. none)
      ≡ allowed)
    ↔ ((token : Text) × (payload : AccessPayload) × (session : CachedSession) × (extract_token
            (some header)
          ≡ some token)
        × (verify_token token ≡ some payload)
        × (payload.is_access ≡ true)
        × (session_data (some cached_session) none ≡ some session)
        × IsAdmissible 10 payload.sub false false session)
jwt_auth_guard-allowed_example =
    jwt_auth_guard-allowed verify_token 10 false false (some header) (λ u s. some cached_session)
      (λ s. none)
