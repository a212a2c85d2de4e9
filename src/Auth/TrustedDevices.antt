-- ===== src/Auth/TrustedDevices.antt =====
-- trusted-device.service.ts (createTrustToken, validateTrustToken) with what it calls of
-- trusted-device.repository.ts. The random token is an argument, `hash_token` is SHA-256.
pub mod Trust
use ewu_taks.Base.{
  ℕ, ◌+◌, List, [], ◌∷◌, Option, none, some, Bool, true, false, not, ◌&&◌, if◌then◌else◌, Text,
  ◌==◌, nat_eq, ltb, ◌≡◌,
}
use ewu_taks.Domain.{Owned}
use ewu_taks.Auth.Tables.{equals_text}

pub record TrustedDevice : Type 0 where
  pub user_id : ℕ
  pub token_hash : Text
  pub ip_address : Option Text
  pub user_agent : Option Text
  pub expires_at : ℕ

-- `create` and `findUnique` by the hash of the token, which is unique.
pub record DeviceRows (devices : Owned) : Type 0 where
  pub create : devices.State → TrustedDevice → devices.State
  pub find_by_token_hash : devices.State → Text → Option TrustedDevice
  pub find-create :
      (s : devices.State) (d : TrustedDevice)
      → find_by_token_hash s d.token_hash ≡ none
      → find_by_token_hash (create s d) d.token_hash ≡ some d

-- `ISessionMetadata`
pub record SessionMetadata : Type 0 where
  pub ip_address : Option Text
  pub user_agent : Option Text

-- `stored && stored !== given`, negated: an empty text counts as none.
abbrev pub fits_meta : Option Text → Option Text → Bool
fits_meta none given = true
fits_meta (some []) given = true
fits_meta (some (c ∷ cs)) given = equals_text given (c ∷ cs)

module _ (devices : Owned) (rows : DeviceRows devices) (hash_token : Text → Text) where
  open rows use {create, find_by_token_hash}

  unfoldable pub create_trust_token :
      devices.State → ℕ → ℕ → Text → ℕ → SessionMetadata → devices.State
  create_trust_token s now ttl_ms raw_token user_id meta = create s (record {
    user_id = user_id;
    token_hash = hash_token raw_token;
    ip_address = meta.ip_address;
    user_agent = meta.user_agent;
    expires_at = now + ttl_ms;
  })

  unfoldable pub validate_trust_token : devices.State → ℕ → Text → ℕ → SessionMetadata → Bool
  validate_trust_token s now raw_token user_id meta =
      elim (find_by_token_hash s (hash_token raw_token)) [
        | none ↦ false
        | some device ↦
            if not (device.user_id == user_id)
            then false
            else if ltb device.expires_at now
            then false
            else if not (fits_meta device.ip_address meta.ip_address)
            then false
            else fits_meta device.user_agent meta.user_agent
      ]
