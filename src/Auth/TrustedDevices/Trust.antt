-- ===== src/Auth/TrustedDevices/Trust.antt =====
-- Whom a trust token lets in.
use ewu_taks.Base.{
  ℕ, ◌+◌, [], ◌∷◌, Option, none, some, true, ◌&&◌, Text, ◌==◌, nat_eq, leb, beq_refl, ◌≡◌, refl,
  arith, text_eq,
}
use ewu_taks.Domain.{Owned}
use ewu_taks.Auth.TrustedDevices.{
  DeviceRows, SessionMetadata, fits_meta, create_trust_token, validate_trust_token,
}

fits_meta_refl : (given : Option Text) → fits_meta given given ≡ true
fits_meta_refl none = refl
fits_meta_refl (some []) = refl
fits_meta_refl (some (c ∷ cs)) = beq_refl (c ∷ cs)

module _ (devices : Owned) (rows : DeviceRows devices) (hash_token : Text → Text) where
  -- Where no device has the hash of the new token: in the state that the creation leaves the token
  -- is accepted, from the same address and agent, exactly for the user it was created for and until
  -- its time is over.
  pub create_trust_token-valid :
      (s : devices.State) (now ttl_ms later user_id other : ℕ) (raw_token : Text)
      → (meta : SessionMetadata) → rows.find_by_token_hash s (hash_token raw_token) ≡ none
      → validate_trust_token devices rows hash_token
          (create_trust_token devices rows hash_token s now ttl_ms raw_token user_id meta)
          later
          raw_token
          other
          meta
        ≡ (user_id == other) && leb later (now + ttl_ms)
  unfolding create_trust_token validate_trust_token
  create_trust_token-valid s now ttl_ms later user_id other raw_token meta fresh =
      let found =
        rows.find-create s
          (record {
            user_id = user_id;
            token_hash = hash_token raw_token;
            ip_address = meta.ip_address;
            user_agent = meta.user_agent;
            expires_at = now + ttl_ms;
          })
          fresh in
      ground (arith, found, fits_meta_refl meta.ip_address, fits_meta_refl meta.user_agent)
