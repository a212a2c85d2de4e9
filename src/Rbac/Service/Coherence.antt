-- ===== src/Rbac/Service/Coherence.antt =====
-- The role cache against the rows in the database.
use ewu_taks.Base.{
  ℕ, some, ◌≡◌, ◌≢◌, arith, Option-cases, Bool-cases, inl, inr, nat_eq, ◌==◌, ==_iff,
}
use ewu_taks.Cache.Lru.{lru_get, lru_delete, peek}
use ewu_taks.Cache.Lru.Bounds.{IsValid, lru_get-IsValid, lru_set-IsValid}
use ewu_taks.Cache.Lru.Eviction.{lru_delete-IsValid, create-IsValid}
use ewu_taks.Cache.Lru.Reads.{
  value-lru_get, peek-lru_get-some, peek-lru_set_self, peek-lru_set_other, peek-lru_delete,
}
use ewu_taks.Rbac.Entry.{RoleCacheEntry, build_entry}
use ewu_taks.Rbac.Service.{
  RbacService, Rows, init, rbac_cache_ttl_ms, lookup_role, store_role, get_permissions_for_role,
  invalidate_role, handle_invalidation_message, Reply, one_role, no_client, refused, answer,
  increment_version,
}

-- Every entry that can be read from the cache is the one that the rows of its role give.
pub record IsCoherent (find_many : Rows) (s : RbacService) : Type 0 where
  pub valid : IsValid s.cache
  pub agrees :
      (role_id now : ℕ) (entry : RoleCacheEntry)
      → peek s.cache now role_id ≡ some entry
      → entry ≡ build_entry (find_many role_id)

module _ (find_many : Rows) where
  lookup_role-IsCoherent :
      (s : RbacService) (now role_id : ℕ)
      → IsCoherent find_many s
      → IsCoherent find_many (lookup_role s now role_id).0
  unfolding lookup_role
  lookup_role-IsCoherent s now role_id c = record {
    valid = lru_get-IsValid s.cache now role_id c.valid;
    agrees = λ other later entry h.
        c.agrees other later entry (peek-lru_get-some s.cache now later role_id other entry h);
  }

  store_role-agrees :
      (s : RbacService) (now role_id : ℕ)
      → IsCoherent find_many s
      → (other later : ℕ) (entry : RoleCacheEntry)
      → peek (store_role s now role_id (find_many role_id)).0.cache later other ≡ some entry
      → entry ≡ build_entry (find_many other)
  unfolding store_role
  store_role-agrees s now role_id c other later entry h = elim (Bool-cases (role_id == other)) [
    | inl same ↦ ground (
      arith,
      h,
      ==_iff role_id other,
      peek-lru_set_self s.cache now later role_id (build_entry (find_many role_id))
          rbac_cache_ttl_ms c.valid.distinct,
    )
    | inr differ ↦ c.agrees other later entry (
        peek-lru_set_other s.cache now later role_id other (build_entry (find_many role_id)) entry
          rbac_cache_ttl_ms c.valid.distinct (λ p. ground (arith, ==_iff role_id other)) h)
  ]

  store_role-IsCoherent :
      (s : RbacService) (now role_id : ℕ)
      → IsCoherent find_many s
      → IsCoherent find_many (store_role s now role_id (find_many role_id)).0
  store_role-IsCoherent s now role_id c = record {
    valid =
        unfold store_role in
        lru_set-IsValid s.cache now role_id (build_entry (find_many role_id)) rbac_cache_ttl_ms
          c.valid;
    agrees = store_role-agrees s now role_id c;
  }

  -- A call of `getPermissionsForRole` keeps the cache coherent.
  pub get_permissions_for_role-IsCoherent :
      (s : RbacService) (now role_id : ℕ)
      → IsCoherent find_many s
      → IsCoherent find_many (get_permissions_for_role find_many s now role_id).0
  unfolding get_permissions_for_role
  get_permissions_for_role-IsCoherent s now role_id c =
      elim (Option-cases (lookup_role s now role_id).1) [
        | inl miss ↦
            rw (miss, get_permissions_for_role)
              (store_role-IsCoherent (lookup_role s now role_id).0 now role_id
                (lookup_role-IsCoherent s now role_id c))
        | inr (entry, hit) ↦
            rw (hit, get_permissions_for_role) (lookup_role-IsCoherent s now role_id c)
      ]

  -- On a coherent cache `getPermissionsForRole` returns what the rows of the role give, from the
  -- cache or not.
  pub entry-get_permissions_for_role :
      (s : RbacService) (now role_id : ℕ)
      → IsCoherent find_many s
      → (get_permissions_for_role find_many s now role_id).1 ≡ build_entry (find_many role_id)
  unfolding get_permissions_for_role lookup_role store_role
  entry-get_permissions_for_role s now role_id c =
      elim (Option-cases (lru_get s.cache now role_id).1) [
        | inl miss ↦ ground arith
        | inr (entry, hit) ↦
            ground (arith, c.agrees role_id now entry, value-lru_get s.cache now role_id)
      ]

  pub IsCoherent-init : IsCoherent find_many init
  unfolding init
  IsCoherent-init = record { valid = create-IsValid 100; agrees = λ role_id now entry h. cc }

  increment_version-IsCoherent :
      (s : RbacService) (reply : Reply ℕ)
      → IsCoherent find_many s
      → IsCoherent find_many (increment_version s reply)
  unfolding increment_version
  increment_version-IsCoherent s no_client c = c
  increment_version-IsCoherent s refused c = c
  increment_version-IsCoherent s (answer n) c = record { valid = c.valid; agrees = c.agrees }

-- The rows of all roles but one are the same.
abbrev pub ChangedAt : ℕ → Rows → Rows → Type 0
ChangedAt role_id find_many find_many' =
    (other : ℕ) → role_id ≢ other → find_many' other ≡ find_many other

module _ (find_many find_many' : Rows) (role_id : ℕ) where
  deleted-IsCoherent :
      (s : RbacService)
      → ChangedAt role_id find_many find_many'
      → IsCoherent find_many s
      → IsCoherent find_many' (record s { cache = lru_delete s.cache role_id })
  deleted-IsCoherent s changed c = record {
    valid = lru_delete-IsValid s.cache role_id c.valid;
    agrees = λ other now entry h. elim (Bool-cases (role_id == other)) [
      | inl same ↦ absurd (ground (arith, h, peek-lru_delete s.cache now role_id other))
      | inr differ ↦ ground (
        arith,
        h,
        peek-lru_delete s.cache now role_id other,
        changed other (λ p. ground (arith, ==_iff role_id other)),
        c.agrees other now entry,
      )
    ];
  }

  -- After the rows of one role have changed, invalidating that role makes a cache that was
  -- coherent with the old rows coherent with the new ones, whatever Redis answers.
  pub invalidate_role-IsCoherent :
      (s : RbacService) (reply : Reply ℕ)
      → ChangedAt role_id find_many find_many'
      → IsCoherent find_many s
      → IsCoherent find_many' (invalidate_role s role_id reply)
  unfolding invalidate_role
  invalidate_role-IsCoherent s reply changed c =
      increment_version-IsCoherent find_many' (record s { cache = lru_delete s.cache role_id })
        reply (deleted-IsCoherent s changed c)

  -- So does the message about the role, on every other instance.
  pub handle_invalidation_message-IsCoherent :
      (s : RbacService)
      → ChangedAt role_id find_many find_many'
      → IsCoherent find_many s
      → IsCoherent find_many' (handle_invalidation_message s (some (one_role (some role_id))))
  unfolding handle_invalidation_message
  handle_invalidation_message-IsCoherent s changed c = deleted-IsCoherent s changed c
