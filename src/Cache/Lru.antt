-- ===== src/Cache/Lru.antt =====
-- `LruCache` of libs/core/src/lib/cache/lru-cache.ts: a JavaScript Map in insertion order, the
-- oldest key first. `now` is what the call of `Date.now()` returns.
pub mod Bounds
pub mod Reads
pub mod Eviction
use ewu_taks.Base.{
  ℕ, ◌+◌, List, [], ◌∷◌, Option, none, some, Eq, leb, if◌then◌else◌, length, get, put, remove, map,
}

pub record LruEntry {ℓ} (V : Type ℓ) : Type ℓ where
  pub value : V
  pub expires_at : ℕ

pub record LruCache {ℓ} (K V : Type ℓ) : Type ℓ where
  pub max_size : ℕ
  pub cache : List (K × LruEntry V)

unfoldable pub create {ℓ} : {K V : Type ℓ} → ℕ → LruCache K V
create max_size = record { max_size = max_size; cache = [] }

-- `this.cache.keys().next().value` and the deletion of that key; on an empty map the key is
-- `undefined`, and nothing goes.
unfoldable pub evict_oldest {ℓ} :
    {K V : Type ℓ} ⦃e : Eq K⦄ → List (K × LruEntry V) → List (K × LruEntry V)
evict_oldest [] = []
evict_oldest ((oldest, entry) ∷ m) = remove ((oldest, entry) ∷ m) oldest

abbrev pub live {ℓ} : {V : Type ℓ} → ℕ → Option (LruEntry V) → Option V
live now none = none
live now (some entry) = if leb entry.expires_at now then none else some entry.value

module _ {ℓ} {K V : Type ℓ} ⦃e : Eq K⦄ where
  unfoldable pub lru_get : LruCache K V → ℕ → K → LruCache K V × Option V
  lru_get c now key = elim (get c.cache key) [
    | none ↦ (c, none)
    | some entry ↦
        if leb entry.expires_at now
        then (record c { cache = remove c.cache key }, none)
        else (record c { cache = put (remove c.cache key) key entry }, some entry.value)
  ]

  unfoldable pub lru_set : LruCache K V → ℕ → K → V → ℕ → LruCache K V
  unfolding evict_oldest
  lru_set c now key value ttl_ms =
      let kept = remove c.cache key in
      let room = if leb c.max_size (length kept) then evict_oldest kept else kept in
      record c { cache = put room key (record { value = value; expires_at = now + ttl_ms }) }

  unfoldable pub lru_delete : LruCache K V → K → LruCache K V
  lru_delete c key = record c { cache = remove c.cache key }

  unfoldable pub clear : LruCache K V → LruCache K V
  clear c = record c { cache = [] }

  unfoldable pub keys : LruCache K V → List K
  keys c = map (λ p. p.0) c.cache

  unfoldable pub size : LruCache K V → ℕ
  size c = length c.cache

  -- What `lru_get` would return at the time `now`.
  abbrev pub peek : LruCache K V → ℕ → K → Option V
  peek c now key = live now (get c.cache key)
