-- ===== src/Cache/Lru/Reads.antt =====
-- What can be read from the LRU cache after a call, and until when.
use ewu_taks.Base.{
  ℕ, ◌+◌, ◌≤◌, ◌≡◌, refl, List, [], ◌∷◌, Option, none, some, Eq, leb, ltb, if◌then◌else◌, length,
  get, remove, drop, arith, get-remove, get-put, beq_refl, ◌≢◌, Option-cases, inl, inr,
}
use ewu_taks.Cache.Lru.{LruCache, LruEntry, lru_get, lru_set, lru_delete, peek}
use ewu_taks.Cache.Lru.Bounds.{
  Distinct, room, cache-lru_set, get-append, get-room_self, Distinct-remove,
}

module _ {ℓ} {K V : Type ℓ} ⦃e : Eq K⦄ where
  -- `get` returns what `peek` tells.
  pub value-lru_get :
      (c : LruCache K V) (now : ℕ) (key : K) → (lru_get c now key).1 ≡ peek c now key
  unfolding lru_get
  value-lru_get c now key = ground arith

  -- In a cache with distinct keys, a value that was set is read until its time to live is over,
  -- and not from then on.
  pub peek-lru_set_self :
      (c : LruCache K V) (now later : ℕ) (key : K) (value : V) (ttl_ms : ℕ)
      → Distinct c.cache
      → peek (lru_set c now key value ttl_ms) later key
        ≡ (if ltb later (now + ttl_ms) then some value else none)
  peek-lru_set_self c now later key value ttl_ms d = ground (
    arith,
    cache-lru_set c now key value ttl_ms d,
    get-append (room c key) key key (record { value = value; expires_at = now + ttl_ms }),
    get-room_self c key,
    beq_refl key,
  )

  -- A read changes no later read, of any key.
  pub peek-lru_get :
      (c : LruCache K V) (now later : ℕ) (key other : K)
      → now ≤ later
      → peek (lru_get c now key).0 later other ≡ peek c later other
  unfolding lru_get
  peek-lru_get c now later key other h =
      let kept = remove c.cache key in
      elim (Option-cases (get c.cache key)) [
        | inl miss ↦ rw (miss, lru_get)
        | inr (entry, hit) ↦
            ground (
              arith,
              get-remove c.cache key other,
              get-put kept key other entry,
              e.beq_iff key other,
            )
      ]

  -- The key that goes when `key` is set: the oldest of the others, if the cache is full.
  abbrev head_key : List (K × LruEntry V) → Option K
  head_key [] = none
  head_key ((k, v) ∷ m) = some k

  get-drop_ne :
      (m : List (K × LruEntry V)) (other : K)
      → head_key m ≢ some other
      → get (drop 1 m) other ≡ get m other
  get-drop_ne [] other h = refl
  get-drop_ne ((k, v) ∷ m) other h = ground (arith, e.beq_iff k other)

  abbrev pub victim : LruCache K V → K → Option K
  victim c key =
      let kept = remove c.cache key in if leb c.max_size (length kept) then head_key kept else none

  -- In a cache with distinct keys, a write changes the reads of no other key but the evicted one.
  pub peek-lru_set_ne :
      (c : LruCache K V) (now later : ℕ) (key other : K) (value : V) (ttl_ms : ℕ)
      → Distinct c.cache
      → key ≢ other
      → victim c key ≢ some other
      → peek (lru_set c now key value ttl_ms) later other ≡ peek c later other
  peek-lru_set_ne c now later key other value ttl_ms d ne kept =
      let entry : LruEntry V = record { value = value; expires_at = now + ttl_ms } in
      ground (
        arith,
        cache-lru_set c now key value ttl_ms d,
        get-append (room c key) key other entry,
        get-room_self c key,
        e.beq_iff key other,
        get-remove c.cache key other,
        get-drop_ne (remove c.cache key) other,
      )

  get-drop :
      (m : List (K × LruEntry V)) (other : K) (entry : LruEntry V)
      → Distinct m
      → get (drop 1 m) other ≡ some entry
      → get m other ≡ some entry
  get-drop [] other entry d h = h
  get-drop ((k, v) ∷ m) other entry d h = ground (arith, d.0, e.beq_iff k other)

  -- A write makes no other key readable, and changes no value.
  pub peek-lru_set_other :
      (c : LruCache K V) (now later : ℕ) (key other : K) (value v : V) (ttl_ms : ℕ)
      → Distinct c.cache
      → key ≢ other
      → peek (lru_set c now key value ttl_ms) later other ≡ some v
      → peek c later other ≡ some v
  peek-lru_set_other c now later key other value v ttl_ms d ne h =
      let entry : LruEntry V = record { value = value; expires_at = now + ttl_ms } in
      let kept = remove c.cache key in
      let kept_get = get-remove c.cache key other in
      elim (Option-cases (get (room c key) other)) [
        | inl gone ↦ absurd (
            ground (
              arith,
              h,
              cache-lru_set c now key value ttl_ms d,
              get-append (room c key) key other entry,
              get-room_self c key,
              e.beq_iff key other,
            ))
        | inr (old, there) ↦ ground (
          arith,
          h,
          cache-lru_set c now key value ttl_ms d,
          get-append (room c key) key other entry,
          get-room_self c key,
          e.beq_iff key other,
          get-drop kept other old (Distinct-remove c.cache key d),
          kept_get,
        )
      ]

  -- A read makes no key readable, and changes no value.
  pub peek-lru_get-some :
      (c : LruCache K V) (now later : ℕ) (key other : K) (v : V)
      → peek (lru_get c now key).0 later other ≡ some v
      → peek c later other ≡ some v
  unfolding lru_get
  peek-lru_get-some c now later key other v h =
      let kept = remove c.cache key in
      elim (Option-cases (get c.cache key)) [
        | inl miss ↦ ground arith
        | inr (entry, hit) ↦
            ground (
              arith,
              get-remove c.cache key other,
              get-put kept key other entry,
              e.beq_iff key other,
            )
      ]

  pub peek-lru_delete :
      (c : LruCache K V) (later : ℕ) (key other : K)
      → peek (lru_delete c key) later other ≡ (if e.beq key other then none else peek c later other)
  unfolding lru_delete
  peek-lru_delete c later key other = ground (arith, get-remove c.cache key other)
