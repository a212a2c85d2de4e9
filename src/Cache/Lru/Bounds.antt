-- ===== src/Cache/Lru/Bounds.antt =====
-- The order, the size bound and the distinct keys of the LRU cache.
use ewu_taks.Base.{
  ℕ, ◌+◌, ◌≤◌, ◌≡◌, refl, List, [], ◌∷◌, ◌++◌, none, some, Eq, leb, if◌then◌else◌, length, get, put,
  remove, drop, arith, max, get-remove, length-remove-le, beq_refl, length-append, length-drop,
  Bool-cases, Option-cases, inl, inr,
}
use ewu_taks.Cache.Lru.{LruCache, LruEntry, evict_oldest, lru_get, lru_set}

module _ {ℓ} {K V : Type ℓ} ⦃e : Eq K⦄ where
  -- No key stands twice.
  abbrev pub Distinct : List (K × V) → Type ℓ
  Distinct [] = Unit
  Distinct ((k, v) ∷ m) = (get m k ≡ none) × Distinct m

  pub get-remove_self : (m : List (K × V)) (k : K) → get (remove m k) k ≡ none
  get-remove_self m k = ground (arith, get-remove m k k, beq_refl k)

  pub remove_absent : (m : List (K × V)) (k : K) → get m k ≡ none → remove m k ≡ m
  remove_absent [] k h = refl
  remove_absent ((j, v) ∷ m) k h = ground (arith, remove_absent m k)

  pub put_absent :
      (m : List (K × V)) (k : K) (v : V) → get m k ≡ none → put m k v ≡ m ++ (k, v) ∷ []
  put_absent [] k v h = refl
  put_absent ((j, w) ∷ m) k v h = ground (arith, put_absent m k v)

  pub get-append :
      (m : List (K × V)) (k j : K) (v : V)
      → get m k ≡ none
      → get (m ++ (k, v) ∷ []) j ≡ (if e.beq k j then some v else get m j)
  get-append [] k j v h = refl
  get-append ((i, w) ∷ m) k j v h =
      ground (arith, get-append m k j v, e.beq_iff i k, e.beq_iff i j, e.beq_iff k j)

  pub Distinct-remove : (m : List (K × V)) (k : K) → Distinct m → Distinct (remove m k)
  Distinct-remove [] k d = d
  Distinct-remove ((j, v) ∷ m) k d = ground (arith, Distinct-remove m k d.1, get-remove m k j)

  pub Distinct-append :
      (m : List (K × V)) (k : K) (v : V) → get m k ≡ none → Distinct m → Distinct (m ++ (k, v) ∷ [])
  Distinct-append [] k v h d = (refl, tt)
  Distinct-append ((j, w) ∷ m) k v h d =
      ground (arith, Distinct-append m k v, get-append m k j v, e.beq_iff j k, e.beq_iff k j)

  pub Distinct-drop : (m : List (K × V)) → Distinct m → Distinct (drop 1 m)
  Distinct-drop [] d = d
  Distinct-drop ((k, v) ∷ m) d = d.1

  pub get-drop-none : (m : List (K × V)) (k : K) → get m k ≡ none → get (drop 1 m) k ≡ none
  get-drop-none [] k h = refl
  get-drop-none ((j, v) ∷ m) k h = ground arith

module _ {ℓ} {K V : Type ℓ} ⦃e : Eq K⦄ where
  -- Under distinct keys the eviction takes exactly the oldest entry.
  pub evict_oldest-drop : (m : List (K × LruEntry V)) → Distinct m → evict_oldest m ≡ drop 1 m
  unfolding evict_oldest
  evict_oldest-drop [] d = refl
  evict_oldest-drop ((k, v) ∷ m) d = ground (arith, beq_refl k, remove_absent m k d.0)

  pub record IsValid (c : LruCache K V) : Type ℓ where
    pub bounded : length c.cache ≤ max 1 c.max_size
    pub distinct : Distinct c.cache

  -- What stays in the map before the new entry goes to its end.
  abbrev pub room : LruCache K V → K → List (K × LruEntry V)
  room c key =
      let kept = remove c.cache key in if leb c.max_size (length kept) then drop 1 kept else kept

  pub get-room_self : (c : LruCache K V) (key : K) → get (room c key) key ≡ none
  get-room_self c key =
      ground (arith, get-remove_self c.cache key, get-drop-none (remove c.cache key) key)

  pub cache-lru_set :
      (c : LruCache K V) (now : ℕ) (key : K) (value : V) (ttl_ms : ℕ)
      → Distinct c.cache
      → (lru_set c now key value ttl_ms).cache
        ≡ room c key ++ (key, record { value = value; expires_at = now + ttl_ms }) ∷ []
  unfolding lru_set
  cache-lru_set c now key value ttl_ms d =
      let kept = remove c.cache key in
      rw (evict_oldest-drop kept (Distinct-remove c.cache key d))
        (put_absent (room c key) key _ (get-room_self c key))

  length-room :
      (c : LruCache K V) (key : K) → IsValid c → length (room c key) + 1 ≤ max 1 c.max_size
  length-room c key v =
      ground (arith, v.bounded, length-remove-le c.cache key, length-drop 1 (remove c.cache key))

  Distinct-room : (c : LruCache K V) (key : K) → Distinct c.cache → Distinct (room c key)
  Distinct-room c key d = elim (Bool-cases (leb c.max_size (length (remove c.cache key)))) [
    | inl full ↦ rw full (Distinct-drop _ (Distinct-remove c.cache key d))
    | inr free ↦ rw free (Distinct-remove c.cache key d)
  ]

  -- `set` keeps the bound on the size and stores no key twice.
  pub lru_set-IsValid :
      (c : LruCache K V) (now : ℕ) (key : K) (value : V) (ttl_ms : ℕ)
      → IsValid c
      → IsValid (lru_set c now key value ttl_ms)
  lru_set-IsValid c now key value ttl_ms v = record {
    bounded = rw (cache-lru_set c now key value ttl_ms v.distinct) (
        unfold lru_set in
        omega (arith, length-append (room c key) ((key, _) ∷ []), length-room c key v));
    distinct =
        rw (cache-lru_set c now key value ttl_ms v.distinct) (
          Distinct-append (room c key) key _ (get-room_self c key)
            (Distinct-room c key v.distinct));
  }

  length-remove_hit :
      (m : List (K × LruEntry V)) (key : K) (entry : LruEntry V)
      → get m key ≡ some entry
      → length (remove m key) + 1 ≤ length m
  length-remove_hit [] key entry h = cc
  length-remove_hit ((j, w) ∷ m) key entry h =
      ground (arith, length-remove_hit m key entry, length-remove-le m key)

  -- `get` keeps the bound on the size and stores no key twice.
  pub lru_get-IsValid :
      (c : LruCache K V) (now : ℕ) (key : K) → IsValid c → IsValid (lru_get c now key).0
  unfolding lru_get
  lru_get-IsValid c now key v =
      let m = c.cache in
      let kept = remove m key in
      elim (Option-cases (get m key)) [
        | inl miss ↦ rw (miss, lru_get) v
        | inr (entry, hit) ↦ record {
          bounded = ground (
            arith,
            v.bounded,
            length-remove_hit m key entry hit,
            put_absent kept key entry,
            get-remove_self m key,
            length-append kept ((key, entry) ∷ []),
          );
          distinct = ground (
            arith,
            v.distinct,
            Distinct-remove m key v.distinct,
            put_absent kept key entry,
            get-remove_self m key,
            Distinct-append kept key entry,
          );
        }
      ]
