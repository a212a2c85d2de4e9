-- ===== src/Cache/Lru/Eviction.antt =====
-- The LRU cache over a whole run of calls.
use ewu_taks.Base.{ℕ, ◌≤◌, ◌≡◌, refl, List, [], ◌∷◌, Eq, length, arith, length-remove-le, max, ◌∙◌}
use ewu_taks.Cache.Lru.{LruCache, create, lru_get, lru_set, lru_delete, clear}
use ewu_taks.Cache.Lru.Bounds.{IsValid, Distinct-remove, lru_get-IsValid, lru_set-IsValid}

-- A call with the time at which it is made.
pub data Call {ℓ} (K V : Type ℓ) : Type ℓ where
  get_call : ℕ → K → Call K V
  set_call : ℕ → K → V → ℕ → Call K V
  delete_call : K → Call K V
  clear_call : Call K V

module _ {ℓ} {K V : Type ℓ} ⦃e : Eq K⦄ where
  pub after : LruCache K V → Call K V → LruCache K V
  after c (get_call now key) = (lru_get c now key).0
  after c (set_call now key value ttl_ms) = lru_set c now key value ttl_ms
  after c (delete_call key) = lru_delete c key
  after c clear_call = clear c

  unfoldable pub run : LruCache K V → List (Call K V) → LruCache K V
  unfolding after
  run c [] = c
  run c (call ∷ calls) = run (after c call) calls

  pub create-IsValid : (n : ℕ) → IsValid (create {K = K} {V = V} n)
  unfolding create
  create-IsValid n = record { bounded = omega arith; distinct = tt }

  pub lru_delete-IsValid : (c : LruCache K V) (key : K) → IsValid c → IsValid (lru_delete c key)
  unfolding lru_delete
  lru_delete-IsValid c key v = record {
    bounded = omega (arith, v.bounded, length-remove-le c.cache key);
    distinct = Distinct-remove c.cache key v.distinct;
  }

  pub clear-IsValid : (c : LruCache K V) → IsValid (clear c)
  unfolding clear
  clear-IsValid c = record { bounded = omega arith; distinct = tt }

  after-IsValid : (c : LruCache K V) (call : Call K V) → IsValid c → IsValid (after c call)
  unfolding after
  after-IsValid c (get_call now key) v = lru_get-IsValid c now key v
  after-IsValid c (set_call now key value ttl_ms) v = lru_set-IsValid c now key value ttl_ms v
  after-IsValid c (delete_call key) v = lru_delete-IsValid c key v
  after-IsValid c clear_call v = clear-IsValid c

  run_from-IsValid :
      (c : LruCache K V) (calls : List (Call K V)) → IsValid c → IsValid (run c calls)
  unfolding run
  run_from-IsValid c [] v = v
  run_from-IsValid c (call ∷ calls) v =
      run_from-IsValid (after c call) calls (after-IsValid c call v)

  max_size-after : (c : LruCache K V) (call : Call K V) → (after c call).max_size ≡ c.max_size
  unfolding after lru_get lru_set lru_delete clear
  max_size-after c (get_call now key) = ground arith
  max_size-after c (set_call now key value ttl_ms) = refl
  max_size-after c (delete_call key) = refl
  max_size-after c clear_call = refl

  max_size-run : (c : LruCache K V) (calls : List (Call K V)) → (run c calls).max_size ≡ c.max_size
  unfolding run
  max_size-run c [] = refl
  max_size-run c (call ∷ calls) = max_size-run (after c call) calls ∙ max_size-after c call

  -- Whatever the calls and their times, a cache created for `n` entries holds at most `n` of them
  -- (one, if `n` is 0).
  pub run-create-bounded :
      (n : ℕ) (calls : List (Call K V))
      → length (run (create {K = K} {V = V} n) calls).cache ≤ max 1 n
  unfolding create
  run-create-bounded n calls =
      let start = create {K = K} {V = V} n in
      omega
        (arith, (run_from-IsValid start calls (create-IsValid n)).bounded, max_size-run start calls)
