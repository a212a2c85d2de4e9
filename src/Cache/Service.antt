-- ===== src/Cache/Service.antt =====
-- `CacheService` of libs/core/src/lib/cache/cache.service.ts without its streams and channels: an LRU
-- cache in the process before Redis. A value is its JSON text. Each call of Redis answers `none` where
-- it is not there or throws; `expiry` below counts in milliseconds, as the clock does.
pub mod Scan
pub mod SingleUse
use ewu_taks.Base.{
  ℕ, zero, suc, ◌+◌, ◌*◌, List, [], ◌∷◌, ◌++◌, Option, none, some, Bool, true, false, if◌then◌else◌,
  Text, text_eq, ◌==◌, nat_eq, contains, is_some, Result, ok, err,
}
use ewu_taks.Cache.Lru.{LruCache, lru_get, lru_set, lru_delete, keys}

-- The commands that the service sends: GET and TTL, SET EX, SET EX NX, GETDEL, DEL, the
-- compare-and-delete script and SCAN MATCH.
pub record Redis : Type 1 where
  pub State : Type 0
  pub get_with_ttl : State → ℕ → Text → Option (Option (Text × ℕ))
  pub set_ex : State → ℕ → Text → Text → ℕ → Option State
  pub set_nx : State → ℕ → Text → Text → ℕ → Option (Bool × State)
  pub get_del : State → ℕ → Text → Option (Option Text × State)
  pub del : State → List Text → Option State
  pub compare_and_delete : State → ℕ → Text → Text → Option (Bool × State)
  pub scan : State → Text → ℕ → Option (ℕ × List Text)

pub data CacheError : Type 0 where
  redis_unavailable : CacheError

-- What a call that throws leaves.
abbrev pub kept : {State : Type 0} → Option State → State → State
kept none s = s
kept (some s') s = s'

-- Characters that the pattern escapes.
abbrev pub meta_characters : Text
meta_characters =
    b'.' ∷ b'+' ∷ b'^' ∷ b'$' ∷ b'{' ∷ b'}' ∷ b'(' ∷ b')' ∷ b'|' ∷ b'[' ∷ b']' ∷ 92 ∷ []

-- The source of the regular expression of a pattern, between `^` and `$`.
abbrev pub regex_body : Text → Text
regex_body [] = []
regex_body (c ∷ cs) =
    let rest = regex_body cs in
    if contains meta_characters c
    then 92 ∷ c ∷ rest
    else if c == b'*'
    then b'.' ∷ b'*' ∷ rest
    else if c == b'?'
    then b'.' ∷ rest
    else c ∷ rest

abbrev pub regex_source : Text → Text
regex_source pattern = b'^' ∷ (regex_body pattern ++ b'$' ∷ [])

module _ (redis : Redis) (test : Text → Text → Bool) where
  open redis use {State, get_with_ttl, set_ex, set_nx, get_del, del, compare_and_delete, scan}

  pub record Cache : Type 0 where
    pub l1 : LruCache Text Text
    pub redis_now : State

  -- `get`: the value and the cache
  unfoldable pub cache_get : Cache → ℕ → Text → Option Text × Cache
  cache_get c now key =
      let looked = lru_get c.l1 now key in
      elim looked.1 [
        | some value ↦ (some value, record c { l1 = looked.0 })
        | none ↦ elim (get_with_ttl c.redis_now now key) [
          | none ↦ (none, record c { l1 = looked.0 })
          | some none ↦ (none, record c { l1 = looked.0 })
          | some (some (value, zero)) ↦ (some value, record c { l1 = looked.0 })
          | some (some (value, suc t)) ↦
              (some value, record c { l1 = lru_set looked.0 now key value (suc t * 1000) })
        ]
      ]

  unfoldable pub cache_set : Cache → ℕ → Text → Text → ℕ → Cache
  cache_set c now key value ttl_seconds = record {
    l1 = lru_set c.l1 now key value (ttl_seconds * 1000);
    redis_now = kept (set_ex c.redis_now now key value ttl_seconds) c.redis_now;
  }

  unfoldable pub get_and_delete : Cache → ℕ → Text → Option Text × Cache
  get_and_delete c now key =
      let l1' = lru_delete c.l1 key in
      elim (get_del c.redis_now now key) [
        | none ↦ (none, record c { l1 = l1' })
        | some (value, s) ↦ (value, record { l1 = l1'; redis_now = s })
      ]

  unfoldable pub cache_delete : Cache → Text → Cache
  cache_delete c key = record {
    l1 = lru_delete c.l1 key;
    redis_now = kept (del c.redis_now (key ∷ [])) c.redis_now;
  }

  unfoldable pub delete_if_match : Cache → ℕ → Text → Text → Bool × Cache
  delete_if_match c now key expected =
      let l1' = lru_delete c.l1 key in
      elim (compare_and_delete c.redis_now now key expected) [
        | none ↦ (false, record c { l1 = l1' })
        | some (deleted, s) ↦ (deleted, record { l1 = l1'; redis_now = s })
      ]

  unfoldable pub set_if_absent : Cache → ℕ → Text → Text → ℕ → Bool × Cache
  set_if_absent c now key value ttl_seconds = elim (set_nx c.redis_now now key value ttl_seconds) [
    | some (true, s) ↦
        (true, record { l1 = lru_set c.l1 now key value (ttl_seconds * 1000); redis_now = s })
    | some (false, s) ↦ (false, record c { redis_now = s })
    | none ↦
        let looked = lru_get c.l1 now key in
        if is_some looked.1
        then (false, record c { l1 = looked.0 })
        else (true, record c { l1 = lru_set looked.0 now key value (ttl_seconds * 1000) })
  ]

  unfoldable pub set_if_absent_strict : Cache → ℕ → Text → Text → ℕ → Result CacheError Bool × Cache
  set_if_absent_strict c now key value ttl_seconds =
      elim (set_nx c.redis_now now key value ttl_seconds) [
        | none ↦ (err redis_unavailable, c)
        | some (true, s) ↦ (
          ok true,
          record { l1 = lru_set c.l1 now key value (ttl_seconds * 1000); redis_now = s },
        )
        | some (false, s) ↦ (ok false, record c { redis_now = s })
      ]

  -- The loop over the keys of the LRU cache
  abbrev pub delete_matching : Text → LruCache Text Text → List Text → LruCache Text Text
  delete_matching source c [] = c
  delete_matching source c (key ∷ rest) =
      delete_matching source (if test source key then lru_delete c key else c) rest

  unfoldable pub delete_l1_by_pattern : LruCache Text Text → Text → LruCache Text Text
  delete_l1_by_pattern c pattern = delete_matching (regex_source pattern) c (keys c)

  -- The loop of `redisScanDel` from a cursor: `none` is that the fuel ran out. A call that throws ends
  -- it. DEL is sent where the page has keys.
  unfoldable pub redis_scan_del : ℕ → Text → ℕ → State → Option State
  redis_scan_del zero pattern cursor s = none
  redis_scan_del (suc fuel) pattern cursor s = elim (scan s pattern cursor) [
    | none ↦ some s
    | some (next, []) ↦
        let rest = redis_scan_del fuel pattern next s in if next == 0 then some s else rest
    | some (next, key ∷ page) ↦ elim (del s (key ∷ page)) [
      | none ↦ some s
      | some s' ↦
          let rest = redis_scan_del fuel pattern next s' in if next == 0 then some s' else rest
    ]
  ]

  -- `deleteByPattern`; `none` is that the fuel of the loop ran out.
  unfoldable pub delete_by_pattern : ℕ → Cache → Text → Option Cache
  delete_by_pattern fuel c pattern = elim (redis_scan_del fuel pattern 0 c.redis_now) [
    | none ↦ none
    | some s ↦ some (record { l1 = delete_l1_by_pattern c.l1 pattern; redis_now = s })
  ]
