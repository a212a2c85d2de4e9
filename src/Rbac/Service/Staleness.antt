-- ===== src/Rbac/Service/Staleness.antt =====
-- How long the role cache can serve rows that are no longer in the database, under every order of
-- queries, answers and invalidations.
use ewu_taks.Base.{
  ℕ, ◌+◌, ◌≤◌, ◌<◌, List, [], ◌∷◌, Option, none, some, ◌≡◌, refl, arith, Option-cases, Bool-cases,
  inl, inr, nat_eq, ◌==◌, ==_iff,
}
use ewu_taks.Cache.Lru.{LruCache, lru_get, lru_set, lru_delete, clear, peek}
use ewu_taks.Cache.Lru.Bounds.{IsValid, lru_get-IsValid, lru_set-IsValid}
use ewu_taks.Cache.Lru.Eviction.{lru_delete-IsValid, clear-IsValid, create-IsValid}
use ewu_taks.Cache.Lru.Reads.{
  value-lru_get, peek-lru_get-some, peek-lru_set_self, peek-lru_set_other, peek-lru_delete,
}
use ewu_taks.Rbac.Entry.{RoleCacheEntry, RolePermission, build_entry}
use ewu_taks.Rbac.Service.{
  RbacService, Rows, init, rbac_cache_ttl_ms, lookup_role, store_role, get_permissions_for_role,
  invalidate_role, invalidate_all, sweep, handle_invalidation_message, Reply, Message, all_roles,
  one_role, no_client, refused, answer, increment_version,
}

-- What happens at an instance. The two halves of `getPermissionsForRole` are events of their own,
-- since other events come between them while the query is under way; the rows of the second half
-- are arbitrary, as they may be older than a change.
pub data Event : Type 0 where
  lookup : ℕ → ℕ → Event
  store : ℕ → ℕ → List RolePermission → Event
  invalidate : ℕ → Reply ℕ → Event
  invalidate_every : Reply ℕ → Event
  swept : Reply (Option ℕ) → Event
  message : Option Message → Event

unfoldable pub step : RbacService → Event → RbacService
step s (lookup now role_id) = (lookup_role s now role_id).0
step s (store now role_id rows) = (store_role s now role_id rows).0
step s (invalidate role_id reply) = invalidate_role s role_id reply
step s (invalidate_every reply) = invalidate_all s reply
step s (swept reply) = sweep s reply
step s (message m) = handle_invalidation_message s m

unfoldable pub run_events : RbacService → List Event → RbacService
unfolding step
run_events s [] = s
run_events s (event ∷ events) = run_events (step s event) events

-- No answer of a query is stored after the time.
abbrev pub NoStoreAfter : ℕ → List Event → Type 0
NoStoreAfter t [] = Unit
NoStoreAfter t (store now role_id rows ∷ events) = (now ≤ t) × NoStoreAfter t events
NoStoreAfter t (_ ∷ events) = NoStoreAfter t events

-- Nothing can be read from the cache from `limit` on.
record Silent (limit : ℕ) (c : LruCache ℕ RoleCacheEntry) : Type 0 where
  valid : IsValid c
  at : (role_id now : ℕ) → limit ≤ now → peek c now role_id ≡ none

module _ (limit : ℕ) where
  -- An operation that makes nothing readable keeps the silence.
  Silent-fewer :
      (c c' : LruCache ℕ RoleCacheEntry)
      → IsValid c'
      → ((role_id now : ℕ) (entry : RoleCacheEntry)
          → peek c' now role_id ≡ some entry
          → (old : RoleCacheEntry) × (peek c now role_id ≡ some old))
      → Silent limit c
      → Silent limit c'
  Silent-fewer c c' v fewer q = record {
    valid = v;
    at = λ role_id now h. elim (Option-cases (peek c' now role_id)) [
      | inl silent ↦ silent
      | inr (entry, p) ↦
          let (old, there) = fewer role_id now entry p in
          absurd (ground (arith, there, q.at role_id now h))
    ];
  }

  Silent-get :
      (c : LruCache ℕ RoleCacheEntry) (now role_id : ℕ)
      → Silent limit c
      → Silent limit (lru_get c now role_id).0
  Silent-get c now role_id q =
      Silent-fewer c (lru_get c now role_id).0 (lru_get-IsValid c now role_id q.valid)
        (λ other later entry p. (entry, peek-lru_get-some c now later role_id other entry p)) q

  Silent-delete :
      (c : LruCache ℕ RoleCacheEntry) (role_id : ℕ)
      → Silent limit c
      → Silent limit (lru_delete c role_id)
  Silent-delete c role_id q =
      Silent-fewer c (lru_delete c role_id) (lru_delete-IsValid c role_id q.valid)
        (λ other later entry p. (entry, ground (arith, p, peek-lru_delete c later role_id other))) q

  Silent-clear : (c : LruCache ℕ RoleCacheEntry) → Silent limit (clear c)
  unfolding clear
  Silent-clear c = record { valid = clear-IsValid c; at = λ role_id now h. refl }

  Silent-set :
      (c : LruCache ℕ RoleCacheEntry) (now role_id : ℕ) (entry : RoleCacheEntry)
      → now + rbac_cache_ttl_ms ≤ limit
      → Silent limit c
      → Silent limit (lru_set c now role_id entry rbac_cache_ttl_ms)
  Silent-set c now role_id entry early q = record {
    valid = lru_set-IsValid c now role_id entry rbac_cache_ttl_ms q.valid;
    at = λ other later h. elim (Bool-cases (role_id == other)) [
      | inl same ↦ ground (
        arith,
        ==_iff role_id other,
        peek-lru_set_self c now later role_id entry rbac_cache_ttl_ms q.valid.distinct,
      )
      | inr differ ↦
          elim (Option-cases (peek (lru_set c now role_id entry rbac_cache_ttl_ms) later other)) [
            | inl silent ↦ silent
            | inr (v, p) ↦ absurd (
                ground (
                  arith,
                  q.at other later h,
                  peek-lru_set_other c now later role_id other entry v rbac_cache_ttl_ms
                      q.valid.distinct (λ e. ground (arith, ==_iff role_id other)) p,
                ))
          ]
    ];
  }

  step-Silent :
      (t : ℕ) (s : RbacService) (event : Event)
      → t + rbac_cache_ttl_ms ≤ limit
      → NoStoreAfter t (event ∷ [])
      → Silent limit s.cache
      → Silent limit (step s event).cache
  unfolding step lookup_role store_role invalidate_role invalidate_all sweep increment_version
      handle_invalidation_message
  step-Silent t s (lookup now role_id) fits early q = Silent-get s.cache now role_id q
  step-Silent t s (store now role_id rows) fits early q =
      Silent-set s.cache now role_id (build_entry rows) (omega arith) q
  step-Silent t s (invalidate role_id no_client) fits early q = Silent-delete s.cache role_id q
  step-Silent t s (invalidate role_id refused) fits early q = Silent-delete s.cache role_id q
  step-Silent t s (invalidate role_id (answer n)) fits early q = Silent-delete s.cache role_id q
  step-Silent t s (invalidate_every no_client) fits early q = Silent-clear s.cache
  step-Silent t s (invalidate_every refused) fits early q = Silent-clear s.cache
  step-Silent t s (invalidate_every (answer n)) fits early q = Silent-clear s.cache
  step-Silent t s (swept no_client) fits early q = q
  step-Silent t s (swept refused) fits early q = q
  step-Silent t s (swept (answer none)) fits early q = q
  step-Silent t s (swept (answer (some n))) fits early q =
      elim (Bool-cases (n == s.last_known_version)) [
        | inl same ↦ rw same q
        | inr differ ↦ rw differ (Silent-clear s.cache)
      ]
  step-Silent t s (message none) fits early q = q
  step-Silent t s (message (some all_roles)) fits early q = Silent-clear s.cache
  step-Silent t s (message (some (one_role none))) fits early q = q
  step-Silent t s (message (some (one_role (some role_id)))) fits early q =
      Silent-delete s.cache role_id q

NoStoreAfter-head :
    (t : ℕ) (event : Event) (events : List Event)
    → NoStoreAfter t (event ∷ events)
    → NoStoreAfter t (event ∷ [])
NoStoreAfter-head t (store now role_id rows) events h = (h.0, tt)
NoStoreAfter-head t (lookup now role_id) events h = tt
NoStoreAfter-head t (invalidate role_id reply) events h = tt
NoStoreAfter-head t (invalidate_every reply) events h = tt
NoStoreAfter-head t (swept reply) events h = tt
NoStoreAfter-head t (message m) events h = tt

NoStoreAfter-tail :
    (t : ℕ) (event : Event) (events : List Event)
    → NoStoreAfter t (event ∷ events)
    → NoStoreAfter t events
NoStoreAfter-tail t (store now role_id rows) events h = h.1
NoStoreAfter-tail t (lookup now role_id) events h = h
NoStoreAfter-tail t (invalidate role_id reply) events h = h
NoStoreAfter-tail t (invalidate_every reply) events h = h
NoStoreAfter-tail t (swept reply) events h = h
NoStoreAfter-tail t (message m) events h = h

run_events-Silent :
    (t : ℕ) (s : RbacService) (events : List Event)
    → NoStoreAfter t events
    → Silent (t + rbac_cache_ttl_ms) s.cache
    → Silent (t + rbac_cache_ttl_ms) (run_events s events).cache
unfolding run_events
run_events-Silent t s [] early q = q
run_events-Silent t s (event ∷ events) early q =
    run_events-Silent t (step s event) events (NoStoreAfter-tail t event events early) (
      step-Silent (t + rbac_cache_ttl_ms) t s event (omega arith)
        (NoStoreAfter-head t event events early) q)

Silent-init : (limit : ℕ) → Silent limit init.cache
unfolding init
Silent-init limit = record { valid = create-IsValid 100; at = λ role_id now h. refl }

-- After any run from the start of lookups, answers of queries (however old their rows are),
-- invalidations, sweeps and messages in which no answer is stored after `t`, a call of
-- `getPermissionsForRole` from five minutes after `t` on returns what the rows of the role give at
-- that moment.
pub staleness_bound :
    (t later role_id : ℕ) (events : List Event) (find_many : Rows)
    → NoStoreAfter t events
    → t + 300000 ≤ later
    → (get_permissions_for_role find_many (run_events init events) later role_id).1
      ≡ build_entry (find_many role_id)
unfolding get_permissions_for_role lookup_role store_role
staleness_bound t later role_id events find_many early h =
    let s = run_events init events in
    ground (
      arith,
      value-lru_get s.cache later role_id,
      (run_events-Silent t init events early (Silent-init _)).at role_id later h,
    )

cache-invalidate_role :
    (s : RbacService) (role_id : ℕ) (reply : Reply ℕ)
    → (invalidate_role s role_id reply).cache ≡ lru_delete s.cache role_id
unfolding invalidate_role increment_version
cache-invalidate_role s role_id no_client = refl
cache-invalidate_role s role_id refused = refl
cache-invalidate_role s role_id (answer n) = refl

-- On a valid cache, an invalidation works after the answer of a query and is lost before it,
-- whatever Redis replies. Where it comes after the old rows of the role were stored, a call within
-- the time to live returns the new ones; where it comes between the query and its answer, such a
-- call serves the old rows.
pub stale_after_race :
    (s : RbacService) (now later role_id : ℕ) (old : List RolePermission) (find_many : Rows)
    → (reply : Reply ℕ) → IsValid s.cache
    → later < now + rbac_cache_ttl_ms
    → ((get_permissions_for_role find_many
          (run_events s
            (lookup now role_id ∷ store now role_id old ∷ invalidate role_id reply ∷ []))
          later
          role_id).1
        ≡ build_entry (find_many role_id))
      × ((get_permissions_for_role find_many
            (run_events s
              (lookup now role_id ∷ invalidate role_id reply ∷ store now role_id old ∷ []))
            later
            role_id).1
          ≡ build_entry old)
unfolding get_permissions_for_role run_events lookup_role store_role
stale_after_race s now later role_id old find_many reply v h =
    let c = (lru_get s.cache now role_id).0 in
    let stored = lru_set c now role_id (build_entry old) rbac_cache_ttl_ms in
    let dropped = lru_delete c role_id in
    let is_valid = lru_get-IsValid s.cache now role_id v in
    let looked = (lookup_role s now role_id).0 in
    let first = cache-invalidate_role (store_role looked now role_id old).0 role_id reply in
    let second = cache-invalidate_role looked role_id reply in
    (
      ground (
        arith,
        first,
        value-lru_get (lru_delete stored role_id) later role_id,
        peek-lru_delete stored later role_id role_id,
        ==_iff role_id role_id,
      ),
      ground (
        arith,
        second,
        value-lru_get (lru_set dropped now role_id (build_entry old) rbac_cache_ttl_ms) later
            role_id,
        peek-lru_set_self dropped now later role_id (build_entry old) rbac_cache_ttl_ms
            (lru_delete-IsValid c role_id is_valid).distinct,
      ),
    )
