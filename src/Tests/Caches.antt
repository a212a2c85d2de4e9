-- ===== src/Tests/Caches.antt =====
-- The cache service over a small Redis.
use ewu_taks.Base.{
  ℕ, ◌+◌, ◌*◌, ◌≤◌, ◌<◌, List, [], ◌∷◌, none, some, Bool, true, false, not, ◌&&◌, if◌then◌else◌,
  Text, text_eq, text_beq, text_beq_iff, contains, filter, ◌==◌, nat_eq, beq_refl, ◌≡◌, ◌⊎◌, inl,
  inr, refl, arith, Bool-cases,
}
use ewu_taks.Cache.Lru.{LruCache}
use ewu_taks.Cache.Service.{Redis, Cache, delete_by_pattern}
use ewu_taks.Cache.Service.Scan.{ScanLaws, delete_by_pattern-ends}
use ewu_taks.Cache.Service.SingleUse.{NxLaws, Claim, wins, wins-le}

-- A key is in the first page if it is not empty and in the second otherwise.
abbrev is_first : Text → Bool
is_first [] = false
is_first (c ∷ cs) = true

abbrev in_page : ℕ → Text → Bool
in_page cursor key = if cursor == 0 then is_first key else not (is_first key)

abbrev next_page : ℕ → ℕ
next_page cursor = if cursor == 0 then 1 else 0

abbrev left_of : ℕ → ℕ
left_of cursor = if cursor == 0 then 1 else 0

abbrev place_of : Text → ℕ
place_of key = if is_first key then 1 else 0

-- the state is the list of the keys
abbrev key_store : Redis
key_store = record {
  State = List Text;
  get_with_ttl = λ s now key. some (if contains s key then some (key, 0) else none);
  set_ex = λ s now key value ttl. some (key ∷ s);
  set_nx = λ s now key value ttl. some (if contains s key then (false, s) else (true, key ∷ s));
  get_del = λ s now key.
      some (if contains s key then some key else none, filter (λ k. not (text_beq k key)) s);
  del = λ s keys. some (filter (λ k. not (contains keys k)) s);
  compare_and_delete = λ s now key value. some (false, s);
  scan = λ s pattern cursor.
      some (next_page cursor, filter (λ k. text_beq pattern k && in_page cursor k) s);
}

contains-kept :
    (p : Text → Bool) (keys : List Text) (key : Text)
    → contains (filter p keys) key ≡ (contains keys key && p key)
contains-kept p [] key = refl
contains-kept p (k ∷ keys) key = ground (arith, contains-kept p keys key, text_beq_iff k key)

abbrev page_of : List Text → Text → ℕ → List Text
page_of s pattern cursor = filter (λ k. text_beq pattern k && in_page cursor k) s

place-le : (key : Text) → place_of key ≤ left_of 0
place-le key = ground arith

scan-left :
    (s : List Text) (pattern : Text) (cursor next : ℕ) (page : List Text)
    → key_store.scan s pattern cursor ≡ some (next, page)
    → (next ≡ 0) ⊎ (left_of next < left_of cursor)
scan-left s pattern cursor next page h = elim (Bool-cases (cursor == 0)) [
  | inl start ↦ inr (ground (arith, h, start))
  | inr later ↦ inl (ground (arith, h, later))
]

scan-page :
    (s : List Text) (pattern : Text) (cursor next : ℕ) (page : List Text) (key : Text)
    → key_store.scan s pattern cursor ≡ some (next, page)
    → contains s key ≡ true
    → text_beq pattern key ≡ true
    → place_of key ≤ left_of cursor
    → (next ≡ 0) ⊎ (left_of next < place_of key)
    → contains page key ≡ true
scan-page s pattern cursor next page key h there matched ahead reached =
    let is : page_of s pattern cursor ≡ page = ground (arith, h) in
    let paged = contains-kept (λ k. text_beq pattern k && in_page cursor k) s key in
    rw (← is) (ground (arith, paged, there, matched, ahead, reached, h))

scan-glob :
    (s : List Text) (pattern : Text) (cursor next : ℕ) (page : List Text) (key : Text)
    → key_store.scan s pattern cursor ≡ some (next, page)
    → contains page key ≡ true
    → text_beq pattern key ≡ true
scan-glob s pattern cursor next page key h paged =
    let is : page_of s pattern cursor ≡ page = ground (arith, h) in
    let law = contains-kept (λ k. text_beq pattern k && in_page cursor k) s key in
    ground (arith, is, law, paged)

has-del :
    (s s' page : List Text) (key : Text)
    → some (filter (λ k. not (contains page k)) s) ≡ some s'
    → contains s' key ≡ (contains s key && not (contains page key))
has-del s s' page key h =
    let is : filter (λ k. not (contains page k)) s ≡ s' = ground (arith, h) in
    rw (← is) (contains-kept (λ k. not (contains page k)) s key)

abbrev scan_laws : ScanLaws key_store
scan_laws = record {
  has = λ s key. contains s key;
  glob = text_beq;
  left = left_of;
  place = place_of;
  place-le = place-le;
  scan-some = λ s pattern cursor. (next_page cursor, page_of s pattern cursor, refl);
  scan-left = scan-left;
  scan-page = scan-page;
  scan-glob = scan-glob;
  del-some = λ s page. (filter (λ k. not (contains page k)) s, refl);
  has-del = has-del;
}

abbrev regex_test : Text → Text → Bool
regex_test source key = false

abbrev empty_cache : LruCache Text Text
empty_cache = record { max_size = 10; cache = [] }

abbrev two_keys : Cache key_store regex_test
two_keys = record { l1 = empty_cache; redis_now = (b'a' ∷ []) ∷ (b'b' ∷ []) ∷ [] }

delete_by_pattern-ends_example :
    (c' : Cache key_store regex_test) × (delete_by_pattern key_store regex_test 2 two_keys
        (b'a' ∷ [])
      ≡ some c')
    × ((key : Text)
        → ((text_beq (b'a' ∷ []) key ≡ true → contains c'.redis_now key ≡ false)
            × (text_beq (b'a' ∷ []) key ≡ false
                → contains c'.redis_now key ≡ contains two_keys.redis_now key)))
delete_by_pattern-ends_example =
    delete_by_pattern-ends key_store regex_test scan_laws 2 two_keys (b'a' ∷ []) (omega arith)

nx-answer :
    (s s' : List Text) (now : ℕ) (key value : Text) (ttl : ℕ) (won : Bool)
    → key_store.set_nx s now key value ttl ≡ some (won, s')
    → won ≡ not (contains s key)
nx-answer s s' now key value ttl won h = elim (Bool-cases (contains s key)) [
  | inl there ↦ ground (arith, there, h)
  | inr free ↦ ground (arith, free, h)
]

nx-won :
    (s s' : List Text) (now later : ℕ) (key value : Text) (ttl : ℕ)
    → key_store.set_nx s now key value ttl ≡ some (true, s')
    → later < now + ttl * 1000
    → contains s' key ≡ true
nx-won s s' now later key value ttl h soon = elim (Bool-cases (contains s key)) [
  | inl there ↦ absurd (ground (arith, there, h))
  | inr free ↦
      let is : (key ∷ s) ≡ s' = ground (arith, free, h) in rw (← is) (ground (arith, beq_refl key))
]

nx-lost :
    (s s' : List Text) (now later : ℕ) (key value : Text) (ttl : ℕ)
    → key_store.set_nx s now key value ttl ≡ some (false, s')
    → contains s' key ≡ contains s key
nx-lost s s' now later key value ttl h = elim (Bool-cases (contains s key)) [
  | inl there ↦ let is : s ≡ s' = ground (arith, there, h) in rw (← is) refl
  | inr free ↦ absurd (ground (arith, free, h))
]

abbrev nx_laws : NxLaws key_store
nx_laws = record {
  present = λ s now key. contains s key;
  nx-answer = nx-answer;
  nx-won = nx-won;
  nx-lost = nx-lost;
}

abbrev claims : List Claim
claims =
    record { at = 10; l1 = empty_cache; value = b'1' ∷ [] }
    ∷ record { at = 20; l1 = empty_cache; value = b'2' ∷ [] }
    ∷ []

wins-le_example : wins key_store regex_test nx_laws (b't' ∷ []) 120 [] claims ≤ 1
wins-le_example = wins-le key_store regex_test nx_laws (b't' ∷ []) 120 0 claims [] refl
