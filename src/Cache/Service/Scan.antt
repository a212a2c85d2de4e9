-- ===== src/Cache/Service/Scan.antt =====
-- The deletion by a pattern ends, and what is left in Redis.
use ewu_taks.Base.{
  ℕ, zero, suc, ◌≤◌, ◌<◌, List, [], ◌∷◌, some, Bool, true, false, not, ◌&&◌, if◌then◌else◌, Text,
  text_eq, ◌==◌, nat_eq, contains, ◌≡◌, ◌⊎◌, inl, inr, ◌∙◌, arith, ltb, Bool-cases,
}
use ewu_taks.Cache.Service.{Redis, Cache, redis_scan_del, delete_by_pattern, delete_l1_by_pattern}

-- What Redis documents of SCAN and DEL where each call answers. `left` is how far a cursor is from
-- the end of the iteration, `place` where in it a key comes up; a key that is there all the time is
-- in the page that its place falls in. `has` is whether a key is there and `glob` whether it matches.
pub record ScanLaws (redis : Redis) : Type 0 where
  pub has : redis.State → Text → Bool
  pub glob : Text → Text → Bool
  pub left : ℕ → ℕ
  pub place : Text → ℕ
  pub place-le : (key : Text) → place key ≤ left 0
  pub scan-some :
      (s : redis.State) (pattern : Text) (cursor : ℕ)
      → (next : ℕ) × (page : List Text) × (redis.scan s pattern cursor ≡ some (next, page))
  pub scan-left :
      (s : redis.State) (pattern : Text) (cursor next : ℕ) (page : List Text)
      → redis.scan s pattern cursor ≡ some (next, page)
      → (next ≡ 0) ⊎ (left next < left cursor)
  pub scan-page :
      (s : redis.State) (pattern : Text) (cursor next : ℕ) (page : List Text) (key : Text)
      → redis.scan s pattern cursor ≡ some (next, page)
      → has s key ≡ true
      → glob pattern key ≡ true
      → place key ≤ left cursor
      → (next ≡ 0) ⊎ (left next < place key)
      → contains page key ≡ true
  pub scan-glob :
      (s : redis.State) (pattern : Text) (cursor next : ℕ) (page : List Text) (key : Text)
      → redis.scan s pattern cursor ≡ some (next, page)
      → contains page key ≡ true
      → glob pattern key ≡ true
  pub del-some :
      (s : redis.State) (page : List Text) → (s' : redis.State) × (redis.del s page ≡ some s')
  pub has-del :
      (s s' : redis.State) (page : List Text) (key : Text)
      → redis.del s page ≡ some s'
      → has s' key ≡ (has s key && not (contains page key))

module _ (redis : Redis) (test : Text → Text → Bool) (laws : ScanLaws redis) where
  open laws use {has, glob, left, place}

  -- What a loop from a cursor leaves.
  abbrev pub IsSwept : Text → ℕ → redis.State → redis.State → Type 0
  IsSwept pattern cursor s s' =
      (key : Text)
      → ((glob pattern key ≡ false → has s' key ≡ has s key)
          × (has s key ≡ false → has s' key ≡ false)
          × (glob pattern key ≡ true → place key ≤ left cursor → has s' key ≡ false))

  -- One round of the loop, whether or not its page is empty.
  redis_scan_del-round :
      (fuel : ℕ) (pattern : Text) (cursor next : ℕ) (page : List Text) (s : redis.State)
      → redis.scan s pattern cursor ≡ some (next, page)
      → (s1 : redis.State) × ((key : Text) → has s1 key ≡ (has s key && not (contains page key)))
        × (redis_scan_del redis test (suc fuel) pattern cursor s
            ≡ (if next == 0 then some s1 else redis_scan_del redis test fuel pattern next s1))
  unfolding redis_scan_del
  redis_scan_del-round fuel pattern cursor next [] s found =
      (s, λ key. ground arith, ground (arith, found))
  redis_scan_del-round fuel pattern cursor next (key ∷ page) s found =
      let (s1, deleted) = laws.del-some s (key ∷ page) in
      (s1, λ k. laws.has-del s s1 (key ∷ page) k deleted, ground (arith, found, deleted))

  -- What a round does to one key.
  round_key :
      (pattern : Text) (cursor next : ℕ) (page : List Text) (s s1 : redis.State) (key : Text)
      → redis.scan s pattern cursor ≡ some (next, page)
      → has s1 key ≡ (has s key && not (contains page key))
      → (glob pattern key ≡ false → has s1 key ≡ has s key)
        × (has s key ≡ false → has s1 key ≡ false)
        × (glob pattern key ≡ true
            → place key ≤ left cursor
            → (next ≡ 0) ⊎ (left next < place key)
            → has s1 key ≡ false)
  round_key pattern cursor next page s s1 key found after = (
    λ unmatched. elim (Bool-cases (contains page key)) [
      | inl paged ↦
          let matched = laws.scan-glob s pattern cursor next page key found paged in
          absurd (ground (arith, matched, unmatched))
      | inr unpaged ↦ ground (arith, after, unpaged)
    ],
    λ gone. ground (arith, after, gone),
    λ matched ahead reached. elim (Bool-cases (has s key)) [
      | inr gone ↦ ground (arith, after, gone)
      | inl there ↦
          let paged =
            laws.scan-page s pattern cursor next page key found there matched ahead reached in
          ground (arith, after, paged)
    ],
  )

  redis_scan_del-IsSwept :
      (fuel : ℕ) (pattern : Text) (cursor : ℕ) (s : redis.State)
      → left cursor < fuel
      → (s' : redis.State) × (redis_scan_del redis test fuel pattern cursor s ≡ some s')
        × IsSwept pattern cursor s s'
  redis_scan_del-IsSwept zero pattern cursor s enough = absurd (omega (arith, enough))
  redis_scan_del-IsSwept (suc fuel) pattern cursor s enough =
      let (next, page, found) = laws.scan-some s pattern cursor in
      let (s1, has_s1, round) = redis_scan_del-round fuel pattern cursor next page s found in
      elim (Bool-cases (next == 0)) [
        | inl last ↦ (
          s1,
          ground (arith, round, last),
          λ key.
              let facts = round_key pattern cursor next page s s1 key found (has_s1 key) in
              (
                facts.0,
                facts.1,
                λ matched ahead. facts.2 matched ahead (inl (ground (arith, last))),
              ),
        )
        | inr more ↦
            let closer : left next < fuel = elim (laws.scan-left s pattern cursor next page found) [
              | inl ended ↦ absurd (ground (arith, ended, more))
              | inr less ↦ omega (arith, less, enough)
            ] in
            let (s', ends, swept) = redis_scan_del-IsSwept fuel pattern next s1 closer in
            (
              s',
              ground (arith, round, more, ends),
              λ key.
                  let facts = round_key pattern cursor next page s s1 key found (has_s1 key) in
                  let later = swept key in
                  (
                    λ unmatched. later.0 unmatched ∙ facts.0 unmatched,
                    λ gone. later.1 (facts.1 gone),
                    λ matched ahead. elim (Bool-cases (ltb (left next) (place key))) [
                      | inl passed ↦ later.1 (facts.2 matched ahead (inr (ground (arith, passed))))
                      | inr coming ↦ later.2 matched (ground (arith, coming))
                    ],
                  ),
            )
      ]

  -- The deletion by a pattern ends: with more fuel than the iteration has steps left at its start,
  -- where each call of Redis answers and Redis iterates as documented, it leaves a cache; there no key
  -- in Redis matches the pattern, and a key that does not match is there if and only if it was.
  pub delete_by_pattern-ends :
      (fuel : ℕ) (c : Cache redis test) (pattern : Text)
      → left 0 < fuel
      → (c' : Cache redis test) × (delete_by_pattern redis test fuel c pattern ≡ some c')
        × ((key : Text)
            → ((glob pattern key ≡ true → has c'.redis_now key ≡ false)
                × (glob pattern key ≡ false → has c'.redis_now key ≡ has c.redis_now key)))
  unfolding delete_by_pattern
  delete_by_pattern-ends fuel c pattern enough =
      let (s, ends, swept) = redis_scan_del-IsSwept fuel pattern 0 c.redis_now enough in
      (
        record { l1 = delete_l1_by_pattern redis test c.l1 pattern; redis_now = s },
        ground (arith, ends),
        λ key. (
          λ matched. (swept key).2 matched (laws.place-le key),
          λ unmatched. (swept key).0 unmatched,
        ),
      )
