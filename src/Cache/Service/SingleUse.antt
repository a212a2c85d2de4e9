-- ===== src/Cache/Service/SingleUse.antt =====
-- A key is claimed once, whichever server asks.
use ewu_taks.Base.{
  ℕ, ◌+◌, ◌*◌, ◌≤◌, ◌<◌, List, [], ◌∷◌, some, Bool, true, false, not, ◌&&◌, if◌then◌else◌, Text,
  ltb, leb, all, Result, ok, err, ◌≡◌, refl, arith, Option-cases, Bool-cases, inl, inr,
}
use ewu_taks.Cache.Lru.{LruCache}
use ewu_taks.Cache.Service.{Redis, Cache, CacheError, set_if_absent_strict}

-- What Redis documents of SET EX NX, where `present` is whether a key is there at a time.
pub record NxLaws (redis : Redis) : Type 0 where
  pub present : redis.State → ℕ → Text → Bool
  pub nx-answer :
      (s s' : redis.State) (now : ℕ) (key value : Text) (ttl : ℕ) (won : Bool)
      → redis.set_nx s now key value ttl ≡ some (won, s')
      → won ≡ not (present s now key)
  pub nx-won :
      (s s' : redis.State) (now later : ℕ) (key value : Text) (ttl : ℕ)
      → redis.set_nx s now key value ttl ≡ some (true, s')
      → later < now + ttl * 1000
      → present s' later key ≡ true
  pub nx-lost :
      (s s' : redis.State) (now later : ℕ) (key value : Text) (ttl : ℕ)
      → redis.set_nx s now key value ttl ≡ some (false, s')
      → present s' later key ≡ present s later key

abbrev pub is_won : Result CacheError Bool → Bool
is_won (err e) = false
is_won (ok won) = won

-- A claim of the key: its time, what the process that makes it has in its own cache, and a value.
pub record Claim : Type 0 where
  pub at : ℕ
  pub l1 : LruCache Text Text
  pub value : Text

module _ (redis : Redis) (test : Text → Text → Bool) (laws : NxLaws redis) (key : Text)
    (ttl : ℕ) where
  open laws use {present}

  abbrev pub claim : redis.State → Claim → Result CacheError Bool × Cache redis test
  claim s c =
      set_if_absent_strict redis test (record { l1 = c.l1; redis_now = s }) c.at key c.value ttl

  -- How many claims win, one after the other on the same Redis.
  abbrev pub wins : redis.State → List Claim → ℕ
  wins s [] = 0
  wins s (c ∷ claims) =
      let answer = claim s c in
      let rest = wins (answer.1).redis_now claims in (if is_won answer.0 then 1 else 0) + rest

  abbrev pub is_before : ℕ → Claim → Bool
  is_before end c = ltb c.at end

  abbrev pub is_in : ℕ → Claim → Bool
  is_in start c = leb start c.at && ltb c.at (start + ttl * 1000)

  all_before :
      (start : ℕ) (claims : List Claim)
      → all (is_in start) claims ≡ true
      → all (is_before (start + ttl * 1000)) claims ≡ true
  all_before start [] within = refl
  all_before start (c ∷ claims) within = ground (arith, all_before start claims, within)

  wins-present :
      (end : ℕ) (claims : List Claim) (s : redis.State)
      → ((later : ℕ) → later < end → present s later key ≡ true)
      → all (is_before end) claims ≡ true
      → wins s claims ≡ 0
  unfolding set_if_absent_strict
  wins-present end [] s there before = refl
  wins-present end (c ∷ claims) s there before =
      elim (Option-cases (redis.set_nx s c.at key c.value ttl)) [
        | inl down ↦ ground (arith, down, wins-present end claims s there (ground (arith, before)))
        | inr ((won, s'), answered) ↦
            let lost : won ≡ false = ground (
              arith,
              laws.nx-answer s s' c.at key c.value ttl won answered,
              there c.at (ground (arith, before)),
            ) in
            let answered' : redis.set_nx s c.at key c.value ttl ≡ some (false, s') =
              ground (arith, answered, lost) in
            let still =
              wins-present end claims s'
                (λ later soon.
                  ground (
                    arith,
                    laws.nx-lost s s' c.at later key c.value ttl answered',
                    there later soon,
                  ))
                (ground (arith, before)) in
            ground (arith, answered', still)
      ]

  -- A strict claim of a key wins at most once: among all claims of the key within the time to live,
  -- by any processes whatever is in their own caches, one after the other, at most one is told that
  -- it set the key. Redis may fail on any of them.
  pub wins-le :
      (start : ℕ) (claims : List Claim) (s : redis.State)
      → all (is_in start) claims ≡ true
      → wins s claims ≤ 1
  unfolding set_if_absent_strict
  wins-le start [] s within = omega arith
  wins-le start (c ∷ claims) s within = elim (Option-cases (redis.set_nx s c.at key c.value ttl)) [
    | inl down ↦ ground (arith, down, wins-le start claims s (ground (arith, within)))
    | inr ((won, s'), answered) ↦ elim (Bool-cases won) [
      | inr lost ↦ ground (arith, answered, lost, wins-le start claims s' (ground (arith, within)))
      | inl first ↦
          let answered' : redis.set_nx s c.at key c.value ttl ≡ some (true, s') =
            ground (arith, answered, first) in
          let none_after =
            wins-present (start + ttl * 1000) claims s'
              (λ later soon.
                laws.nx-won s s' c.at later key c.value ttl answered'
                  (ground (arith, soon, within)))
              (all_before start claims (ground (arith, within))) in
          ground (arith, answered', none_after)
    ]
  ]
