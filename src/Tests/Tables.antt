-- ===== src/Tests/Tables.antt =====
-- Tables of sessions and users that compute.
use ewu_taks.Base.{
  ℕ, zero, suc, ◌+◌, ◌≤◌, ◌<◌, Option, none, some, Bool, true, false, not, ◌&&◌, if◌then◌else◌,
  text_eq, ◌==◌, ==_iff, nat_eq, ltb, ◌≡◌, refl, arith, Option-cases, Bool-cases, inl, inr,
}
use ewu_taks.Domain.{Table, map_option, holds, User}
use ewu_taks.Auth.Refresh.{Session}
use ewu_taks.Auth.Tables.{Finder, SessionRows}

-- sessions as a function below the next id
abbrev pub Rows : Type 0
Rows = ℕ × (ℕ → Option Session)

abbrev pub row_at : Rows → ℕ → Option Session
row_at s j = if ltb j s.0 then s.1 j else none

abbrev pub count_to : ℕ → (ℕ → Option Session) → (ℕ → Session → Bool) → ℕ
count_to zero f p = 0
count_to (suc n) f p = (if holds (p n) (f n) then 1 else 0) + count_to n f p

abbrev pub deleted_rows : (ℕ → Option Session) → (ℕ → Session → Bool) → ℕ → Option Session
deleted_rows f p j = if holds (p j) (f j) then none else f j

count_to-same :
    (n : ℕ) (f g : ℕ → Option Session) (p q : ℕ → Session → Bool)
    → ((j : ℕ) → j < n → holds (p j) (f j) ≡ holds (q j) (g j))
    → count_to n f p ≡ count_to n g q
count_to-same zero f g p q same = refl
count_to-same (suc n) f g p q same =
    ground (arith, same n (omega arith), count_to-same n f g p q (λ j h. same j (omega arith)))

count_to-le :
    (n : ℕ) (f g : ℕ → Option Session) (p q : ℕ → Session → Bool)
    → ((j : ℕ) → holds (p j) (f j) ≡ true → holds (q j) (g j) ≡ true)
    → count_to n f p ≤ count_to n g q
count_to-le zero f g p q h = omega arith
count_to-le (suc n) f g p q h = ground (arith, h n, count_to-le n f g p q h)

count_to-lt :
    (n id : ℕ) (f g : ℕ → Option Session) (p : ℕ → Session → Bool)
    → id < n
    → holds (p id) (g id) ≡ true
    → holds (p id) (f id) ≡ false
    → ((j : ℕ) → holds (p j) (f j) ≡ true → holds (p j) (g j) ≡ true)
    → count_to n f p + 1 ≤ count_to n g p
count_to-lt zero id f g p below there gone h = absurd (omega arith)
count_to-lt (suc n) id f g p below there gone h = elim (Bool-cases (n == id)) [
  | inl same ↦ ground (arith, same, there, gone, count_to-le n f g p p h)
  | inr other ↦
      ground (arith, h n, count_to-lt n id f g p (ground (arith, below, other)) there gone h)
]

pub rows-find-next : (s : Rows) (j : ℕ) → s.0 ≤ j → row_at s j ≡ none
rows-find-next s j h = ground arith

pub rows-find-create :
    (s : Rows) (x : Session) (j : ℕ)
    → row_at (s.0 + 1, λ k. if s.0 == k then some x else s.1 k) j
      ≡ (if s.0 == j then some x else row_at s j)
rows-find-create s x j = ground arith

pub rows-find-write :
    (s : Rows) (id j : ℕ) (f : Session → Session)
    → row_at (s.0, λ k. if id == k then map_option f (s.1 k) else s.1 k) j
      ≡ (if id == j then map_option f (row_at s j) else row_at s j)
rows-find-write s id j f = ground arith

pub rows-find-delete_many :
    (s : Rows) (p : ℕ → Session → Bool) (j : ℕ)
    → row_at (s.0, deleted_rows s.1 p) j ≡ (if holds (p j) (row_at s j) then none else row_at s j)
rows-find-delete_many s p j = ground arith

pub rows-count-create :
    (s : Rows) (x : Session) (p : ℕ → Session → Bool)
    → count_to (s.0 + 1) (λ k. if s.0 == k then some x else s.1 k) p
      ≡ (if p s.0 x then 1 else 0) + count_to s.0 s.1 p
rows-count-create s x p =
    let new = λ (k : ℕ). if s.0 == k then some x else s.1 k in
    let same : count_to s.0 new p ≡ count_to s.0 s.1 p =
      count_to-same s.0 new s.1 p p (λ j below. ground (arith, below)) in
    ground (arith, same, ==_iff s.0 s.0)

pub rows-count-write :
    (s : Rows) (id : ℕ) (f : Session → Session) (p : ℕ → Session → Bool)
    → ((j : ℕ) (x : Session) → p j (f x) ≡ p j x)
    → count_to s.0 (λ k. if id == k then map_option f (s.1 k) else s.1 k) p ≡ count_to s.0 s.1 p
rows-count-write s id f p same =
    count_to-same s.0 (λ k. if id == k then map_option f (s.1 k) else s.1 k) s.1 p p
      (λ j below. elim (Option-cases (s.1 j)) [
        | inl missing ↦ ground (arith, missing)
        | inr (x, there) ↦ ground (arith, there, same j x)
      ])

pub rows-count-delete_many :
    (s : Rows) (q p : ℕ → Session → Bool) → count_to s.0 (deleted_rows s.1 q) p ≤ count_to s.0 s.1 p
rows-count-delete_many s q p =
    count_to-le s.0 (deleted_rows s.1 q) s.1 p p (λ j h. ground (arith, h))

pub rows-count-delete_one :
    (s : Rows) (id : ℕ) (x : Session) (p : ℕ → Session → Bool)
    → row_at s id ≡ some x
    → p id x ≡ true
    → count_to s.0 (deleted_rows s.1 (λ j y. j == id)) p + 1 ≤ count_to s.0 s.1 p
rows-count-delete_one s id x p found counted =
    count_to-lt s.0 id (deleted_rows s.1 (λ j y. j == id)) s.1 p (ground (arith, found))
      (ground (arith, found, counted)) (ground (arith, found, ==_iff id id))
      (λ j h. ground (arith, h))

pub rows-count-le :
    (s : Rows) (p q : ℕ → Session → Bool)
    → ((j : ℕ) (x : Session) → p j x ≡ true → q j x ≡ true)
    → count_to s.0 s.1 p ≤ count_to s.0 s.1 q
rows-count-le s p q h = count_to-le s.0 s.1 s.1 p q (λ j held. elim (Option-cases (s.1 j)) [
  | inl missing ↦ absurd (ground (arith, missing, held))
  | inr (x, there) ↦ ground (arith, there, held, h j x)
])

abbrev pub session_rows : SessionRows
session_rows = record {
  State = Rows;
  find = row_at;
  next = λ s. s.0;
  create = λ s x. (s.0 + 1, λ k. if s.0 == k then some x else s.1 k);
  write = λ s id f. (s.0, λ k. if id == k then map_option f (s.1 k) else s.1 k);
  delete_many = λ s p. (s.0, deleted_rows s.1 p);
  count = λ s p. count_to s.0 s.1 p;
  find-next = rows-find-next;
  next-delete_many = λ s p. refl;
  find-create = rows-find-create;
  find-write = rows-find-write;
  find-delete_many = rows-find-delete_many;
  count-create = rows-count-create;
  count-write = rows-count-write;
  count-delete_many = rows-count-delete_many;
  count-delete_one = rows-count-delete_one;
  count-le = rows-count-le;
}

abbrev pub find_one : Option User → (User → Bool) → Option (ℕ × User)
find_one none p = none
find_one (some u) p = if not u.is_deleted && p u then some (7, u) else none

pub one-find-write :
    (s : Option User) (id j : ℕ) (f : User → User)
    → (if j == 7 then (if id == 7 then map_option f s else s) else none) ≡ (
        if id == j then map_option f (if j == 7 then s else none) else (if j == 7 then s else none))
one-find-write s id j f = ground arith

pub find_one-found :
    (s : Option User) (p : User → Bool) (id : ℕ) (u : User)
    → find_one s p ≡ some (id, u)
    → ((if id == 7 then s else none) ≡ some u) × (p u ≡ true) × (u.is_deleted ≡ false)
find_one-found none p id u h = absurd (ground arith)
find_one-found (some v) p id u h = elim (Bool-cases (not v.is_deleted && p v)) [
  | inl here ↦
      let same : v ≡ u = ground (arith, here) in
      (ground (arith, here, same), ground (arith, here, same), ground (arith, here, same))
  | inr other ↦ absurd (ground (arith, other))
]

pub find_one-missing :
    (s : Option User) (p : User → Bool) (id : ℕ) (u : User)
    → find_one s p ≡ none
    → (if id == 7 then s else none) ≡ some u
    → u.is_deleted ≡ false
    → p u ≡ false
find_one-missing none p id u h found alive = absurd (ground arith)
find_one-missing (some v) p id u h found alive =
    let same : v ≡ u = ground (arith, found) in ground (arith, h, same, alive)

-- one user, with the id 7
abbrev pub one_user : Table User
one_user = record {
  State = Option User;
  find = λ s id. if id == 7 then s else none;
  write = λ s id f. if id == 7 then map_option f s else s;
  find-write = one-find-write;
}

abbrev pub one_finder : Finder one_user
one_finder = record {
  find_first = find_one;
  find_first-found = find_one-found;
  find_first-missing = find_one-missing;
}
