-- ===== src/Auth/Tables.antt =====
-- What the flows of auth.service.ts use of the Prisma delegates of users and sessions.
use ewu_taks.Base.{
  ℕ, ◌+◌, ◌≤◌, Option, none, some, Bool, true, false, not, if◌then◌else◌, nat_eq, ◌==◌, ◌≡◌, Text,
  text_beq, text_beq_iff, ap, Option-cases, inl, inr, arith, ==_iff,
}
use ewu_taks.Domain.{Table, map_option, holds, User}
use ewu_taks.Auth.Refresh.{Session, SessionTable}

-- `findFirst({ where })` on the users that are not deleted: some row that meets the condition.
pub record Finder (users : Table User) : Type 0 where
  pub find_first : users.State → (User → Bool) → Option (ℕ × User)
  pub find_first-found :
      (s : users.State) (p : User → Bool) (id : ℕ) (u : User)
      → find_first s p ≡ some (id, u)
      → (users.find s id ≡ some u) × (p u ≡ true) × (u.is_deleted ≡ false)
  pub find_first-missing :
      (s : users.State) (p : User → Bool) (id : ℕ) (u : User)
      → find_first s p ≡ none
      → users.find s id ≡ some u
      → u.is_deleted ≡ false
      → p u ≡ false

-- The sessions with `deleteMany({ where })` and `count({ where })`.
pub record SessionRows : Type 1 where
  pub State : Type 0
  pub find : State → ℕ → Option Session
  pub next : State → ℕ
  pub create : State → Session → State
  pub write : State → ℕ → (Session → Session) → State
  pub delete_many : State → (ℕ → Session → Bool) → State
  pub count : State → (ℕ → Session → Bool) → ℕ
  pub find-next : (s : State) (j : ℕ) → next s ≤ j → find s j ≡ none
  pub next-delete_many : (s : State) (p : ℕ → Session → Bool) → next (delete_many s p) ≡ next s
  pub find-create :
      (s : State) (x : Session) (j : ℕ)
      → find (create s x) j ≡ (if next s == j then some x else find s j)
  pub find-write :
      (s : State) (id j : ℕ) (f : Session → Session)
      → find (write s id f) j ≡ (if id == j then map_option f (find s j) else find s j)
  pub find-delete_many :
      (s : State) (p : ℕ → Session → Bool) (j : ℕ)
      → find (delete_many s p) j ≡ (if holds (p j) (find s j) then none else find s j)
  pub count-create :
      (s : State) (x : Session) (p : ℕ → Session → Bool)
      → count (create s x) p ≡ (if p (next s) x then 1 else 0) + count s p
  pub count-write :
      (s : State) (id : ℕ) (f : Session → Session) (p : ℕ → Session → Bool)
      → ((j : ℕ) (x : Session) → p j (f x) ≡ p j x)
      → count (write s id f) p ≡ count s p
  pub count-delete_many :
      (s : State) (q p : ℕ → Session → Bool) → count (delete_many s q) p ≤ count s p
  pub count-delete_one :
      (s : State) (id : ℕ) (x : Session) (p : ℕ → Session → Bool)
      → find s id ≡ some x
      → p id x ≡ true
      → count (delete_many s (λ j y. j == id)) p + 1 ≤ count s p
  pub count-le :
      (s : State) (p q : ℕ → Session → Bool)
      → ((j : ℕ) (x : Session) → p j x ≡ true → q j x ≡ true)
      → count s p ≤ count s q

-- `findUnique({ where: { id } })` on the users that are not deleted.
abbrev pub find_user : (users : Table User) → users.State → ℕ → Option User
find_user users s id = elim (users.find s id) [
  | none ↦ none
  | some u ↦ if u.is_deleted then none else some u
]

-- `update({ where: { id }, data: f })` on the users that are not deleted; `none` is P2025.
abbrev pub update_user : (users : Table User) → users.State → ℕ → (User → User) → Option users.State
update_user users s id f =
    if holds (λ u. not u.is_deleted) (users.find s id) then some (users.write s id f) else none

-- `value === given`, where the value may be null
abbrev pub equals_text : Option Text → Text → Bool
equals_text none t = false
equals_text (some s) t = text_beq s t

pub equals_text-some : (o : Option Text) (t : Text) → equals_text o t ≡ true → o ≡ some t
equals_text-some none t h = cc
equals_text-some (some s) t h = ap some ((text_beq_iff s t).0 h)

-- A condition that does not read the row is that on the id of a row that is there.
pub find-delete :
    (rows : SessionRows) (s : rows.State) (id j : ℕ)
    → rows.find (rows.delete_many s (λ k x. k == id)) j ≡ (if id == j then none else rows.find s j)
find-delete rows s id j =
    let law = rows.find-delete_many s (λ k x. k == id) j in
    elim (Option-cases (rows.find s j)) [
      | inl missing ↦ ground (arith, law, missing)
      | inr (x, there) ↦ ground (arith, law, there, ==_iff id j, ==_iff j id)
    ]

-- The sessions as the refresh uses them.
abbrev pub table_of : SessionRows → SessionTable
table_of rows = record {
  State = rows.State;
  find = rows.find;
  next = rows.next;
  create = rows.create;
  write = rows.write;
  delete = λ s id. rows.delete_many s (λ j x. j == id);
  delete_all = λ s user_id. rows.delete_many s (λ j x. x.user_id == user_id);
  find-next = rows.find-next;
  find-create = rows.find-create;
  find-write = rows.find-write;
  find-delete = find-delete rows;
  find-delete_all = λ s user_id j. rows.find-delete_many s (λ k x. x.user_id == user_id) j;
  next-delete = λ s id. rows.next-delete_many s (λ j x. j == id);
}
