-- ===== src/Domain/Delegates.antt =====
-- The Prisma delegates as interfaces: a table with a numeric id, and rows that belong to a user.
use ewu_taks.Base.{
  ℕ, List, Option, none, some, Bool, false, not, ◌||◌, ◌&&◌, ◌==◌, if◌then◌else◌, ◌≡◌, contains,
  nat_eq,
}

abbrev pub map_option : {A B : Type 0} → (A → B) → Option A → Option B
map_option f none = none
map_option f (some a) = some (f a)

-- Whether a row is there and meets the condition of a `where` clause.
abbrev pub holds : {A : Type 0} → (A → Bool) → Option A → Bool
holds p none = false
holds p (some a) = p a

-- A table whose rows are found and written by their id.
pub record Table (Row : Type 0) : Type 1 where
  pub State : Type 0
  pub find : State → ℕ → Option Row
  pub write : State → ℕ → (Row → Row) → State
  pub find-write :
      (s : State) (id j : ℕ) (f : Row → Row)
      → find (write s id f) j ≡ (if id == j then map_option f (find s j) else find s j)

-- The rows of a table that belong to users: their number, and `deleteMany({ where: { userId } })`.
pub record Owned : Type 1 where
  pub State : Type 0
  pub count : State → ℕ → ℕ
  pub delete_all : State → ℕ → State
  pub count-delete_all :
      (s : State) (user_id j : ℕ)
      → count (delete_all s user_id) j ≡ (if user_id == j then 0 else count s j)

-- The links between users and roles. Which roles a user has does not depend on their order.
pub record Links : Type 1 where
  pub State : Type 0
  pub roles_of : State → ℕ → List ℕ
  pub delete_many : State → ℕ → List ℕ → State
  pub create_many : State → ℕ → List ℕ → State
  pub contains-delete_many :
      (s : State) (user_id j : ℕ) (ids : List ℕ) (r : ℕ)
      → contains (roles_of (delete_many s user_id ids) j) r
        ≡ (contains (roles_of s j) r && not (user_id == j && contains ids r))
  pub contains-create_many :
      (s : State) (user_id j : ℕ) (ids : List ℕ) (r : ℕ)
      → contains (roles_of (create_many s user_id ids) j) r
        ≡ (contains (roles_of s j) r || (user_id == j && contains ids r))
