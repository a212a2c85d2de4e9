-- ===== src/Guards.antt =====
-- The guards of libs/auth/src/lib/guards: what they read of a request, and the answers that a
-- guard gives. Metadata of a route is an argument; `none` is metadata that is not set.
pub mod Access
pub mod Permissions
pub mod Hierarchy
pub mod Scope
pub mod JwtAuth
use ewu_taks.Base.{ℕ, List, Option, none, some, Bool, true, false, Text, ◌==◌}

-- A guard returns true, or throws: `ForbiddenException`, `UnauthorizedException`, or a plain
-- `Error`, which the framework answers as an internal error.
pub data Verdict : Type 0 where
  allowed forbidden unauthorized crashed : Verdict

pub record UserRole : Type 0 where
  pub id : ℕ
  pub name : Text

-- `request.user`
pub record UserContext : Type 0 where
  pub user_id : ℕ
  pub roles : List UserRole
  pub effective_role_level : ℕ

-- `Number(request.params[...])`: not a number, the number of a row, or some other number, which is
-- the id of no row.
pub data IdParam : Type 0 where
  nan other_number : IdParam
  number : ℕ → IdParam

-- `user.userId === targetId`
abbrev pub is_id : ℕ → IdParam → Bool
is_id user_id nan = false
is_id user_id other_number = false
is_id user_id (number n) = user_id == n
