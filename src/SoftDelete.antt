-- ===== src/SoftDelete.antt =====
-- libs/database/src/lib/extensions/soft-delete.extension.ts: how the extension rewrites the arguments
-- of a query, and the deletions, which become updates. `is_soft` says whether the model is one of
-- those with the three columns of a deletion.
pub mod Visible
pub mod Hiding
use ewu_taks.Base.{
  ℕ, List, [], ◌∷◌, ◌++◌, map, Option, none, some, Bool, true, false, not, ◌&&◌, if◌then◌else◌, all,
  filter, get_or, Result, ok, err, ◌>>=◌, ◌≡◌,
}

-- The value of `isDeleted` in a `where` clause: none, null, a Boolean, the sentinel
-- INCLUDE_SOFT_DELETED, or another filter.
pub data IsDeleted (Condition : Type 0) : Type 0 where
  unset is_null : IsDeleted Condition
  is_value : Bool → IsDeleted Condition
  include_soft_deleted : IsDeleted Condition
  is_filter : Condition → IsDeleted Condition

-- A clause under `AND`: one of the caller's, or `{ isDeleted: false }`.
pub data AndClause (Condition : Type 0) : Type 0 where
  given : Condition → AndClause Condition
  not_deleted : AndClause Condition

-- The value of `AND`: none, a single object or a list.
pub data AndValue (Condition : Type 0) : Type 0 where
  no_and : AndValue Condition
  one_and : AndClause Condition → AndValue Condition
  and_list : List (AndClause Condition) → AndValue Condition

pub record SoftWhere (Condition : Type 0) : Type 0 where
  pub is_deleted : IsDeleted Condition
  pub and_value : AndValue Condition
  pub rest : List Condition

pub data Operation : Type 0 where
  find_first find_first_or_throw find_many find_unique find_unique_or_throw count : Operation
  aggregate group_by upsert update update_many : Operation

pub data DeletionError : Type 0 where
  requires_deleted_by : DeletionError

module _ {Condition : Type 0} where
  abbrev pub empty_where : SoftWhere Condition
  empty_where = record { is_deleted = unset; and_value = no_and; rest = [] }

  -- `args.where ?? {}`
  abbrev pub where_of : Option (SoftWhere Condition) → SoftWhere Condition
  where_of none = empty_where
  where_of (some w) = w

  unfoldable pub strip_sentinel : SoftWhere Condition → SoftWhere Condition
  strip_sentinel w = elim w.is_deleted [
    | include_soft_deleted ↦ record w { is_deleted = unset }
    | _ ↦ w
  ]

  abbrev pub has_explicit : IsDeleted Condition → Bool
  has_explicit unset = false
  has_explicit is_null = false
  has_explicit (is_value b) = true
  has_explicit include_soft_deleted = true
  has_explicit (is_filter c) = true

  unfoldable pub inject_soft_delete_filter : Option (SoftWhere Condition) → SoftWhere Condition
  unfolding strip_sentinel
  inject_soft_delete_filter args =
      let w = where_of args in
      if has_explicit w.is_deleted
      then strip_sentinel w
      else record w { is_deleted = is_value false }

  abbrev pub and_clauses : AndValue Condition → List (AndClause Condition)
  and_clauses no_and = []
  and_clauses (one_and c) = c ∷ []
  and_clauses (and_list cs) = cs

  unfoldable pub inject_soft_delete_filter_via_and :
      Option (SoftWhere Condition) → SoftWhere Condition
  unfolding strip_sentinel
  inject_soft_delete_filter_via_and args =
      let w = where_of args in
      if has_explicit w.is_deleted
      then strip_sentinel w
      else record w { and_value = and_list (and_clauses w.and_value ++ not_deleted ∷ []) }

  -- The handlers of `buildSoftDeleteQueryConfig` but for the deletions.
  unfoldable pub rewrite :
      Bool → Operation → Option (SoftWhere Condition) → Option (SoftWhere Condition)
  unfolding inject_soft_delete_filter inject_soft_delete_filter_via_and
  rewrite is_soft operation args = if not is_soft then args else elim operation [
    | find_first ↦ some (inject_soft_delete_filter args)
    | find_first_or_throw ↦ some (inject_soft_delete_filter args)
    | find_many ↦ some (inject_soft_delete_filter args)
    | find_unique ↦ some (inject_soft_delete_filter_via_and args)
    | find_unique_or_throw ↦ some (inject_soft_delete_filter_via_and args)
    | count ↦ some (inject_soft_delete_filter args)
    | aggregate ↦ some (inject_soft_delete_filter args)
    | group_by ↦ some (inject_soft_delete_filter args)
    | upsert ↦ some (inject_soft_delete_filter_via_and args)
    | update ↦ some (inject_soft_delete_filter_via_and args)
    | update_many ↦ some (inject_soft_delete_filter args)
  ]

module _ {Condition : Type 0} where
  -- The clause of `delete` and `deleteMany` as it reaches the database: that of the update that
  -- replaces the deletion, rewritten in its turn.
  unfoldable pub delete_where :
      Operation
      → Option (SoftWhere Condition)
      → Option ℕ
      → Result DeletionError (SoftWhere Condition)
  delete_where replaced_by args none = err requires_deleted_by
  delete_where replaced_by args (some by) = ok (
      where_of
        (rewrite true replaced_by (some (record (where_of args) { is_deleted = is_value false }))))

-- A row of a model with soft deletion: the three columns of a deletion, and the others.
pub record SoftRow (Columns : Type 0) : Type 0 where
  pub is_deleted : Bool
  pub deleted_at : Option ℕ
  pub deleted_by : Option ℕ
  pub columns : Columns

-- The update with the data that replaces a deletion.
abbrev pub mark_deleted : {Columns : Type 0} → ℕ → ℕ → SoftRow Columns → SoftRow Columns
mark_deleted by now r = record r { is_deleted = true; deleted_at = some now; deleted_by = some by }

-- How the database reads a clause: whether a row meets a condition, and whether it is found by
-- `isDeleted: null`.
pub record Reading (Columns Condition : Type 0) : Type 0 where
  pub meets : Condition → SoftRow Columns → Bool
  pub meets_null : SoftRow Columns → Bool

module _ {Columns Condition : Type 0} (reading : Reading Columns Condition) where
  open reading use {meets, meets_null}

  abbrev pub Row : Type 0
  Row = SoftRow Columns

  abbrev pub meets_deleted : IsDeleted Condition → Row → Bool
  meets_deleted unset r = true
  meets_deleted is_null r = meets_null r
  meets_deleted (is_value true) r = r.is_deleted
  meets_deleted (is_value false) r = not r.is_deleted
  meets_deleted include_soft_deleted r = true
  meets_deleted (is_filter c) r = meets c r

  abbrev pub meets_clause : Row → AndClause Condition → Bool
  meets_clause r (given c) = meets c r
  meets_clause r not_deleted = not r.is_deleted

  -- Whether a row meets a clause as the database reads it.
  abbrev pub matches : SoftWhere Condition → Row → Bool
  matches w r =
      all (λ c. meets c r) w.rest
      && all (meets_clause r) (and_clauses w.and_value)
      && meets_deleted w.is_deleted r

  -- `findMany` through the extension
  unfoldable pub find_rows : List Row → Option (SoftWhere Condition) → List Row
  find_rows table args = filter (matches (where_of (rewrite true find_many args))) table

  -- `deleteMany` through the extension
  unfoldable pub delete_rows :
      List Row → Option (SoftWhere Condition) → Option ℕ → ℕ → Result DeletionError (List Row)
  delete_rows table args deleted_by now = delete_where update_many args deleted_by >>= λ w.
      ok (map (λ r. if matches w r then mark_deleted (get_or deleted_by 0) now r else r) table)
