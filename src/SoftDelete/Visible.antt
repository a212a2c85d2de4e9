-- ===== src/SoftDelete/Visible.antt =====
-- Which rows a rewritten query sees.
use ewu_taks.Base.{
  List, [], ◌∷◌, ◌++◌, Option, none, some, Bool, true, false, not, ◌&&◌, ◌||◌, all, ok, ℕ, ◌≡◌,
  refl, arith,
}
use ewu_taks.SoftDelete.{
  SoftRow, Reading, SoftWhere, Operation, IsDeleted, AndClause, unset, is_null, is_value,
  include_soft_deleted, is_filter, not_deleted, where_of, rewrite, strip_sentinel,
  inject_soft_delete_filter, inject_soft_delete_filter_via_and, and_clauses, matches, meets_clause,
  delete_where, find_first, find_first_or_throw, find_many, find_unique, find_unique_or_throw,
  count, aggregate, group_by, upsert, update, update_many,
}

-- `isDeleted: null` stays in the clause where the filter goes under `AND`.
abbrev pub keeps_null : Operation → Bool
keeps_null find_unique = true
keeps_null find_unique_or_throw = true
keeps_null upsert = true
keeps_null update = true
keeps_null _ = false

module _ {Columns Condition : Type 0} (reading : Reading Columns Condition) where
  open reading use {meets, meets_null}

  abbrev Row : Type 0
  Row = SoftRow Columns

  -- The conditions of a clause but for `isDeleted`.
  abbrev pub meets_rest : SoftWhere Condition → Row → Bool
  meets_rest w r =
      all (λ c. meets c r) w.rest && all (meets_clause reading r) (and_clauses w.and_value)

  -- The rows that a caller asks for with a value of `isDeleted`: the live ones by default.
  abbrev pub is_asked_for : Bool → IsDeleted Condition → Row → Bool
  is_asked_for null_stays unset r = not r.is_deleted
  is_asked_for null_stays is_null r = not r.is_deleted && (not null_stays || meets_null r)
  is_asked_for null_stays (is_value true) r = r.is_deleted
  is_asked_for null_stays (is_value false) r = not r.is_deleted
  is_asked_for null_stays include_soft_deleted r = true
  is_asked_for null_stays (is_filter c) r = meets c r

  all-append_one :
      (r : Row) (cs : List (AndClause Condition))
      → all (meets_clause reading r) (cs ++ not_deleted ∷ [])
        ≡ (all (meets_clause reading r) cs && not r.is_deleted)
  all-append_one r [] = ground arith
  all-append_one r (c ∷ cs) = ground (arith, all-append_one r cs)

  matches-inject :
      (args : Option (SoftWhere Condition)) (r : Row)
      → matches reading (inject_soft_delete_filter args) r
        ≡ (meets_rest (where_of args) r && is_asked_for false (where_of args).is_deleted r)
  unfolding inject_soft_delete_filter strip_sentinel
  matches-inject none r = refl
  matches-inject (some w) r = ground arith

  matches-inject_via_and :
      (args : Option (SoftWhere Condition)) (r : Row)
      → matches reading (inject_soft_delete_filter_via_and args) r
        ≡ (meets_rest (where_of args) r && is_asked_for true (where_of args).is_deleted r)
  unfolding inject_soft_delete_filter_via_and strip_sentinel
  matches-inject_via_and none r = ground arith
  matches-inject_via_and (some w) r = ground (arith, all-append_one r (and_clauses w.and_value))

  -- On a model with soft deletion every read and update sees the rows that meet the conditions of
  -- the caller and that it asks for: the live ones where `isDeleted` is not given, those with the
  -- value that is given, and both with the sentinel. With `isDeleted: null` these are live ones, and
  -- under the operations that add the filter under `AND` those that `null` finds as well.
  pub rewrite-visible :
      (operation : Operation) (args : Option (SoftWhere Condition)) (r : Row)
      → matches reading (where_of (rewrite true operation args)) r ≡ (
          meets_rest (where_of args) r
          && is_asked_for (keeps_null operation) (where_of args).is_deleted r)
  unfolding rewrite
  rewrite-visible find_first args r = matches-inject args r
  rewrite-visible find_first_or_throw args r = matches-inject args r
  rewrite-visible find_many args r = matches-inject args r
  rewrite-visible find_unique args r = matches-inject_via_and args r
  rewrite-visible find_unique_or_throw args r = matches-inject_via_and args r
  rewrite-visible count args r = matches-inject args r
  rewrite-visible aggregate args r = matches-inject args r
  rewrite-visible group_by args r = matches-inject args r
  rewrite-visible upsert args r = matches-inject_via_and args r
  rewrite-visible update args r = matches-inject_via_and args r
  rewrite-visible update_many args r = matches-inject args r

  -- The update that replaces a deletion, of one row or of many, reaches the database with
  -- `isDeleted: false` and the caller's value of `AND`: its own rewriting adds no clause.
  pub delete_where-no_clause :
      (args : Option (SoftWhere Condition)) (by : ℕ)
      → (delete_where update args (some by)
          ≡ ok (record (where_of args) { is_deleted = is_value false }))
        × (delete_where update_many args (some by)
            ≡ ok (record (where_of args) { is_deleted = is_value false }))
  unfolding delete_where rewrite inject_soft_delete_filter inject_soft_delete_filter_via_and
      strip_sentinel
  delete_where-no_clause args by = (refl, refl)
