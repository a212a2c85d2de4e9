-- ===== src/SoftDelete/Hiding.antt =====
-- A soft delete removes the rows from what queries see.
use ewu_taks.Base.{
  ℕ, ◌+◌, ◌==◌, ==_iff, nat_eq, List, [], ◌∷◌, map, some, Bool, true, false, not, ◌&&◌,
  if◌then◌else◌, filter, length, Result, ok, ◌>>=◌, ◌≡◌, refl, ap, ◌∙◌, arith,
}
use mathlib.Core.Path.{fun_ext}
use ewu_taks.Domain.{holds}
use ewu_taks.SoftDelete.{
  SoftRow, Reading, SoftWhere, IsDeleted, DeletionError, find_many, unset, is_value, where_of,
  rewrite, mark_deleted, matches, find_rows, delete_rows,
}
use ewu_taks.SoftDelete.Visible.{meets_rest, is_asked_for, rewrite-visible, delete_where-no_clause}

module _ {Columns Condition : Type 0} (reading : Reading Columns Condition) where
  abbrev Row : Type 0
  Row = SoftRow Columns

  abbrev deleted : Row → Bool
  deleted r = r.is_deleted

  -- The abstract table: its live rows.
  abbrev pub live : List Row → List Row
  live table = filter (λ r. not r.is_deleted) table

  filter-both :
      (p q : Row → Bool) (table : List Row)
      → filter (λ r. p r && not (q r)) table ≡ filter p (filter (λ r. not (q r)) table)
  filter-both p q [] = refl
  filter-both p q (r ∷ table) = ground (arith, filter-both p q table)

  live-marked :
      (p : Row → Bool) (by now : ℕ) (table : List Row)
      → live (map (λ r. if p r && not r.is_deleted then mark_deleted by now r else r) table)
        ≡ filter (λ r. not (p r)) (live table)
  live-marked p by now [] = refl
  live-marked p by now (r ∷ table) = ground (arith, live-marked p by now table)

  length-map_rows : (f : Row → Row) (table : List Row) → length (map f table) ≡ length table
  length-map_rows f [] = refl
  length-map_rows f (r ∷ table) = ground (arith, length-map_rows f table)

  -- A row that was deleted by an author at a time.
  abbrev pub is_marked : ℕ → ℕ → Row → Bool
  is_marked by now r =
      r.is_deleted && holds (λ x. x == by) r.deleted_by && holds (λ x. x == now) r.deleted_at

  length-marked :
      (p : Row → Bool) (by now : ℕ) (table : List Row)
      → length (
          filter
            (is_marked by now)
            (map (λ r. if p r && not r.is_deleted then mark_deleted by now r else r) table))
        ≡ length (filter (is_marked by now) table) + length (filter p (live table))
  length-marked p by now [] = refl
  length-marked p by now (r ∷ table) =
      ground (arith, length-marked p by now table, ==_iff by by, ==_iff now now)

  matches-default :
      (args : SoftWhere Condition)
      → args.is_deleted ≡ unset
      → (r : Row)
      → matches reading (where_of (rewrite true find_many (some args))) r
        ≡ (meets_rest reading args r && not r.is_deleted)
  matches-default args default r =
      rewrite-visible reading find_many (some args) r
      ∙ ap
          (λ (d : IsDeleted Condition). meets_rest reading args r && is_asked_for reading false d r)
          default

  matches-live :
      (args : SoftWhere Condition) (r : Row)
      → matches reading (record args { is_deleted = is_value false }) r
        ≡ (meets_rest reading args r && not r.is_deleted)
  matches-live args r = ground arith

  -- The soft deletion refines a deletion from the table of live rows. For arguments whose
  -- `isDeleted` is not given, a read returns the live rows that meet the conditions; a deletion with
  -- an author leaves as live rows those that do not meet the conditions and keeps the number of rows;
  -- the number of rows deleted by its author at its time grows by that of the live rows that meet
  -- the conditions.
  pub delete_rows-refines :
      (table : List Row) (args : SoftWhere Condition) (by now : ℕ)
      → args.is_deleted ≡ unset
      → (find_rows reading table (some args) ≡ filter (meets_rest reading args) (live table))
        × (table' : List Row) × (delete_rows reading table (some args) (some by) now ≡ ok table')
        × (live table' ≡ filter (λ r. not (meets_rest reading args r)) (live table))
        × (length table' ≡ length table)
        × (length (filter (is_marked by now) table')
            ≡ length (filter (is_marked by now) table)
              + length (filter (meets_rest reading args) (live table)))
  unfolding find_rows delete_rows
  delete_rows-refines table args by now default =
      let p = meets_rest reading args in
      let read : matches reading (where_of (rewrite true find_many (some args)))
          ≡ (λ r. p r && not r.is_deleted) =
        fun_ext (matches-default args default) in
      let dropped = fun_ext (matches-live args) in
      let step = λ (r : Result DeletionError (SoftWhere Condition)).
        r >>= λ w. ok (map (λ x. if matches reading w x then mark_deleted by now x else x) table) in
      let mark = λ (q : Row → Bool). map (λ r. if q r then mark_deleted by now r else r) table in
      (
        ap (λ (q : Row → Bool). filter q table) read ∙ filter-both p deleted table,
        mark (λ r. p r && not r.is_deleted),
        ap step (delete_where-no_clause reading (some args) by).1 ∙ ap (λ q. ok (mark q)) dropped,
        live-marked p by now table,
        length-map_rows (λ r. if p r && not r.is_deleted then mark_deleted by now r else r) table,
        length-marked p by now table,
      )
