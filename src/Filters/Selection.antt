-- ===== src/Filters/Selection.antt =====
-- The clause of a whole query selects what the query asks for.
use ewu_taks.Base.{List, Bool, text_eq, Eq, all}
use ewu_taks.Filters.Terms.{Builtins, Clause}
use ewu_taks.Filters.Meaning.{Cases, meets_clause}
use ewu_taks.Filters.Columns.{Columns}

module _ {Num Date : Type 0} ⦃e : Eq Num⦄ (cases : Cases Num Date) (columns : Columns cases)
    (builtins : Builtins Num Date) where
  open cases use {Case, meets, assigned}
  open columns use {text_of, number_at, date_at, numbers, dates, meets_text}

  abbrev meets_each : Case → List (Clause Num Date) → Bool
  meets_each c clauses = all (meets_clause cases c) clauses
