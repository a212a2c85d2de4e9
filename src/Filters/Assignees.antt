-- ===== src/Filters/Assignees.antt =====
-- The conditions on the assignees of a case: the operators on all and on any of a list of ids, and
-- those that come without an id.
use ewu_taks.Base.{
  List, [], ◌∷◌, ◌++◌, Option, some, Bool, true, false, not, ◌&&◌, ◌||◌, ◌≡◌, refl, ap, ◌∙◌, sym,
  arith, Eq, contains, is_empty, any, all, Bool-cases, map,
}
use mathlib.Core.Path.{fun_ext}
use ewu_taks.Filters.Terms.{
  FilterCondition, FilterOperator, Scalar, Value, Builtins, assignee_ids, some_assignee_is,
  none_assignee_is, some_assignee_in, contains_any, contains_all, not_contains_any,
  not_contains_all,
}
use ewu_taks.Filters.Build.{
  unique, unique_from, all_values, to_number_array, build_condition, build_assignee_condition,
}
use ewu_taks.Filters.Query.{CasesQuery, build_case_where, build_legacy_where}
use ewu_taks.Filters.Meaning.{
  Cases, selects, meets_condition, meets_clause, build_case_where-joined,
}

module _ {Num : Type 0} ⦃e : Eq Num⦄ where
  contains-unique_from :
      (seen ids : List Num) (k : Num)
      → (contains (unique_from seen ids) k || contains seen k) ≡ (contains ids k || contains seen k)
  contains-unique_from seen [] k = refl
  contains-unique_from seen (id ∷ ids) k = ground (
    arith,
    contains-unique_from seen ids k,
    contains-unique_from (id ∷ seen) ids k,
    e.beq_iff id k,
    Bool-cases (contains seen id),
  )

  all-contained :
      (p : Num → Bool) (seen : List Num) (k : Num)
      → contains seen k ≡ true
      → all p seen ≡ true
      → p k ≡ true
  all-contained p [] k there held = cc
  all-contained p (id ∷ seen) k there held = ground (arith, all-contained p seen k, e.beq_iff id k)

  all-unique_from :
      (p : Num → Bool) (seen ids : List Num)
      → (all p (unique_from seen ids) && all p seen) ≡ (all p ids && all p seen)
  all-unique_from p seen [] = refl
  all-unique_from p seen (id ∷ ids) = ground (
    arith,
    all-unique_from p seen ids,
    all-unique_from p (id ∷ seen) ids,
    all-contained p seen id,
    Bool-cases (contains seen id),
  )

  pub contains-unique : (ids : List Num) (k : Num) → contains (unique ids) k ≡ contains ids k
  contains-unique ids k = ground (arith, contains-unique_from [] ids k)

  pub all-unique : (p : Num → Bool) (ids : List Num) → all p (unique ids) ≡ all p ids
  all-unique p ids = ground (arith, all-unique_from p [] ids)

module _ {Num Date : Type 0} ⦃e : Eq Num⦄ (cases : Cases Num Date)
    (builtins : Builtins Num Date) where
  open cases use {Case, meets, assigned}

  -- A condition on the assignees.
  abbrev pub on_assignees :
      FilterOperator → Value Num Date → Option (List (Scalar Num Date)) → FilterCondition Num Date
  on_assignees op value values = record {
    field = assignee_ids;
    operator = op;
    value = value;
    values = values;
  }

  pub all-map_some_is :
      (c : Case) (ids : List Num)
      → all (meets c) (map (λ id. some_assignee_is id) ids) ≡ all (contains (assigned c)) ids
  all-map_some_is c [] = refl
  all-map_some_is c (id ∷ ids) = ground (arith, cases.meets-some_is c id, all-map_some_is c ids)

  pub any-map_none_is :
      (c : Case) (ids : List Num)
      → any (meets c) (map (λ id. none_assignee_is id) ids) ≡ not (all (contains (assigned c)) ids)
  any-map_none_is c [] = refl
  any-map_none_is c (id ∷ ids) = ground (arith, cases.meets-none_is c id, any-map_none_is c ids)

  pub unique-nonempty : (ids : List Num) → is_empty ids ≡ false → is_empty (unique ids) ≡ false
  unique-nonempty [] h = h
  unique-nonempty (id ∷ ids) h = refl

  unique-empty : (ids : List Num) → is_empty ids ≡ true → is_empty (unique ids) ≡ true
  unique-empty [] h = h
  unique-empty (id ∷ ids) h = cc

  -- With at least one id among the values, repeated or not: `containsAll` selects the cases to which
  -- each of the ids is assigned and `notContainsAll` the others, `containsAny` those to which one of
  -- the ids is assigned and `notContainsAny` the others.
  pub meets_condition-assignees :
      (c : Case) (value : Value Num Date) (values : Option (List (Scalar Num Date)))
      → is_empty (to_number_array builtins (all_values builtins value values)) ≡ false
      → let ids = to_number_array builtins (all_values builtins value values) in
        let meets_op = λ (op : FilterOperator).
          meets_condition cases builtins c (on_assignees op value values) in
        (meets_op contains_all ≡ all (contains (assigned c)) ids)
        × (meets_op not_contains_all ≡ not (all (contains (assigned c)) ids))
        × (meets_op contains_any ≡ any (contains ids) (assigned c))
        × (meets_op not_contains_any ≡ not (any (contains ids) (assigned c)))
  unfolding build_condition build_assignee_condition
  meets_condition-assignees c value values given =
      let ids = to_number_array builtins (all_values builtins value values) in
      let left : is_empty (unique ids) ≡ false = unique-nonempty ids given in
      let same : contains (unique ids) ≡ contains ids = fun_ext (contains-unique ids) in
      let some_in : meets c (some_assignee_in (unique ids)) ≡ any (contains ids) (assigned c) =
        cases.meets-some_in c (unique ids) ∙ ap (λ (p : Num → Bool). any p (assigned c)) same in
      (
        ground
            (arith, left, all-map_some_is c (unique ids), all-unique (contains (assigned c)) ids),
        ground
            (arith, left, any-map_none_is c (unique ids), all-unique (contains (assigned c)) ids),
        ground (arith, left, some_in),
        ground (
          arith,
          left,
          cases.meets-none_in c (unique ids),
          cases.meets-some_in c (unique ids),
          some_in,
        ),
      )

  all-dropped :
      (p : FilterCondition Num Date → Bool) (before after : List (FilterCondition Num Date))
      → (f : FilterCondition Num Date) → p f ≡ true
      → all p (before ++ f ∷ after) ≡ all p (before ++ after)
  all-dropped p [] after f h = ground arith
  all-dropped p (x ∷ before) after f h = ground (arith, all-dropped p before after f h)

  meets_condition-no_ids :
      (c : Case) (op : FilterOperator) (value : Value Num Date)
      → (values : Option (List (Scalar Num Date)))
      → is_empty (to_number_array builtins (all_values builtins value values)) ≡ true
      → meets_condition cases builtins c (on_assignees op value values) ≡ true
  unfolding build_condition build_assignee_condition
  meets_condition-no_ids c op value values missing =
      rw (unique-empty (to_number_array builtins (all_values builtins value values)) missing) refl

  -- A condition on the assignees that comes with no id, `exists` and `notExists` included, is
  -- ignored: the query selects the same cases as without it, those with and those without assignees.
  pub build_case_where-no_ids :
      (c : Case) (query : CasesQuery Num Date) (before after : List (FilterCondition Num Date))
      → (op : FilterOperator) (value : Value Num Date) (values : Option (List (Scalar Num Date)))
      → is_empty (to_number_array builtins (all_values builtins value values)) ≡ true
      → selects cases
          (build_case_where builtins
            (record query { filters = some (before ++ on_assignees op value values ∷ after) }))
          c
        ≡ selects cases
            (build_case_where builtins (record query { filters = some (before ++ after) }))
            c
  unfolding build_legacy_where
  build_case_where-no_ids c query before after op value values missing =
      let with_it = record query {
        filters = some (before ++ on_assignees op value values ∷ after);
      } in
      let without_it = record query { filters = some (before ++ after) } in
      let fixed = build_legacy_where builtins query in
      build_case_where-joined cases builtins with_it c
      ∙ ap (λ (b : Bool). all (meets_clause cases c) fixed && b)
          (all-dropped (meets_condition cases builtins c) before after
            (on_assignees op value values) (meets_condition-no_ids c op value values missing))
      ∙ sym (build_case_where-joined cases builtins without_it c)
