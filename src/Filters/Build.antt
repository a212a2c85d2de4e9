-- ===== src/Filters/Build.antt =====
-- FilterQueryBuilderService of filter-query-builder.service.ts: the clause of one condition.
use ewu_taks.Base.{
  List, [], ◌∷◌, Option, none, some, if◌then◌else◌, Text, text_eq, Eq, contains, is_empty, map,
}
use ewu_taks.Filters.Terms
use ewu_taks.Filters.Terms.{
  FilterOperator, CaseFilterField, Scalar, Value, FilterCondition, Builtins, Leaf, Clause, TextTest,
  text, number, date, other, single, array, equals, not_equals, starts_with, ends_with, in_list,
  not_in, greater_than, greater_than_or_equal, less_than, less_than_or_equal, between, not_between,
  is_not_empty, exists, not_exists, contains_any, contains_all, not_contains_any, not_contains_all,
  subject_name, age, incident_type, incident_date, case_summary, address_911, call_time_911, state,
  city, zip, arrest_date, stage_id, due_date, case_priority, case_source, priority, created_at,
  updated_at, assignee_ids, text_equals, text_not, text_contains, text_starts_with, text_ends_with,
  equal_to, differs_from, gt, gte, lt, lte, within, not_within, gte_lte, text_test, is_null,
  is_not_null, is_blank, is_not_blank, number_test, date_test, text_in, text_not_in, some_assignee,
  none_assignee, some_assignee_in, none_assignee_in, some_assignee_is, none_assignee_is, leaf,
  any_of, all_of,
}

-- `a ?? b` on values that may be `undefined`
abbrev pub or_else : {A : Type 0} → Option A → Option A → Option A
or_else none b = b
or_else (some a) b = some a

-- `xs.map(f).filter((x) => x != null)`
abbrev pub map_some : {A B : Type 0} → (A → Option B) → List A → List B
map_some f [] = []
map_some f (x ∷ xs) = let rest = map_some f xs in elim (f x) [ none ↦ rest | some y ↦ y ∷ rest ]

-- `[...new Set(xs)]`: the first occurrence of each.
abbrev pub unique_from : {A : Type 0} → ⦃e : Eq A⦄ → List A → List A → List A
unique_from seen [] = []
unique_from seen (x ∷ xs) =
    let rest = unique_from (x ∷ seen) xs in
    let skipped = unique_from seen xs in if contains seen x then skipped else x ∷ rest

abbrev pub unique : {A : Type 0} → ⦃e : Eq A⦄ → List A → List A
unique xs = unique_from [] xs

module _ {Num Date : Type 0} ⦃e : Eq Num⦄ (builtins : Builtins Num Date) where
  open builtins use {trim, number_of, date_of, date_of_number}

  abbrev pub nonempty : Text → Option Text
  nonempty [] = none
  nonempty (c ∷ cs) = some (c ∷ cs)

  abbrev pub to_trimmed_string : Scalar Num Date → Option Text
  to_trimmed_string (text t) = nonempty (trim t)
  to_trimmed_string (number n) = none
  to_trimmed_string (date d) = none
  to_trimmed_string other = none

  -- `typeof value === 'string'` and the like fail on an array.
  abbrev pub scalar_of : Value Num Date → Scalar Num Date
  scalar_of (single v) = v
  scalar_of (array vs) = other

  -- `filter.values?.[0]`
  abbrev pub first_value : FilterCondition Num Date → Scalar Num Date
  first_value f = elim f.values [ none ↦ other | some [] ↦ other | some (v ∷ vs) ↦ v ]

  -- `filter.values ?? filter.value`
  abbrev pub all_values : Value Num Date → Option (List (Scalar Num Date)) → Value Num Date
  all_values value none = value
  all_values value (some vs) = array vs

  abbrev pub to_string_array : Value Num Date → List Text
  to_string_array (single v) = elim (to_trimmed_string v) [ none ↦ [] | some t ↦ t ∷ [] ]
  to_string_array (array vs) = map_some to_trimmed_string vs

  abbrev pub to_number : Scalar Num Date → Option Num
  to_number (text t) = elim (nonempty (trim t)) [ none ↦ none | some s ↦ number_of s ]
  to_number (number n) = some n
  to_number (date d) = none
  to_number other = none

  abbrev pub to_number_array : Value Num Date → List Num
  to_number_array (single v) = map_some to_number (v ∷ [])
  to_number_array (array vs) = map_some to_number vs

  abbrev pub to_date : Scalar Num Date → Option Date
  to_date (text t) = date_of t
  to_date (number n) = date_of_number n
  to_date (date d) = some d
  to_date other = none

  abbrev pub to_date_array : Value Num Date → List Date
  to_date_array (single v) = map_some to_date (v ∷ [])
  to_date_array (array vs) = map_some to_date vs

  -- The clause of a value that is there.
  abbrev pub with_value : {A : Type 0} → (A → Clause Num Date) → Option A → Option (Clause Num Date)
  with_value f none = none
  with_value f (some a) = some (f a)

  abbrev pub with_values :
      {A : Type 0} → (List A → Clause Num Date) → List A → Option (Clause Num Date)
  with_values f [] = none
  with_values f (a ∷ rest) = some (f (a ∷ rest))

  abbrev pub with_two : {A : Type 0} → (A → A → Clause Num Date) → List A → Option (Clause Num Date)
  with_two f [] = none
  with_two f (a ∷ []) = none
  with_two f (a ∷ b ∷ rest) = some (f a b)

  unfoldable pub build_string_condition :
      CaseFilterField → FilterCondition Num Date → Option (Clause Num Date)
  build_string_condition field f =
      let value =
        or_else (to_trimmed_string (scalar_of f.value)) (to_trimmed_string (first_value f)) in
      let test = λ (t : Text → TextTest). with_value (λ v. leaf (text_test field (t v))) value in
      elim f.operator [
        | equals ↦ test text_equals
        | not_equals ↦ test text_not
        | Terms.contains ↦ test text_contains
        | starts_with ↦ test text_starts_with
        | ends_with ↦ test text_ends_with
        | Terms.is_empty ↦ some (any_of (is_null field ∷ is_blank field ∷ []))
        | is_not_empty ↦ some (all_of (is_not_null field ∷ is_not_blank field ∷ []))
        | _ ↦ none
      ]

  -- the same text as the function above
  unfoldable pub build_nullable_string_condition :
      CaseFilterField → FilterCondition Num Date → Option (Clause Num Date)
  unfolding build_string_condition
  build_nullable_string_condition field f = build_string_condition field f

  unfoldable pub build_number_condition :
      CaseFilterField → FilterCondition Num Date → Option (Clause Num Date)
  build_number_condition field f =
      let numeric_value = or_else (to_number (scalar_of f.value)) (to_number (first_value f)) in
      let numeric_values = to_number_array (all_values f.value f.values) in
      elim f.operator [
        | equals ↦ with_value (λ v. leaf (number_test field (equal_to v))) numeric_value
        | not_equals ↦ with_value (λ v. leaf (number_test field (differs_from v))) numeric_value
        | greater_than ↦ with_value (λ v. leaf (number_test field (gt v))) numeric_value
        | greater_than_or_equal ↦ with_value (λ v. leaf (number_test field (gte v))) numeric_value
        | less_than ↦ with_value (λ v. leaf (number_test field (lt v))) numeric_value
        | less_than_or_equal ↦ with_value (λ v. leaf (number_test field (lte v))) numeric_value
        | in_list ↦ with_values (λ vs. leaf (number_test field (within vs))) numeric_values
        | not_in ↦ with_values (λ vs. leaf (number_test field (not_within vs))) numeric_values
        | between ↦ with_two (λ a b. leaf (number_test field (gte_lte a b))) numeric_values
        | not_between ↦
            with_two (λ a b. any_of (number_test field (lt a) ∷ number_test field (gt b) ∷ []))
              numeric_values
        | _ ↦ none
      ]

  unfoldable pub build_date_condition :
      CaseFilterField → FilterCondition Num Date → Option (Clause Num Date)
  build_date_condition field f =
      let date_value = or_else (to_date (scalar_of f.value)) (to_date (first_value f)) in
      let date_values = to_date_array (all_values f.value f.values) in
      elim f.operator [
        | equals ↦ with_value (λ v. leaf (date_test field (equal_to v))) date_value
        | not_equals ↦ with_value (λ v. leaf (date_test field (differs_from v))) date_value
        | greater_than ↦ with_value (λ v. leaf (date_test field (gt v))) date_value
        | greater_than_or_equal ↦ with_value (λ v. leaf (date_test field (gte v))) date_value
        | less_than ↦ with_value (λ v. leaf (date_test field (lt v))) date_value
        | less_than_or_equal ↦ with_value (λ v. leaf (date_test field (lte v))) date_value
        | between ↦ with_two (λ a b. leaf (date_test field (gte_lte a b))) date_values
        | not_between ↦
            with_two (λ a b. any_of (date_test field (lt a) ∷ date_test field (gt b) ∷ []))
              date_values
        | Terms.is_empty ↦ some (leaf (is_null field))
        | is_not_empty ↦ some (leaf (is_not_null field))
        | _ ↦ none
      ]

  unfoldable pub build_enum_array_condition :
      CaseFilterField → FilterCondition Num Date → Option (Clause Num Date)
  build_enum_array_condition field f =
      let values = to_string_array (all_values f.value f.values) in
      let excluded = some (leaf (text_not_in field (unique values))) in
      let included = some (leaf (text_in field (unique values))) in
      if is_empty values then none else elim f.operator [
        | not_equals ↦ excluded
        | not_in ↦ excluded
        | not_contains_any ↦ excluded
        | not_contains_all ↦ excluded
        | equals ↦ included
        | in_list ↦ included
        | Terms.contains ↦ included
        | contains_any ↦ included
        | contains_all ↦ included
        | _ ↦ none
      ]

  unfoldable pub build_assignee_condition : FilterCondition Num Date → Option (Clause Num Date)
  build_assignee_condition f =
      let values = unique (to_number_array (all_values f.value f.values)) in
      if is_empty values then none else elim f.operator [
        | exists ↦ some (leaf some_assignee)
        | not_exists ↦ some (leaf none_assignee)
        | equals ↦ some (leaf (some_assignee_in values))
        | in_list ↦ some (leaf (some_assignee_in values))
        | contains_any ↦ some (leaf (some_assignee_in values))
        | not_in ↦ some (leaf (none_assignee_in values))
        | not_equals ↦ some (leaf (none_assignee_in values))
        | not_contains_any ↦ some (leaf (none_assignee_in values))
        | contains_all ↦ some (all_of (map (λ id. some_assignee_is id) values))
        | not_contains_all ↦ some (any_of (map (λ id. none_assignee_is id) values))
        | _ ↦ none
      ]

  unfoldable pub build_condition : FilterCondition Num Date → Option (Clause Num Date)
  unfolding build_string_condition build_nullable_string_condition build_number_condition
      build_date_condition build_enum_array_condition build_assignee_condition
  build_condition f = elim f.field [
    | subject_name ↦ build_string_condition subject_name f
    | case_summary ↦ build_nullable_string_condition case_summary f
    | incident_type ↦ build_string_condition incident_type f
    | address_911 ↦ build_nullable_string_condition address_911 f
    | call_time_911 ↦ build_nullable_string_condition call_time_911 f
    | state ↦ build_string_condition state f
    | city ↦ build_string_condition city f
    | zip ↦ build_nullable_string_condition zip f
    | age ↦ build_number_condition age f
    | stage_id ↦ build_number_condition stage_id f
    | due_date ↦ build_date_condition due_date f
    | incident_date ↦ build_date_condition incident_date f
    | arrest_date ↦ build_date_condition arrest_date f
    | created_at ↦ build_date_condition created_at f
    | updated_at ↦ build_date_condition updated_at f
    | case_priority ↦ build_string_condition case_priority f
    | case_source ↦ build_enum_array_condition case_source f
    | priority ↦ build_enum_array_condition priority f
    | assignee_ids ↦ build_assignee_condition f
  ]
