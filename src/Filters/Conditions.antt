-- ===== src/Filters/Conditions.antt =====
-- The clause of each condition selects the cases that the condition asks for.
use ewu_taks.Base.{
  List, [], ◌∷◌, Option, none, some, Bool, true, not, ◌&&◌, ◌||◌, Text, text_eq, Eq, contains,
  is_empty, any, ◌≡◌, refl, ap, ◌∙◌, arith, Option-cases, inl, inr,
}
use mathlib.Core.Path.{fun_ext}
use ewu_taks.Domain.{holds}
use ewu_taks.Filters.Terms.{
  subject_name, case_summary, incident_type, address_911, call_time_911, state, city, zip,
  case_priority, age, stage_id, due_date, incident_date, arrest_date, created_at, updated_at,
  case_source, priority, assignee_ids, FilterCondition, FilterOperator, CaseFilterField, Scalar,
  Value, Builtins, Leaf, Clause, leaf, any_of, equal_to, differs_from, gt, gte, lt, lte, within,
  not_within, gte_lte, OrderTest, number_test, date_test, text_in, text_not_in, text_equals,
  text_not, text_contains, text_starts_with, text_ends_with,
}
use ewu_taks.Filters.Build.{
  or_else, unique, to_trimmed_string, scalar_of, first_value, all_values, to_string_array,
  to_number, to_number_array, to_date, to_date_array, with_value, with_values, with_two,
  build_condition, build_string_condition, build_nullable_string_condition, build_number_condition,
  build_date_condition, build_enum_array_condition, build_assignee_condition,
}
use ewu_taks.Filters.Assignees.{contains-unique, all-unique, all-map_some_is, any-map_none_is}
use ewu_taks.Filters.Meaning.{Cases, meets_clause, meets_condition}
use ewu_taks.Filters.Columns.{
  Columns, Order, meets_order, if_given, if_any, if_two, wants_text, wants_number, wants_date,
  wants_one_of, wants_assignees, wants,
}

if_any-or : {A : Type 0} (xs : List A) (b : Bool) → if_any xs b ≡ (is_empty xs || b)
if_any-or [] b = refl
if_any-or (x ∷ xs) b = refl

is_empty-unique : {A : Type 0} ⦃e : Eq A⦄ (xs : List A) → is_empty (unique xs) ≡ is_empty xs
is_empty-unique [] = refl
is_empty-unique (x ∷ xs) = refl

module _ {Num Date : Type 0} ⦃e : Eq Num⦄ (cases : Cases Num Date) (columns : Columns cases)
    (builtins : Builtins Num Date) where
  open cases use {Case, meets, assigned}
  open columns use {text_of, number_at, date_at, has_value, numbers, dates, meets_text}

  -- What a clause that may be missing selects.
  abbrev pub passes : Case → Option (Clause Num Date) → Bool
  passes c none = true
  passes c (some clause) = meets_clause cases c clause

  passes-text :
      (field : CaseFilterField) (f : FilterCondition Num Date) (c : Case)
      → passes c (build_string_condition builtins field f)
        ≡ wants_text cases columns builtins field f c
  unfolding build_string_condition
  passes-text field f c =
      let given =
        or_else (to_trimmed_string builtins (scalar_of builtins f.value))
          (to_trimmed_string builtins (first_value builtins f)) in
      let blank = columns.meets-is_blank c field in
      let filled = columns.meets-is_not_blank c field in
      let null = columns.meets-is_null c field in
      let not_null = columns.meets-is_not_null c field in
      elim (Option-cases given) [
        | inl missing ↦ ground (arith, missing, blank, filled, null, not_null)
        | inr (v, there) ↦ ground (
          arith,
          there,
          blank,
          filled,
          null,
          not_null,
          columns.meets-text_test c field (text_equals v),
          columns.meets-text_test c field (text_not v),
          columns.meets-text_test c field (text_contains v),
          columns.meets-text_test c field (text_starts_with v),
          columns.meets-text_test c field (text_ends_with v),
        )
      ]

  with_value-passes :
      {A : Type 0} (c : Case) (make : A → Clause Num Date) (p : A → Bool) (given : Option A)
      → ((a : A) → meets_clause cases c (make a) ≡ p a)
      → passes c (with_value builtins make given) ≡ if_given given p
  with_value-passes c make p none h = refl
  with_value-passes c make p (some a) h = h a

  with_values-passes :
      {A : Type 0} (c : Case) (make : List A → Clause Num Date) (p : List A → Bool) (xs : List A)
      → ((ys : List A) → meets_clause cases c (make ys) ≡ p ys)
      → passes c (with_values builtins make xs) ≡ if_any xs (p xs)
  with_values-passes c make p [] h = refl
  with_values-passes c make p (a ∷ rest) h = h (a ∷ rest)

  with_two-passes :
      {A : Type 0} (c : Case) (make : A → A → Clause Num Date) (p : A → A → Bool) (xs : List A)
      → ((a b : A) → meets_clause cases c (make a b) ≡ p a b)
      → passes c (with_two builtins make xs) ≡ if_two xs p
  with_two-passes c make p [] h = refl
  with_two-passes c make p (a ∷ []) h = refl
  with_two-passes c make p (a ∷ b ∷ rest) h = h a b

  -- The tests of a column with an order, of one value or of two.
  module _ {A : Type 0} (c : Case) (test : OrderTest A → Leaf Num Date) (o : Order A)
      (column : Option A)
      (law : (t : OrderTest A) → meets c (test t) ≡ holds (meets_order o t) column) where
    passes-one :
        (make : A → OrderTest A) (given : Option A)
        → passes c (with_value builtins (λ v. leaf (test (make v))) given)
          ≡ if_given given (λ a. holds (meets_order o (make a)) column)
    passes-one make given =
        with_value-passes c (λ v. leaf (test (make v))) (λ a. holds (meets_order o (make a)) column)
          given (λ a. law (make a))

    passes-between :
        (values : List A)
        → passes c (with_two builtins (λ a b. leaf (test (gte_lte a b))) values)
          ≡ if_two values (λ a b. holds (λ x. not (o.less x a) && not (o.less b x)) column)
    passes-between values =
        with_two-passes c (λ a b. leaf (test (gte_lte a b)))
          (λ a b. holds (λ x. not (o.less x a) && not (o.less b x)) column) values
          (λ a b. law (gte_lte a b))

    passes-not_between :
        (values : List A)
        → passes c (with_two builtins (λ a b. any_of (test (lt a) ∷ test (gt b) ∷ [])) values)
          ≡ if_two values (λ a b. holds (λ x. o.less x a || o.less b x) column)
    passes-not_between values =
        with_two-passes c (λ a b. any_of (test (lt a) ∷ test (gt b) ∷ []))
          (λ a b. holds (λ x. o.less x a || o.less b x) column) values
          (λ a b. ground (arith, law (lt a), law (gt b), Option-cases column))

  passes-number :
      (field : CaseFilterField) (f : FilterCondition Num Date) (c : Case)
      → passes c (build_number_condition builtins field f)
        ≡ wants_number cases columns builtins field f c
  unfolding build_number_condition
  passes-number field f c =
      let given =
        or_else (to_number builtins (scalar_of builtins f.value))
          (to_number builtins (first_value builtins f)) in
      let values = to_number_array builtins (all_values builtins f.value f.values) in
      let column = number_at c field in
      let law = columns.meets-number_test c field in
      let one = λ (make : Num → OrderTest Num).
        passes-one c (λ t. number_test field t) numbers column law make given in
      let within_values =
        with_values-passes c (λ xs. leaf (number_test field (within xs)))
          (λ xs. holds (λ x. any (numbers.equal x) xs) column) values (λ xs. law (within xs)) in
      let not_within_values =
        with_values-passes c (λ xs. leaf (number_test field (not_within xs)))
          (λ xs. holds (λ x. not (any (numbers.equal x) xs)) column) values
          (λ xs. law (not_within xs)) in
      ground (
        arith,
        one (λ v. equal_to v),
        one (λ v. differs_from v),
        one (λ v. gt v),
        one (λ v. gte v),
        one (λ v. lt v),
        one (λ v. lte v),
        within_values,
        not_within_values,
        passes-between c (λ t. number_test field t) numbers column law values,
        passes-not_between c (λ t. number_test field t) numbers column law values,
      )

  passes-date :
      (field : CaseFilterField) (f : FilterCondition Num Date) (c : Case)
      → passes c (build_date_condition builtins field f)
        ≡ wants_date cases columns builtins field f c
  unfolding build_date_condition
  passes-date field f c =
      let given =
        or_else (to_date builtins (scalar_of builtins f.value))
          (to_date builtins (first_value builtins f)) in
      let values = to_date_array builtins (all_values builtins f.value f.values) in
      let column = date_at c field in
      let law = columns.meets-date_test c field in
      let one = λ (make : Date → OrderTest Date).
        passes-one c (λ t. date_test field t) dates column law make given in
      ground (
        arith,
        one (λ v. equal_to v),
        one (λ v. differs_from v),
        one (λ v. gt v),
        one (λ v. gte v),
        one (λ v. lt v),
        one (λ v. lte v),
        passes-between c (λ t. date_test field t) dates column law values,
        passes-not_between c (λ t. date_test field t) dates column law values,
        columns.meets-is_null c field,
        columns.meets-is_not_null c field,
      )

  passes-one_of :
      (field : CaseFilterField) (f : FilterCondition Num Date) (c : Case)
      → passes c (build_enum_array_condition builtins field f)
        ≡ wants_one_of cases columns builtins field f c
  unfolding build_enum_array_condition
  passes-one_of field f c =
      let values = to_string_array builtins (all_values builtins f.value f.values) in
      let column = text_of c field in
      let same : contains (unique values) ≡ contains values = fun_ext (contains-unique values) in
      let among : meets c (text_in field (unique values)) ≡ holds (contains values) column =
        columns.meets-text_in c field (unique values)
        ∙ ap (λ (p : Text → Bool). holds p column) same in
      let apart : meets c (text_not_in field (unique values))
          ≡ holds (λ t. not (contains values t)) column =
        columns.meets-text_not_in c field (unique values)
        ∙ ap (λ (p : Text → Bool). holds (λ t. not (p t)) column) same in
      ground (
        arith,
        among,
        apart,
        if_any-or values (holds (contains values) column),
        if_any-or values (holds (λ t. not (contains values t)) column),
      )

  passes-assignees :
      (f : FilterCondition Num Date) (c : Case)
      → passes c (build_assignee_condition builtins f) ≡ wants_assignees cases columns builtins f c
  unfolding build_assignee_condition
  passes-assignees f c =
      let ids = to_number_array builtins (all_values builtins f.value f.values) in
      let same : contains (unique ids) ≡ contains ids = fun_ext (contains-unique ids) in
      let one : any (contains (unique ids)) (assigned c) ≡ any (contains ids) (assigned c) =
        ap (λ (p : Num → Bool). any p (assigned c)) same in
      let each = all-unique (contains (assigned c)) ids in
      ground (
        arith,
        is_empty-unique ids,
        cases.meets-some c,
        cases.meets-none c,
        cases.meets-some_in c (unique ids) ∙ one,
        cases.meets-none_in c (unique ids) ∙ ap (λ b. not b) one,
        all-map_some_is cases builtins c (unique ids) ∙ each,
        any-map_none_is cases builtins c (unique ids) ∙ ap (λ b. not b) each,
      )

  abbrev condition :
      CaseFilterField
      → FilterOperator
      → Value Num Date
      → Option (List (Scalar Num Date))
      → FilterCondition Num Date
  condition field op value values = record {
    field = field;
    operator = op;
    value = value;
    values = values;
  }

  passes-field :
      (field : CaseFilterField) (op : FilterOperator) (value : Value Num Date)
      → (values : Option (List (Scalar Num Date))) (c : Case)
      → passes c (build_condition builtins (condition field op value values))
        ≡ wants cases columns builtins (condition field op value values) c
  unfolding build_condition build_nullable_string_condition
  passes-field subject_name op value values c =
      passes-text subject_name (condition subject_name op value values) c
  passes-field case_summary op value values c =
      passes-text case_summary (condition case_summary op value values) c
  passes-field incident_type op value values c =
      passes-text incident_type (condition incident_type op value values) c
  passes-field address_911 op value values c =
      passes-text address_911 (condition address_911 op value values) c
  passes-field call_time_911 op value values c =
      passes-text call_time_911 (condition call_time_911 op value values) c
  passes-field state op value values c = passes-text state (condition state op value values) c
  passes-field city op value values c = passes-text city (condition city op value values) c
  passes-field zip op value values c = passes-text zip (condition zip op value values) c
  passes-field case_priority op value values c =
      passes-text case_priority (condition case_priority op value values) c
  passes-field age op value values c = passes-number age (condition age op value values) c
  passes-field stage_id op value values c =
      passes-number stage_id (condition stage_id op value values) c
  passes-field due_date op value values c =
      passes-date due_date (condition due_date op value values) c
  passes-field incident_date op value values c =
      passes-date incident_date (condition incident_date op value values) c
  passes-field arrest_date op value values c =
      passes-date arrest_date (condition arrest_date op value values) c
  passes-field created_at op value values c =
      passes-date created_at (condition created_at op value values) c
  passes-field updated_at op value values c =
      passes-date updated_at (condition updated_at op value values) c
  passes-field case_source op value values c =
      passes-one_of case_source (condition case_source op value values) c
  passes-field priority op value values c =
      passes-one_of priority (condition priority op value values) c
  passes-field assignee_ids op value values c =
      passes-assignees (condition assignee_ids op value values) c

  -- What a condition selects is what it asks for.
  pub passes-wants :
      (f : FilterCondition Num Date) (c : Case)
      → meets_condition cases builtins c f ≡ wants cases columns builtins f c
  passes-wants f c =
      let same : meets_condition cases builtins c f ≡ passes c (build_condition builtins f) =
        elim (Option-cases (build_condition builtins f)) [
          | inl unused ↦ ground (arith, unused)
          | inr (clause, made) ↦ ground (arith, made)
        ] in
      same ∙ passes-field f.field f.operator f.value f.values c
