-- ===== src/Filters/Columns.antt =====
-- What the filters of a request mean on the columns of a case, apart from the clauses that
-- filter-query-builder.service.ts makes of them: the columns as Prisma's tests read them, and the
-- cases that a condition and the fixed filters ask for.
use ewu_taks.Base.{
  List, [], ◌∷◌, Option, none, some, Bool, true, not, ◌&&◌, ◌||◌, Text, text_eq, Eq, contains,
  is_empty, any, all, ◌≡◌,
}
use ewu_taks.Domain.{holds}
use ewu_taks.Filters.Terms
use ewu_taks.Filters.Terms.{
  FilterCondition, FilterOperator, CaseFilterField, Scalar, Builtins, TextTest, OrderTest, text,
  number, date, other, text_test, number_test, date_test, text_in, text_not_in, is_null,
  is_not_null, is_blank, is_not_blank, text_equals, text_not, text_contains, text_starts_with,
  text_ends_with, equal_to, differs_from, gt, gte, lt, lte, within, not_within, gte_lte, equals,
  not_equals, starts_with, ends_with, in_list, not_in, greater_than, greater_than_or_equal,
  less_than, less_than_or_equal, between, not_between, is_not_empty, exists, not_exists,
  contains_any, contains_all, not_contains_any, not_contains_all, subject_name, age, incident_type,
  incident_date, case_summary, address_911, call_time_911, state, city, zip, arrest_date, stage_id,
  due_date, case_priority, case_source, priority, created_at, updated_at, assignee_ids,
}
use ewu_taks.Filters.Build.{
  nonempty, or_else, to_trimmed_string, scalar_of, first_value, all_values, to_string_array,
  to_number, to_number_array, to_date, to_date_array,
}
use ewu_taks.Filters.Query.{CasesQuery}
use ewu_taks.Filters.Meaning.{Cases}

-- Numbers or dates with an order.
pub record Order (A : Type 0) : Type 0 where
  pub equal : A → A → Bool
  pub less : A → A → Bool

-- Whether a value meets a test of Prisma.
abbrev pub meets_order : {A : Type 0} → Order A → OrderTest A → A → Bool
meets_order o (equal_to a) x = o.equal x a
meets_order o (differs_from a) x = not (o.equal x a)
meets_order o (gt a) x = o.less a x
meets_order o (gte a) x = not (o.less x a)
meets_order o (lt a) x = o.less x a
meets_order o (lte a) x = not (o.less a x)
meets_order o (within given) x = any (o.equal x) given
meets_order o (not_within given) x = not (any (o.equal x) given)
meets_order o (gte_lte a b) x = not (o.less x a) && not (o.less b x)

module _ {Num Date : Type 0} ⦃e : Eq Num⦄ (cases : Cases Num Date) where
  open cases use {Case, meets, assigned}

  -- The columns of a case, which may be null, and how a test reads them: a null column meets none
  -- but `null` itself. `meets_text` is the comparison of texts in the database, without the case.
  pub record Columns : Type 0 where
    pub text_of : Case → CaseFilterField → Option Text
    pub number_at : Case → CaseFilterField → Option Num
    pub date_at : Case → CaseFilterField → Option Date
    pub has_value : Case → CaseFilterField → Bool
    pub numbers : Order Num
    pub dates : Order Date
    pub meets_text : TextTest → Text → Bool
    pub meets-text_test :
        (c : Case) (f : CaseFilterField) (t : TextTest)
        → meets c (text_test f t) ≡ holds (meets_text t) (text_of c f)
    pub meets-number_test :
        (c : Case) (f : CaseFilterField) (t : OrderTest Num)
        → meets c (number_test f t) ≡ holds (meets_order numbers t) (number_at c f)
    pub meets-date_test :
        (c : Case) (f : CaseFilterField) (t : OrderTest Date)
        → meets c (date_test f t) ≡ holds (meets_order dates t) (date_at c f)
    pub meets-text_in :
        (c : Case) (f : CaseFilterField) (ts : List Text)
        → meets c (text_in f ts) ≡ holds (contains ts) (text_of c f)
    pub meets-text_not_in :
        (c : Case) (f : CaseFilterField) (ts : List Text)
        → meets c (text_not_in f ts) ≡ holds (λ t. not (contains ts t)) (text_of c f)
    pub meets-is_null : (c : Case) (f : CaseFilterField) → meets c (is_null f) ≡ not (has_value c f)
    pub meets-is_not_null :
        (c : Case) (f : CaseFilterField) → meets c (is_not_null f) ≡ has_value c f
    pub meets-is_blank :
        (c : Case) (f : CaseFilterField) → meets c (is_blank f) ≡ holds is_empty (text_of c f)
    pub meets-is_not_blank :
        (c : Case) (f : CaseFilterField)
        → meets c (is_not_blank f) ≡ holds (λ t. not (is_empty t)) (text_of c f)

-- Whether an operator with these values lets a column pass; what it cannot use lets all pass.
abbrev pub if_given : {A : Type 0} → Option A → (A → Bool) → Bool
if_given none p = true
if_given (some a) p = p a

abbrev pub if_any : {A : Type 0} → List A → Bool → Bool
if_any [] b = true
if_any (a ∷ rest) b = b

abbrev pub if_two : {A : Type 0} → List A → (A → A → Bool) → Bool
if_two [] p = true
if_two (a ∷ []) p = true
if_two (a ∷ b ∷ rest) p = p a b

module _ {Num Date : Type 0} ⦃e : Eq Num⦄ (cases : Cases Num Date) (columns : Columns cases)
    (builtins : Builtins Num Date) where
  open cases use {Case, assigned}
  open columns use {text_of, number_at, date_at, has_value, numbers, dates, meets_text}

  abbrev pub wants_text : CaseFilterField → FilterCondition Num Date → Case → Bool
  wants_text field f c =
      let given =
        or_else (to_trimmed_string builtins (scalar_of builtins f.value))
          (to_trimmed_string builtins (first_value builtins f)) in
      let by =
        λ (t : Text → TextTest). if_given given (λ v. holds (meets_text (t v)) (text_of c field)) in
      elim f.operator [
        | equals ↦ by text_equals
        | not_equals ↦ by text_not
        | Terms.contains ↦ by text_contains
        | starts_with ↦ by text_starts_with
        | ends_with ↦ by text_ends_with
        | Terms.is_empty ↦ not (has_value c field) || holds is_empty (text_of c field)
        | is_not_empty ↦ has_value c field && holds (λ t. not (is_empty t)) (text_of c field)
        | _ ↦ true
      ]

  -- The operators that numbers and dates share.
  abbrev pub wants_order :
      {A : Type 0} → Order A → FilterOperator → Option A → List A → Option A → Bool
  wants_order {A} o operator given values column =
      let by = λ (p : A → A → Bool). if_given given (λ a. holds (p a) column) in
      let by_two = λ (p : A → A → A → Bool). if_two values (λ a b. holds (p a b) column) in
      elim operator [
        | equals ↦ by (λ a x. o.equal x a)
        | not_equals ↦ by (λ a x. not (o.equal x a))
        | greater_than ↦ by (λ a x. o.less a x)
        | greater_than_or_equal ↦ by (λ a x. not (o.less x a))
        | less_than ↦ by (λ a x. o.less x a)
        | less_than_or_equal ↦ by (λ a x. not (o.less a x))
        | between ↦ by_two (λ a b x. not (o.less x a) && not (o.less b x))
        | not_between ↦ by_two (λ a b x. o.less x a || o.less b x)
        | _ ↦ true
      ]

  abbrev pub wants_number : CaseFilterField → FilterCondition Num Date → Case → Bool
  wants_number field f c =
      let given =
        or_else (to_number builtins (scalar_of builtins f.value))
          (to_number builtins (first_value builtins f)) in
      let values = to_number_array builtins (all_values builtins f.value f.values) in
      let column = number_at c field in
      let shared = wants_order numbers f.operator given values column in
      elim f.operator [
        | in_list ↦ if_any values (holds (λ x. any (numbers.equal x) values) column)
        | not_in ↦ if_any values (holds (λ x. not (any (numbers.equal x) values)) column)
        | _ ↦ shared
      ]

  abbrev pub wants_date : CaseFilterField → FilterCondition Num Date → Case → Bool
  wants_date field f c =
      let given =
        or_else (to_date builtins (scalar_of builtins f.value))
          (to_date builtins (first_value builtins f)) in
      let values = to_date_array builtins (all_values builtins f.value f.values) in
      let shared = wants_order dates f.operator given values (date_at c field) in
      elim f.operator [
        | Terms.is_empty ↦ not (has_value c field)
        | is_not_empty ↦ has_value c field
        | _ ↦ shared
      ]

  abbrev pub wants_one_of : CaseFilterField → FilterCondition Num Date → Case → Bool
  wants_one_of field f c =
      let values = to_string_array builtins (all_values builtins f.value f.values) in
      let among = if_any values (holds (contains values) (text_of c field)) in
      let apart = if_any values (holds (λ t. not (contains values t)) (text_of c field)) in
      elim f.operator [
        | equals ↦ among
        | in_list ↦ among
        | Terms.contains ↦ among
        | contains_any ↦ among
        | contains_all ↦ among
        | not_equals ↦ apart
        | not_in ↦ apart
        | not_contains_any ↦ apart
        | not_contains_all ↦ apart
        | _ ↦ true
      ]

  abbrev pub wants_assignees : FilterCondition Num Date → Case → Bool
  wants_assignees f c =
      let ids = to_number_array builtins (all_values builtins f.value f.values) in
      let one = any (contains ids) (assigned c) in
      let each = all (contains (assigned c)) ids in
      is_empty ids || (elim f.operator [
        | exists ↦ not (is_empty (assigned c))
        | not_exists ↦ is_empty (assigned c)
        | equals ↦ one
        | in_list ↦ one
        | contains_any ↦ one
        | not_equals ↦ not one
        | not_in ↦ not one
        | not_contains_any ↦ not one
        | contains_all ↦ each
        | not_contains_all ↦ not each
        | _ ↦ true
      ])

  -- Whether a condition asks for a case.
  abbrev pub wants : FilterCondition Num Date → Case → Bool
  wants f c = elim f.field [
    | age ↦ wants_number age f c
    | stage_id ↦ wants_number stage_id f c
    | due_date ↦ wants_date due_date f c
    | incident_date ↦ wants_date incident_date f c
    | arrest_date ↦ wants_date arrest_date f c
    | created_at ↦ wants_date created_at f c
    | updated_at ↦ wants_date updated_at f c
    | case_source ↦ wants_one_of case_source f c
    | priority ↦ wants_one_of priority f c
    | assignee_ids ↦ wants_assignees f c
    | column ↦ wants_text f.field f c
  ]

  abbrev pub if_list : {A : Type 0} → Option (List A) → (List A → Bool) → Bool
  if_list none p = true
  if_list (some xs) p = if_any xs (p xs)

  -- Whether the fixed filters ask for a case: the stage, a search in the name and the summary, the
  -- first and the last date of creation, the priorities, the assignees and the sources.
  abbrev pub wants_fixed : CasesQuery Num Date → Case → Bool
  wants_fixed query c =
      let found = λ (s : Text) (field : CaseFilterField).
        holds (meets_text (text_contains s)) (text_of c field) in
      let created = date_at c created_at in
      if_given query.stage_id_of (λ id. holds (λ x. numbers.equal x id) (number_at c stage_id))
      && if_given query.search (λ s.
        if_given (nonempty builtins (builtins.trim s))
          (λ t. found t subject_name || found t case_summary))
      && if_given query.created_at_from (λ d. holds (λ x. not (dates.less x d)) created)
      && if_given query.created_at_to (λ d. holds (λ x. not (dates.less d x)) created)
      && if_list query.priorities (λ ps. holds (contains ps) (text_of c priority))
      && if_list query.assignees (λ ids. any (contains ids) (assigned c))
      && if_list query.case_sources (λ ss. holds (contains ss) (text_of c case_source))
