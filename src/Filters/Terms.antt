-- ===== src/Filters/Terms.antt =====
-- filters/enums, filters/interfaces and the parts of `Prisma.CaseWhereInput` that
-- filter-query-builder.service.ts makes.
use ewu_taks.Base.{List, Option, Text}

pub data FilterOperator : Type 0 where
  equals not_equals contains starts_with ends_with in_list not_in : FilterOperator
  greater_than greater_than_or_equal less_than less_than_or_equal : FilterOperator
  between not_between is_empty is_not_empty exists not_exists : FilterOperator
  contains_any contains_all not_contains_any not_contains_all : FilterOperator

-- The field of a condition is the column of the case, but for `assignee_ids`.
pub data CaseFilterField : Type 0 where
  subject_name age incident_type incident_date case_summary address_911 : CaseFilterField
  call_time_911 state city zip arrest_date stage_id due_date case_priority : CaseFilterField
  case_source priority created_at updated_at assignee_ids : CaseFilterField

-- A value of the request: a string, a finite number, a valid Date, or anything else (`undefined`,
-- null, a Boolean, an object, NaN).
pub data Scalar (Num Date : Type 0) : Type 0 where
  text : Text → Scalar Num Date
  number : Num → Scalar Num Date
  date : Date → Scalar Num Date
  other : Scalar Num Date

pub data Value (Num Date : Type 0) : Type 0 where
  single : Scalar Num Date → Value Num Date
  array : List (Scalar Num Date) → Value Num Date

-- `ICaseFilterCondition`; `none` for the values is `undefined` or null.
pub record FilterCondition (Num Date : Type 0) : Type 0 where
  pub field : CaseFilterField
  pub operator : FilterOperator
  pub value : Value Num Date
  pub values : Option (List (Scalar Num Date))

-- `String.trim`, `Number` of a string, and `new Date` of a string and of a number; `none` is a
-- number that is not finite or a date that is not valid.
pub record Builtins (Num Date : Type 0) : Type 0 where
  pub trim : Text → Text
  pub number_of : Text → Option Num
  pub date_of : Text → Option Date
  pub date_of_number : Num → Option Date

-- A test of a text column that ignores case.
pub data TextTest : Type 0 where
  text_equals text_not text_contains text_starts_with text_ends_with : Text → TextTest

-- A test of a column of numbers or dates.
pub data OrderTest (A : Type 0) : Type 0 where
  equal_to differs_from gt gte lt lte : A → OrderTest A
  within not_within : List A → OrderTest A
  gte_lte : A → A → OrderTest A

-- A test of the dates of creation has its bounds one by one.
pub data Leaf (Num Date : Type 0) : Type 0 where
  text_test : CaseFilterField → TextTest → Leaf Num Date
  is_null is_not_null is_blank is_not_blank : CaseFilterField → Leaf Num Date
  number_test : CaseFilterField → OrderTest Num → Leaf Num Date
  date_test : CaseFilterField → OrderTest Date → Leaf Num Date
  text_in text_not_in : CaseFilterField → List Text → Leaf Num Date
  some_assignee none_assignee : Leaf Num Date
  some_assignee_in none_assignee_in : List Num → Leaf Num Date
  some_assignee_is none_assignee_is : Num → Leaf Num Date

-- One property of a `where` object: a test, or a list under `OR` or `AND`.
pub data Clause (Num Date : Type 0) : Type 0 where
  leaf : Leaf Num Date → Clause Num Date
  any_of all_of : List (Leaf Num Date) → Clause Num Date

-- `{}`, the only part, or `{ AND: parts }`.
pub data Joined (Part : Type 0) : Type 0 where
  nothing : Joined Part
  only : Part → Joined Part
  every : List Part → Joined Part
