-- ===== src/Tests/Selection.antt =====
-- The selection of cases at a concrete query.
use ewu_taks.Base.{
  ℕ, List, [], ◌∷◌, Option, none, some, Bool, true, false, not, ◌&&◌, ◌||◌, ◌==◌, nat_eq, ltb,
  contains, is_empty, is_some, any, Text, text_eq, text_beq, refl,
}
use ewu_taks.Domain.{holds}
use ewu_taks.Filters.Terms.{
  CaseFilterField, Leaf, TextTest, number, text, single, other, between, not_equals, contains_all,
  assignee_ids, age, subject_name, text_equals, text_not, text_contains, text_starts_with,
  text_ends_with, text_test, is_null, is_not_null, is_blank, is_not_blank, number_test, date_test,
  text_in, text_not_in, some_assignee, none_assignee, some_assignee_in, none_assignee_in,
  some_assignee_is, none_assignee_is,
}
use ewu_taks.Filters.Query.{CasesQuery}
use ewu_taks.Filters.Meaning.{Cases}
use ewu_taks.Filters.Columns.{Columns, Order, meets_order}

-- a case with its assignees and columns; dates are numbers
record Row : Type 0 where
  assignees : List ℕ
  text_at : CaseFilterField → Option Text
  number_at : CaseFilterField → Option ℕ

abbrev is_prefix : Text → Text → Bool
is_prefix [] s = true
is_prefix (a ∷ as') [] = false
is_prefix (a ∷ as') (b ∷ s) = let rest = is_prefix as' s in a == b && rest

abbrev is_infix : Text → Text → Bool
is_infix t [] = is_empty t
is_infix t (b ∷ s) = is_prefix t (b ∷ s) || is_infix t s

abbrev is_suffix : Text → Text → Bool
is_suffix t [] = is_empty t
is_suffix t (b ∷ s) = text_beq t (b ∷ s) || is_suffix t s

abbrev meets_text : TextTest → Text → Bool
meets_text (text_equals t) s = text_beq t s
meets_text (text_not t) s = not (text_beq t s)
meets_text (text_contains t) s = is_infix t s
meets_text (text_starts_with t) s = is_prefix t s
meets_text (text_ends_with t) s = is_suffix t s

abbrev order : Order ℕ
order = record { equal = λ x a. x == a; less = ltb }

abbrev has_value : Row → CaseFilterField → Bool
has_value c f = is_some (c.text_at f) || is_some (c.number_at f)

abbrev meets_leaf : Row → Leaf ℕ ℕ → Bool
meets_leaf c (text_test f t) = holds (meets_text t) (c.text_at f)
meets_leaf c (is_null f) = not (has_value c f)
meets_leaf c (is_not_null f) = has_value c f
meets_leaf c (is_blank f) = holds is_empty (c.text_at f)
meets_leaf c (is_not_blank f) = holds (λ t. not (is_empty t)) (c.text_at f)
meets_leaf c (number_test f t) = holds (meets_order order t) (c.number_at f)
meets_leaf c (date_test f t) = holds (meets_order order t) (c.number_at f)
meets_leaf c (text_in f ts) = holds (contains ts) (c.text_at f)
meets_leaf c (text_not_in f ts) = holds (λ t. not (contains ts t)) (c.text_at f)
meets_leaf c some_assignee = not (is_empty c.assignees)
meets_leaf c none_assignee = is_empty c.assignees
meets_leaf c (some_assignee_in ids) = any (λ id. contains ids id) c.assignees
meets_leaf c (none_assignee_in ids) = not (any (λ id. contains ids id) c.assignees)
meets_leaf c (some_assignee_is id) = contains c.assignees id
meets_leaf c (none_assignee_is id) = not (contains c.assignees id)

abbrev rows : Cases ℕ ℕ
rows = record {
  Case = Row;
  meets = meets_leaf;
  assigned = λ c. c.assignees;
  meets-some = λ c. refl;
  meets-none = λ c. refl;
  meets-some_in = λ c ids. refl;
  meets-none_in = λ c ids. refl;
  meets-some_is = λ c id. refl;
  meets-none_is = λ c id. refl;
}

abbrev columns : Columns rows
columns = record {
  text_of = λ c f. c.text_at f;
  number_at = λ c f. c.number_at f;
  date_at = λ c f. c.number_at f;
  has_value = has_value;
  numbers = order;
  dates = order;
  meets_text = meets_text;
  meets-text_test = λ c f t. refl;
  meets-number_test = λ c f t. refl;
  meets-date_test = λ c f t. refl;
  meets-text_in = λ c f ts. refl;
  meets-text_not_in = λ c f ts. refl;
  meets-is_null = λ c f. refl;
  meets-is_not_null = λ c f. refl;
  meets-is_blank = λ c f. refl;
  meets-is_not_blank = λ c f. refl;
}

abbrev case_row : Row
case_row = record {
  assignees = 3 ∷ 4 ∷ [];
  text_at = λ f. some (b'h' ∷ b'i' ∷ []);
  number_at = λ f. some 12;
}

abbrev query : CasesQuery ℕ ℕ
query = record {
  stage_id_of = some 12;
  search = some (b'i' ∷ []);
  created_at_from = some 10;
  created_at_to = none;
  priorities = some ((b'h' ∷ b'i' ∷ []) ∷ (b'h' ∷ b'i' ∷ []) ∷ []);
  assignees = some (3 ∷ []);
  case_sources = none;
  filters = some (
      record {
        field = age;
        operator = between;
        value = single other;
        values = some (number 10 ∷ number 20 ∷ []);
      }
      ∷ record {
        field = assignee_ids;
        operator = contains_all;
        value = single other;
        values = some (number 3 ∷ number 4 ∷ number 3 ∷ []);
      }
      ∷ record {
        field = subject_name;
        operator = not_equals;
        value = single (text (b'x' ∷ []));
        values = none;
      }
      ∷ []);
}
