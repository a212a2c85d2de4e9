-- ===== src/Tests/Queries.antt =====
-- The filters of cases, the soft deletion and the roles at concrete inputs.
use ewu_taks.Base.{
  ◌+◌, ℕ, List, [], ◌∷◌, Option, none, some, Bool, true, false, not, ◌&&◌, ◌==◌, nat_eq, contains,
  is_empty, any, filter, length, ok, ◌≡◌, refl,
}
use ewu_taks.Filters.Terms.{
  Scalar, Builtins, Leaf, number, single, other, exists, contains_all, some_assignee, none_assignee,
  some_assignee_in, none_assignee_in, some_assignee_is, none_assignee_is,
}
use ewu_taks.Filters.Query.{CasesQuery, build_case_where}
use ewu_taks.Filters.Meaning.{Cases, selects}
use ewu_taks.Filters.Assignees.{on_assignees, build_case_where-no_ids}
use ewu_taks.SoftDelete.{
  SoftRow, Reading, mark_deleted, SoftWhere, unset, no_and, matches, where_of, rewrite, find_rows,
  delete_rows, update,
}
use ewu_taks.SoftDelete.Visible.{meets_rest, keeps_null, is_asked_for, rewrite-visible}
use ewu_taks.SoftDelete.Hiding.{live, is_marked, delete_rows-refines}

-- a case is the list of its assignees; dates are numbers
abbrev meets_leaf : List ℕ → Leaf ℕ ℕ → Bool
meets_leaf c some_assignee = not (is_empty c)
meets_leaf c none_assignee = is_empty c
meets_leaf c (some_assignee_in ids) = any (λ id. contains ids id) c
meets_leaf c (none_assignee_in ids) = not (any (λ id. contains ids id) c)
meets_leaf c (some_assignee_is id) = contains c id
meets_leaf c (none_assignee_is id) = not (contains c id)
meets_leaf c leaf = false

abbrev cases : Cases ℕ ℕ
cases = record {
  Case = List ℕ;
  meets = meets_leaf;
  assigned = λ c. c;
  meets-some = λ c. refl;
  meets-none = λ c. refl;
  meets-some_in = λ c ids. refl;
  meets-none_in = λ c ids. refl;
  meets-some_is = λ c id. refl;
  meets-none_is = λ c id. refl;
}

abbrev pub builtins : Builtins ℕ ℕ
builtins = record {
  trim = λ t. t;
  number_of = λ t. none;
  date_of = λ t. none;
  date_of_number = λ n. some n;
}

abbrev two_ids : Option (List (Scalar ℕ ℕ))
two_ids = some (number 3 ∷ number 5 ∷ number 3 ∷ [])

abbrev query : CasesQuery ℕ ℕ
query = record {
  stage_id_of = none;
  search = none;
  created_at_from = none;
  created_at_to = none;
  priorities = none;
  assignees = some (3 ∷ []);
  case_sources = none;
  filters = some (on_assignees cases builtins contains_all (single other) two_ids ∷ []);
}

build_case_where-no_ids_example :
    selects cases
      (build_case_where builtins (record query {
        filters = some (on_assignees cases builtins exists (single other) none ∷ []);
      }))
      []
    ≡ selects cases (build_case_where builtins (record query { filters = some [] })) []
build_case_where-no_ids_example =
    build_case_where-no_ids cases builtins [] query [] [] exists (single other) none refl

-- a row has a number, and a condition is a number
abbrev numbered : Reading ℕ ℕ
numbered = record { meets = λ c r. r.columns == c; meets_null = λ r. false }

abbrev second : SoftWhere ℕ
second = record { is_deleted = unset; and_value = no_and; rest = 2 ∷ [] }

abbrev live_row : ℕ → SoftRow ℕ
live_row n = record { is_deleted = false; deleted_at = none; deleted_by = none; columns = n }

abbrev three_rows : List (SoftRow ℕ)
three_rows = live_row 1 ∷ live_row 2 ∷ mark_deleted 8 40 (live_row 2) ∷ []

rewrite-visible_example :
    matches numbered (where_of (rewrite true update (some second))) (live_row 2) ≡ (
      meets_rest numbered (where_of (some second)) (live_row 2)
      && is_asked_for numbered (keeps_null update) (where_of (some second)).is_deleted (live_row 2))
rewrite-visible_example = rewrite-visible numbered update (some second) (live_row 2)

delete_rows-refines_example :
    (find_rows numbered three_rows (some second)
      ≡ filter (meets_rest numbered second) (live numbered three_rows))
    × (table' : List (SoftRow ℕ)) × (delete_rows numbered three_rows (some second) (some 9) 50
        ≡ ok table')
    × (live numbered table'
        ≡ filter (λ r. not (meets_rest numbered second r)) (live numbered three_rows))
    × (length table' ≡ length three_rows)
    × (length (filter (is_marked numbered 9 50) table')
        ≡ length (filter (is_marked numbered 9 50) three_rows)
          + length (filter (meets_rest numbered second) (live numbered three_rows)))
delete_rows-refines_example = delete_rows-refines numbered three_rows second 9 50 refl
