-- ===== src/Filters/Query.antt =====
-- FilterQueryBuilderService.buildCaseWhere with the filters of cases/utils/filter: the clause of a
-- whole query. A `where` object is the list of its properties, whose keys are distinct.
use ewu_taks.Base.{List, [], ◌∷◌, ◌++◌, Option, none, some, Text, text_eq, Eq}
use ewu_taks.Filters.Terms.{
  FilterCondition, Builtins, Clause, Joined, leaf, any_of, subject_name, case_summary, stage_id,
  created_at, priority, case_source, text_contains, text_test, number_test, date_test, equal_to,
  gte, lte, gte_lte, text_in, some_assignee_in, nothing, only, every,
}
use ewu_taks.Filters.Build.{nonempty, map_some, unique, build_condition}

-- `CasesQueryDTO`, what the filters read of it
pub record CasesQuery (Num Date : Type 0) : Type 0 where
  pub stage_id_of : Option Num
  pub search : Option Text
  pub created_at_from : Option Date
  pub created_at_to : Option Date
  pub priorities : Option (List Text)
  pub assignees : Option (List Num)
  pub case_sources : Option (List Text)
  pub filters : Option (List (FilterCondition Num Date))

pub data Part (Num Date : Type 0) : Type 0 where
  legacy : List (Clause Num Date) → Part Num Date
  dynamic : Joined (Clause Num Date) → Part Num Date

-- `{}`, the only part, or the list of them under `AND`
abbrev pub join : {Part : Type 0} → List Part → Joined Part
join [] = nothing
join (p ∷ []) = only p
join (p ∷ q ∷ rest) = every (p ∷ q ∷ rest)

module _ {Num Date : Type 0} ⦃e : Eq Num⦄ (builtins : Builtins Num Date) where
  open builtins use {trim}

  unfoldable pub build_cases_search_filter : Option Text → List (Clause Num Date)
  build_cases_search_filter none = []
  build_cases_search_filter (some search) = elim (nonempty builtins (trim search)) [
    | none ↦ []
    | some query ↦
        any_of (
          text_test subject_name (text_contains query)
          ∷ text_test case_summary (text_contains query)
          ∷ [])
        ∷ []
  ]

  unfoldable pub build_cases_created_at_filter : Option Date → Option Date → List (Clause Num Date)
  build_cases_created_at_filter none none = []
  build_cases_created_at_filter (some from) none = leaf (date_test created_at (gte from)) ∷ []
  build_cases_created_at_filter none (some to) = leaf (date_test created_at (lte to)) ∷ []
  build_cases_created_at_filter (some from) (some to) =
      leaf (date_test created_at (gte_lte from to)) ∷ []

  unfoldable pub build_cases_priority_filter : Option (List Text) → List (Clause Num Date)
  build_cases_priority_filter none = []
  build_cases_priority_filter (some []) = []
  build_cases_priority_filter (some (p ∷ ps)) = leaf (text_in priority (unique (p ∷ ps))) ∷ []

  unfoldable pub build_cases_assignee_filter : Option (List Num) → List (Clause Num Date)
  build_cases_assignee_filter none = []
  build_cases_assignee_filter (some []) = []
  build_cases_assignee_filter (some (id ∷ ids)) = leaf (some_assignee_in (unique (id ∷ ids))) ∷ []

  unfoldable pub build_cases_pr_team_filter : Option (List Text) → List (Clause Num Date)
  build_cases_pr_team_filter none = []
  build_cases_pr_team_filter (some []) = []
  build_cases_pr_team_filter (some (s ∷ ss)) = leaf (text_in case_source (unique (s ∷ ss))) ∷ []

  abbrev pub stage_part : Option Num → List (Clause Num Date)
  stage_part none = []
  stage_part (some id) = leaf (number_test stage_id (equal_to id)) ∷ []

  unfoldable pub build_legacy_where : CasesQuery Num Date → List (Clause Num Date)
  unfolding build_cases_search_filter build_cases_created_at_filter build_cases_priority_filter
      build_cases_assignee_filter build_cases_pr_team_filter
  build_legacy_where query =
      stage_part query.stage_id_of
      ++ (build_cases_search_filter query.search
          ++ (build_cases_created_at_filter query.created_at_from query.created_at_to
              ++ (build_cases_priority_filter query.priorities
                  ++ (build_cases_assignee_filter query.assignees
                      ++ build_cases_pr_team_filter query.case_sources))))

  unfoldable pub build_dynamic_where :
      Option (List (FilterCondition Num Date)) → Joined (Clause Num Date)
  unfolding build_condition
  build_dynamic_where none = nothing
  build_dynamic_where (some filters) = join (map_some (build_condition builtins) filters)

  -- A `where` object with no property is left out.
  abbrev pub legacy_part : List (Clause Num Date) → List (Part Num Date)
  legacy_part [] = []
  legacy_part (c ∷ cs) = legacy (c ∷ cs) ∷ []

  abbrev pub dynamic_part : Joined (Clause Num Date) → List (Part Num Date)
  dynamic_part nothing = []
  dynamic_part (only c) = dynamic (only c) ∷ []
  dynamic_part (every cs) = dynamic (every cs) ∷ []

  unfoldable pub build_case_where : CasesQuery Num Date → Joined (Part Num Date)
  unfolding build_legacy_where build_dynamic_where
  build_case_where query =
      join
        (legacy_part (build_legacy_where query) ++ dynamic_part (build_dynamic_where query.filters))
