-- ===== src/Tests/Lists.antt =====
-- The pagination and the scope filters at concrete rows.
use ewu_taks.Base.{
  if◌then◌else◌, ◌==◌, ℕ, ◌+◌, List, [], ◌∷◌, ◌++◌, Option, none, some, take, length, Text, ◌≡◌,
  refl, ap, arith,
}
use ewu_taks.Base.{Bool, true, nat_eq, any, contains}
use ewu_taks.Rbac.Entry.{own, team, scope_level}
use ewu_taks.Guards.Scope.{ScopeContext}
use ewu_taks.ScopeFilter.{ScopeModelConfig, build_scope_filter}
use ewu_taks.ScopeFilter.Rows.{shown, shown-wider}
use ewu_taks.Pagination.{OffsetQuery, CursorArgs, text_value, number_value}
use ewu_taks.Pagination.Cursors.{read_on, Finds, read_on-all}

abbrev five_rows : List ℕ
five_rows = 11 ∷ 12 ∷ 13 ∷ 14 ∷ 15 ∷ []

abbrev two_a_page : OffsetQuery
two_a_page = record { page = none; limit = some 2 }

abbrev two_rows : List ℕ
two_rows = 1 ∷ 2 ∷ []

abbrev behind : ℕ → List ℕ → List ℕ
behind n [] = []
behind n (x ∷ xs) = if x == n then xs else behind n xs

-- a query on the two rows
abbrev query : CursorArgs → List ℕ
query args = elim args.cursor [
  | none ↦ take args.rows_taken two_rows
  | some (number_value n) ↦ take args.rows_taken (behind n two_rows)
  | some (text_value t) ↦ []
]

abbrev to_number : Text → Option ℕ
to_number [] = none
to_number (c ∷ cs) = some c

query-behind :
    (before after : List ℕ) (row : ℕ)
    → two_rows ≡ (before ++ row ∷ after)
    → behind row two_rows ≡ after
query-behind [] after row h = ground (arith, h)
query-behind (x ∷ []) after row h = ground (arith, h)
query-behind (x ∷ (y ∷ [])) after row h = absurd (ground (arith, h))
query-behind (x ∷ (y ∷ (z ∷ before))) after row h = absurd (ground (arith, h))

query-Finds : Finds (λ t. t) (λ t. t) to_number (λ n. n ∷ []) query two_rows
query-Finds = record {
  find_first = λ n. refl;
  find_after = λ before after row n h. ap (take n) (query-behind before after row h);
}

read_on-all_example :
    read_on (λ t. t) (λ t. t) to_number (λ n. n ∷ []) query (length two_rows + 1) none (some 1)
    ≡ two_rows
read_on-all_example =
    read_on-all (λ t. t) (λ t. t) to_number (λ n. n ∷ []) query two_rows query-Finds (λ t. refl)
      (λ row h. cc) (some 1) (omega arith)

-- conditions as the sets of rows that meet them: a user's rows are those of its id, the team's those
-- of its ids
abbrev by_owner : ScopeModelConfig (ℕ → Bool)
by_owner = record {
  own_of = λ user_id row. row == user_id;
  assigned_of = none;
  team_of = some (λ ids row. contains ids row);
}

shown-wider_example :
    shown {Condition = ℕ → Bool} (λ c row. c row) by_owner 7 (λ u. 8 ∷ []) team 7 ≡ true
unfolding build_scope_filter scope_level
shown-wider_example = shown-wider (λ c row. c row) by_owner 7 (λ u. 8 ∷ []) own team 7 refl refl

abbrev team_context : ScopeContext
team_context = record { effective = team; user_id = 7; team_ids = some (8 ∷ []) }

abbrev any_of : List (ℕ → Bool) → ℕ → Bool
any_of conditions row = any (λ c. c row) conditions
