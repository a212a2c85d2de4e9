-- ===== src/ScopeFilter/Rows.antt =====
-- Which rows a query with a scope finds. `meets` says whether a row meets a condition.
use ewu_taks.Base.{
  ℕ, List, [], ◌∷◌, ◌++◌, Option, none, some, Bool, true, false, not, ◌||◌, ◌&&◌, is_empty, any,
  leb, ◌≡◌, sym, ap, ◌∙◌, arith, Option-cases, inl, inr,
}
use ewu_taks.Base.{all as all_of}
use ewu_taks.Rbac.Entry.{PermissionScope, assigned, team, all, scope_beq, scope_level}
use ewu_taks.Guards.Scope.{ScopeContext, scope_context}
use ewu_taks.ScopeFilter.{ScopeModelConfig, Where, build_scope_filter, with_scope}

all-snoc :
    {A : Type 0} (p : A → Bool) (xs : List A) (y : A)
    → all_of p (xs ++ y ∷ []) ≡ (all_of p xs && p y)
all-snoc p [] y = ground arith
all-snoc p (x ∷ xs) y = ground (arith, all-snoc p xs y)

wider_parts :
    (narrow wide : PermissionScope) (is_own is_assigned has_teams is_team : Bool)
    → leb (scope_level narrow) (scope_level wide) ≡ true
    → (scope_beq narrow all
        || is_own
        || ((scope_beq narrow assigned || scope_beq narrow team) && is_assigned)
        || (scope_beq narrow team && has_teams && is_team))
      ≡ true
    → (scope_beq wide all
        || is_own
        || ((scope_beq wide assigned || scope_beq wide team) && is_assigned)
        || (scope_beq wide team && has_teams && is_team))
      ≡ true
unfolding scope_level
wider_parts narrow wide is_own is_assigned has_teams is_team higher h = ground arith

module _ {Condition Row : Type 0} (meets : Condition → Row → Bool) where
  -- The row meets the filter; no filter is met by every row.
  abbrev pub visible : Option (List Condition) → Row → Bool
  visible none row = true
  visible (some conditions) row = any (λ c. meets c row) conditions

  -- The row is found by a query in a request of the user whose effective scope is the given one.
  abbrev pub shown : ScopeModelConfig Condition → ℕ → (ℕ → List ℕ) → PermissionScope → Row → Bool
  shown config user_id get_team_ids scope row =
      elim (scope_context user_id get_team_ids (some scope)) [
        | none ↦ true
        | some ctx ↦ visible (build_scope_filter config ctx) row
      ]

  abbrev meets_of : {X : Type 0} → Option (X → Condition) → X → Row → Bool
  meets_of none x row = false
  meets_of (some f) x row = meets (f x) row

  -- The parts of the filter that a row can meet.
  shown-parts :
      (config : ScopeModelConfig Condition) (user_id : ℕ) (get_team_ids : ℕ → List ℕ)
      (scope : PermissionScope) (row : Row)
      → shown config user_id get_team_ids scope row ≡ (
          scope_beq scope all
          || meets (config.own_of user_id) row
          || ((scope_beq scope assigned || scope_beq scope team)
              && meets_of config.assigned_of user_id row)
          || (scope_beq scope team
              && not (is_empty (get_team_ids user_id))
              && meets_of config.team_of (get_team_ids user_id) row))
  unfolding build_scope_filter
  shown-parts config user_id get_team_ids scope row = elim (Option-cases config.assigned_of) [
    | inl no_assigned ↦ elim (Option-cases config.team_of) [
      | inl no_team ↦ ground (arith, no_assigned, no_team)
      | inr (g, has_team) ↦ ground (arith, no_assigned, has_team)
    ]
    | inr (f, has_assigned) ↦ elim (Option-cases config.team_of) [
      | inl no_team ↦ ground (arith, has_assigned, no_team)
      | inr (g, has_team) ↦ ground (arith, has_assigned, has_team)
    ]
  ]

  -- A wider effective scope shows every row that a narrower one shows.
  pub shown-wider :
      (config : ScopeModelConfig Condition) (user_id : ℕ) (get_team_ids : ℕ → List ℕ)
      (narrow wide : PermissionScope) (row : Row)
      → leb (scope_level narrow) (scope_level wide) ≡ true
      → shown config user_id get_team_ids narrow row ≡ true
      → shown config user_id get_team_ids wide row ≡ true
  unfolding scope_level
  shown-wider config user_id get_team_ids narrow wide row higher h =
      let narrow_parts = shown-parts config user_id get_team_ids narrow row in
      let wide_parts = shown-parts config user_id get_team_ids wide row in
      rw wide_parts (wider_parts narrow wide _ _ _ _ higher (sym narrow_parts ∙ h))

  -- Where a context is given and the model has a configuration: the conditions that `withScope`
  -- leaves are all met exactly by the rows that meet all of the old ones and are visible under the
  -- scope, if the condition made of alternatives is met where one of them is.
  pub with_scope-visible :
      (any_of : List Condition → Condition) (c : ScopeModelConfig Condition) (ctx : ScopeContext)
      (request_ctx : Option ScopeContext) (clause : Where Condition) (row : Row)
      → ((conditions : List Condition)
          → meets (any_of conditions) row ≡ any (λ x. meets x row) conditions)
      → all_of
          (λ x. meets x row)
          (with_scope any_of (some c) request_ctx (some ctx) clause).and_conditions
        ≡ (all_of (λ x. meets x row) clause.and_conditions
            && visible (build_scope_filter c ctx) row)
  unfolding with_scope
  with_scope-visible any_of c ctx request_ctx clause row law =
      elim (Option-cases (build_scope_filter c ctx)) [
        | inl free ↦ rw (free, with_scope) (ground arith)
        | inr (conditions, filtered) ↦
            rw (filtered, with_scope)
              (all-snoc _ clause.and_conditions (any_of conditions)
                ∙ ap (λ b. all_of (λ x. meets x row) clause.and_conditions && b) (law conditions))
      ]
