-- ===== src/ScopeFilter.antt =====
-- libs/core/src/lib/scope/scope-config.registry.ts: the condition that a scope puts on a query. A
-- registered configuration is its three functions, `none` for one that is not given; a condition is
-- whatever they return, and a `where` clause is its other parts and its list of conditions in `AND`.
pub mod Rows
use ewu_taks.Base.{
  ℕ, List, [], ◌∷◌, ◌++◌, Option, none, some, Bool, true, false, ◌||◌, ◌&&◌, if◌then◌else◌, get_or,
  is_some, is_empty,
}
use ewu_taks.Guards.Scope.{ScopeContext}
use ewu_taks.Rbac.Entry.{assigned, team, all, scope_beq}

pub record ScopeModelConfig (Condition : Type 0) : Type 0 where
  pub own_of : ℕ → Condition
  pub assigned_of : Option (ℕ → Condition)
  pub team_of : Option (List ℕ → Condition)

pub record Where (Condition : Type 0) : Type 0 where
  pub rest : List Condition
  pub and_conditions : List Condition

module _ {Condition : Type 0} where
  abbrev pub assigned_part : ScopeModelConfig Condition → ScopeContext → List Condition
  assigned_part config ctx = elim config.assigned_of [
    | none ↦ []
    | some f ↦
        if scope_beq ctx.effective assigned || scope_beq ctx.effective team
        then f ctx.user_id ∷ []
        else []
  ]

  abbrev pub team_part : ScopeModelConfig Condition → ScopeContext → List Condition
  team_part config ctx = elim config.team_of [
    | none ↦ []
    | some f ↦
        (let team_ids = get_or ctx.team_ids [] in
          if scope_beq ctx.effective team && (if is_empty team_ids then false else true)
          then f team_ids ∷ []
          else [])
  ]

  -- `buildScopeFilter`: the alternatives of the `OR`; `none` is no filter.
  unfoldable pub build_scope_filter :
      ScopeModelConfig Condition → ScopeContext → Option (List Condition)
  build_scope_filter config ctx =
      if scope_beq ctx.effective all
      then none
      else some (config.own_of ctx.user_id ∷ (assigned_part config ctx ++ team_part config ctx))

  -- `withScope`: the context is that of the request or the given one, the configuration that of the
  -- model in the registry; `any_of` makes the condition `{ OR: conditions }`.
  unfoldable pub with_scope :
      (List Condition → Condition)
      → Option (ScopeModelConfig Condition)
      → Option ScopeContext
      → Option ScopeContext
      → Where Condition
      → Where Condition
  unfolding build_scope_filter
  with_scope any_of config of_request override_ctx clause =
      elim (if is_some override_ctx then override_ctx else of_request) [
        | none ↦ clause
        | some ctx ↦ elim config [
          | none ↦ clause
          | some c ↦ elim (build_scope_filter c ctx) [
            | none ↦ clause
            | some conditions ↦ record clause {
              and_conditions = clause.and_conditions ++ (any_of conditions ∷ []);
            }
          ]
        ]
      ]
