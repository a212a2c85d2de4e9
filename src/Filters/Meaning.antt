-- ===== src/Filters/Meaning.antt =====
-- Which cases the clause of a query selects.
use ewu_taks.Base.{
  List, [], ◌∷◌, ◌++◌, Option, none, some, Bool, true, not, ◌&&◌, ◌≡◌, refl, ap, ◌∙◌, arith, Eq,
  contains, is_empty, any, all, get_or, Option-cases, inl, inr,
}
use ewu_taks.Filters.Terms.{
  FilterCondition, Builtins, Leaf, Clause, Joined, leaf, any_of, all_of, some_assignee,
  none_assignee, some_assignee_in, none_assignee_in, some_assignee_is, none_assignee_is, nothing,
  only, every,
}
use ewu_taks.Filters.Build.{map_some, build_condition}
use ewu_taks.Filters.Query.{
  CasesQuery, Part, legacy, dynamic, join, build_legacy_where, build_dynamic_where,
  build_case_where, legacy_part, dynamic_part,
}

-- The cases as the database keeps them: which tests a case meets, and its assignees. The tests of
-- the relation are those of Prisma's `some` and `none`.
pub record Cases (Num Date : Type 0) ⦃e : Eq Num⦄ : Type 1 where
  pub Case : Type 0
  pub meets : Case → Leaf Num Date → Bool
  pub assigned : Case → List Num
  pub meets-some : (c : Case) → meets c some_assignee ≡ not (is_empty (assigned c))
  pub meets-none : (c : Case) → meets c none_assignee ≡ is_empty (assigned c)
  pub meets-some_in :
      (c : Case) (ids : List Num)
      → meets c (some_assignee_in ids) ≡ any (λ id. contains ids id) (assigned c)
  pub meets-none_in :
      (c : Case) (ids : List Num)
      → meets c (none_assignee_in ids) ≡ not (any (λ id. contains ids id) (assigned c))
  pub meets-some_is :
      (c : Case) (id : Num) → meets c (some_assignee_is id) ≡ contains (assigned c) id
  pub meets-none_is :
      (c : Case) (id : Num) → meets c (none_assignee_is id) ≡ not (contains (assigned c) id)

module _ {Num Date : Type 0} ⦃e : Eq Num⦄ (cases : Cases Num Date) where
  open cases use {Case, meets}

  abbrev pub meets_clause : Case → Clause Num Date → Bool
  meets_clause c (leaf l) = meets c l
  meets_clause c (any_of ls) = any (meets c) ls
  meets_clause c (all_of ls) = all (meets c) ls

  abbrev pub meets_joined : {Part : Type 0} → (Part → Bool) → Joined Part → Bool
  meets_joined p nothing = true
  meets_joined p (only part) = p part
  meets_joined p (every parts) = all p parts

  abbrev pub meets_part : Case → Part Num Date → Bool
  meets_part c (legacy clauses) = all (meets_clause c) clauses
  meets_part c (dynamic clauses) = meets_joined (meets_clause c) clauses

  abbrev pub selects : Joined (Part Num Date) → Case → Bool
  selects where_clause c = meets_joined (meets_part c) where_clause

  meets_joined-join :
      {Part : Type 0} (p : Part → Bool) (parts : List Part)
      → meets_joined p (join parts) ≡ all p parts
  meets_joined-join p [] = refl
  meets_joined-join p (x ∷ []) = ground arith
  meets_joined-join p (x ∷ y ∷ rest) = refl

  module _ (builtins : Builtins Num Date) where
    -- A condition that makes no clause lets every case through.
    abbrev pub meets_condition : Case → FilterCondition Num Date → Bool
    meets_condition c f = elim (build_condition builtins f) [
      | none ↦ true
      | some clause ↦ meets_clause c clause
    ]

    all-map_some :
        (c : Case) (fs : List (FilterCondition Num Date))
        → all (meets_clause c) (map_some (build_condition builtins) fs) ≡ all (meets_condition c) fs
    all-map_some c [] = refl
    all-map_some c (f ∷ fs) = elim (Option-cases (build_condition builtins f)) [
      | inl unused ↦ ground (arith, unused, all-map_some c fs)
      | inr (clause, made) ↦ ground (arith, made, all-map_some c fs)
    ]

    all-parts :
        (c : Case) (clauses : List (Clause Num Date)) (joined : Joined (Clause Num Date))
        → all (meets_part c) (legacy_part builtins clauses ++ dynamic_part builtins joined)
          ≡ (all (meets_clause c) clauses && meets_joined (meets_clause c) joined)
    all-parts c [] nothing = refl
    all-parts c [] (only d) = ground arith
    all-parts c [] (every ds) = ground arith
    all-parts c (x ∷ xs) nothing = ground arith
    all-parts c (x ∷ xs) (only d) = ground arith
    all-parts c (x ∷ xs) (every ds) = ground arith

    meets_joined-dynamic :
        (c : Case) (filters : Option (List (FilterCondition Num Date)))
        → meets_joined (meets_clause c) (build_dynamic_where builtins filters)
          ≡ all (meets_condition c) (get_or filters [])
    unfolding build_dynamic_where
    meets_joined-dynamic c none = refl
    meets_joined-dynamic c (some fs) =
        meets_joined-join (meets_clause c) (map_some (build_condition builtins) fs)
        ∙ all-map_some c fs

    -- The clause of a query selects a case if and only if the case meets each part of the fixed
    -- filters and each condition of the dynamic ones for which a clause is made, whatever their
    -- number.
    pub build_case_where-joined :
        (query : CasesQuery Num Date) (c : Case)
        → selects (build_case_where builtins query) c ≡ (
            all (meets_clause c) (build_legacy_where builtins query)
            && all (meets_condition c) (get_or query.filters []))
    unfolding build_case_where
    build_case_where-joined query c =
        let fixed = build_legacy_where builtins query in
        let joined = build_dynamic_where builtins query.filters in
        meets_joined-join (meets_part c)
          (legacy_part builtins fixed ++ dynamic_part builtins joined)
        ∙ all-parts c fixed joined
        ∙ ap (λ (b : Bool). all (meets_clause c) fixed && b) (meets_joined-dynamic c query.filters)
