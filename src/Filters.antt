-- ===== src/Filters.antt =====
-- apps/api/src/app/filters: the conditions of a case list, from the request to the `where` clause.
-- `Terms` has the conditions and the clauses, this file what FilterQueryBuilderService makes of one
-- condition, `Query` the whole clause, `Meaning` and `Assignees` which cases it selects.
pub mod Terms
pub mod Build
pub mod Query
pub mod Meaning
pub mod Columns
pub mod Conditions
pub mod Selection
pub mod Assignees
