-- ===== src/Pagination/Pages.antt =====
-- Offset pagination: the pages against the rows.
use ewu_taks.Base.{
  ℕ, zero, suc, ◌+◌, ◌*◌, ◌-◌, ◌/◌, ◌≤◌, ◌<◌, List, [], ◌∷◌, ◌++◌, Option, some, length, take, drop,
  take-drop, ◌==◌, ◌≡◌, refl, sym, arith, Bool-cases, inl, inr,
}
use native.Mathlib.Nat.{lt-div-mul-add}
use ewu_taks.Pagination.{
  OffsetQuery, PaginationArgs, limit_of, build_pagination_args, build_paginated_result, ceil_div,
}

ceil_div-enough : (n l : ℕ) → 1 ≤ l → n ≤ ceil_div n l * l
ceil_div-enough n l positive =
    let whole : n + (l - 1) < (n + (l - 1)) / l * l + l = lt-div-mul-add positive in
    omega (arith, whole)

module _ {Row : Type 0} where
  -- The rows that a query with these arguments returns.
  abbrev pub select : List Row → PaginationArgs → List Row
  select rows args = take args.rows_taken (drop args.skip rows)

  -- The pages from `page` on, as many as `count`, one after the other.
  abbrev pub read_pages : List Row → ℕ → Option ℕ → ℕ → List Row
  read_pages rows zero limit page = []
  read_pages rows (suc count) limit page =
      select rows (build_pagination_args (record { page = some page; limit = limit }))
      ++ read_pages rows count limit (page + 1)

  drop-nil : (n : ℕ) → drop {A = Row} n [] ≡ []
  drop-nil zero = refl
  drop-nil (suc n) = refl

  drop-drop : (n m k : ℕ) (xs : List Row) → k ≡ m + n → drop n (drop m xs) ≡ drop k xs
  drop-drop n zero k xs h = let same : k ≡ n = omega arith in rw same refl
  drop-drop n (suc m) zero xs h = absurd (omega arith)
  drop-drop n (suc m) (suc k) [] h = drop-nil n
  drop-drop n (suc m) (suc k) (x ∷ xs) h = drop-drop n m k xs (omega arith)

  drop-all : (n : ℕ) (xs : List Row) → length xs ≤ n → drop n xs ≡ []
  drop-all zero [] h = refl
  drop-all zero (x ∷ xs) h = absurd (ground arith)
  drop-all (suc n) [] h = refl
  drop-all (suc n) (x ∷ xs) h = drop-all n xs (ground arith)

  -- The pages from a page on are the rows that it skips to, if there are enough of them.
  read_pages-drop :
      (rows : List Row) (count page : ℕ) (limit : Option ℕ)
      → length rows ≤ (page + count) * limit_of limit
      → read_pages rows count limit (page + 1) ≡ drop (page * limit_of limit) rows
  unfolding build_pagination_args
  read_pages-drop rows zero page limit enough = sym (drop-all _ rows (ground arith))
  read_pages-drop rows (suc count) page limit enough =
      let l = limit_of limit in
      let start : page + 1 - 1 ≡ page = omega arith in
      let after : (page + 1) * l ≡ page * l + l = grind arith in
      let shift : page + 1 + count ≡ page + suc count = omega arith in
      rw
        (
          start,
          read_pages-drop rows count (page + 1) limit (rw shift enough),
          ← drop-drop l (page * l) ((page + 1) * l) rows after,
        )
        (take-drop l (drop (page * l) rows))

  -- For a limit of at least 1 all pages that a result announces, one after the other, are the
  -- rows: none is missing, none comes twice.
  pub read_pages-total_pages :
      (rows : List Row) (query : OffsetQuery)
      → 1 ≤ limit_of query.limit
      → read_pages rows (build_paginated_result rows (length rows) query).total_pages query.limit 1
        ≡ rows
  unfolding build_paginated_result
  read_pages-total_pages rows query positive =
      let l = limit_of query.limit in
      let result = build_paginated_result rows (length rows) query in
      let first : 0 * l ≡ 0 = omega arith in
      let none_before : 0 + result.total_pages ≡ result.total_pages = omega arith in
      let enough : length rows ≤ result.total_pages * l = elim (Bool-cases (length rows == 0)) [
        | inl empty ↦ let is_zero : length rows ≡ 0 = ground arith in ground arith
        | inr filled ↦ rw filled (ceil_div-enough (length rows) l positive)
      ] in
      let all = read_pages-drop rows result.total_pages 0 query.limit (rw none_before enough) in
      rw first at all
