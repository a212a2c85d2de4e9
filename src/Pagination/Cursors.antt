-- ===== src/Pagination/Cursors.antt =====
-- Cursor pagination: the codes of cursors, and following them through the rows.
use ewu_taks.Base.{
  ℕ, zero, suc, ◌+◌, ◌≤◌, ◌<◌, List, [], ◌∷◌, ◌++◌, Option, none, some, true, false, ltb, length,
  take, drop, length-drop, take-drop, take-all, take-take, length-take, Text, ◌≡◌, ◌≢◌, ◌∙◌, refl,
  sym, ap, arith, Bool-cases, inl, inr,
}
use mathlib.Core.List.{append_assoc}
use ewu_taks.Pagination.{
  CursorDirection, forward, backward, encode_directional_cursor, decode_directional_cursor,
  parse_directional, CursorPage, CursorArgs, to_cursor_value, build_cursor_pagination_args,
  build_cursor_paginated_result, limit_of, last_item,
}

-- A directional cursor decodes to the value and the direction that it was made of, whatever
-- characters the value has, colons too.
pub decode-encode_directional :
    (encode decode : Text → Text)
    → ((t : Text) → decode (encode t) ≡ t)
    → (value : Text) (direction : CursorDirection)
    → decode_directional_cursor encode decode
        (encode_directional_cursor encode decode value direction)
      ≡ record { value = value; direction = direction }
unfolding decode_directional_cursor encode_directional_cursor parse_directional
decode-encode_directional encode decode law value forward = rw (law _) refl
decode-encode_directional encode decode law value backward = rw (law _) refl

module _ {Row : Type 0} where
  -- A cut in the rows falls behind a row.
  last-take :
      (n : ℕ) (xs : List Row)
      → n < length xs
      → (row : Row) × (init : List Row) × (last_item (take (suc n) xs) ≡ some row)
        × (xs ≡ (init ++ row ∷ drop (suc n) xs))
  last-take zero [] h = absurd (ground arith)
  last-take zero (x ∷ xs) h = (x, [], refl, refl)
  last-take (suc n) [] h = absurd (ground arith)
  last-take (suc n) (x ∷ []) h = absurd (ground arith)
  last-take (suc n) (x ∷ (y ∷ ys)) h =
      let (row, init, last, whole) = last-take n (y ∷ ys) (ground arith) in
      (row, x ∷ init, last, ap (λ zs. x ∷ zs) whole)

  last-take_inside :
      (n : ℕ) (xs : List Row)
      → 1 ≤ n
      → n < length xs
      → (row : Row) × (init : List Row) × (last_item (take n xs) ≡ some row)
        × (xs ≡ (init ++ row ∷ drop n xs))
  last-take_inside zero xs positive h = absurd (omega arith)
  last-take_inside (suc n) xs positive h = last-take n xs (omega arith)

-- What a client reads that follows the cursors of the pages. `find_many` is Prisma's query on rows
-- in the order of the query, and `cursor_value` the column of the cursor.
module _ {Row : Type 0} (encode decode : Text → Text) (to_number : Text → Option ℕ)
    (cursor_value : Row → Text) (find_many : CursorArgs → List Row) where
  abbrev pub page_at : Option Text → Option ℕ → CursorPage Row
  page_at cursor limit =
      build_cursor_paginated_result encode decode cursor_value
        (find_many (build_cursor_pagination_args decode to_number cursor limit)) cursor limit

  abbrev pub read_on : ℕ → Option Text → Option ℕ → List Row
  read_on zero cursor limit = []
  read_on (suc fuel) cursor limit =
      let page = page_at cursor limit in
      elim page.next_cursor [
        | none ↦ page.items
        | some next ↦ page.items ++ read_on fuel (some next) limit
      ]

  -- The documented behaviour of the query: it takes the first rows, or those after the row of the
  -- cursor.
  pub record Finds (rows : List Row) : Type 0 where
    pub find_first :
        (n : ℕ) → find_many (record { rows_taken = n; skip = none; cursor = none }) ≡ take n rows
    pub find_after :
        (before after : List Row) (row : Row) (n : ℕ)
        → rows ≡ (before ++ row ∷ after)
        → find_many (record {
          rows_taken = n;
          skip = some 1;
          cursor = some (to_cursor_value decode to_number (cursor_value row));
        })
          ≡ take n after

  build_cursor_pagination_args-some :
      (cursor : Text) (limit : Option ℕ)
      → cursor ≢ []
      → build_cursor_pagination_args decode to_number (some cursor) limit ≡ record {
        rows_taken = limit_of limit + 1;
        skip = some 1;
        cursor = some (to_cursor_value decode to_number (decode cursor));
      }
  unfolding build_cursor_pagination_args
  build_cursor_pagination_args-some [] limit h = absurd (h refl)
  build_cursor_pagination_args-some (c ∷ cs) limit h = refl

  -- A page of the rows that are left, if no more are left than fit.
  page_at-last :
      (after : List Row) (cursor : Option Text) (limit : Option ℕ)
      → find_many (build_cursor_pagination_args decode to_number cursor limit)
        ≡ take (limit_of limit + 1) after
      → length after ≤ limit_of limit
      → ((page_at cursor limit).next_cursor ≡ none) × ((page_at cursor limit).items ≡ after)
  unfolding build_cursor_paginated_result
  page_at-last after cursor limit fetched fits =
      let few : ltb (limit_of limit) (length after) ≡ false = ground arith in
      let all = take-all (limit_of limit + 1) after (omega arith) in
      (rw (fetched, all, few) refl, rw (fetched, all, few) refl)

  -- A page of the rows that are left, if there are more.
  page_at-next :
      (after : List Row) (row : Row) (cursor : Option Text) (limit : Option ℕ)
      → find_many (build_cursor_pagination_args decode to_number cursor limit)
        ≡ take (limit_of limit + 1) after
      → limit_of limit < length after
      → last_item (take (limit_of limit) after) ≡ some row
      → ((page_at cursor limit).next_cursor ≡ some (encode (cursor_value row)))
        × ((page_at cursor limit).items ≡ take (limit_of limit) after)
  unfolding build_cursor_paginated_result
  page_at-next after row cursor limit fetched more last =
      let l = limit_of limit in
      let many : ltb l (length (take (l + 1) after)) ≡ true =
        rw (length-take (l + 1) after) (ground arith) in
      let cut = take-take l (l + 1) after (omega arith) in
      (rw (fetched, many, cut, last) refl, rw (fetched, many, cut) refl)

  read_on-last :
      (fuel : ℕ) (cursor : Option Text) (limit : Option ℕ)
      → (page_at cursor limit).next_cursor ≡ none
      → read_on (suc fuel) cursor limit ≡ (page_at cursor limit).items
  read_on-last fuel cursor limit h = ground (arith, h)

  read_on-next :
      (fuel : ℕ) (cursor : Option Text) (limit : Option ℕ) (next : Text)
      → (page_at cursor limit).next_cursor ≡ some next
      → read_on (suc fuel) cursor limit
        ≡ ((page_at cursor limit).items ++ read_on fuel (some next) limit)
  read_on-next fuel cursor limit next h = ground (arith, h)

  module _ (rows : List Row) (finds : Finds rows) (law : (t : Text) → decode (encode t) ≡ t)
      (nonempty : (row : Row) → encode (cursor_value row) ≢ []) (limit : Option ℕ)
      (positive : 1 ≤ limit_of limit) where
    -- The query for the cursor of a row finds what comes after it.
    find_many-cursor :
        (before after : List Row) (row : Row)
        → rows ≡ (before ++ row ∷ after)
        → find_many
            (build_cursor_pagination_args decode to_number (some (encode (cursor_value row))) limit)
          ≡ take (limit_of limit + 1) after
    find_many-cursor before after row whole =
        rw
          (
            build_cursor_pagination_args-some (encode (cursor_value row)) limit (nonempty row),
            law (cursor_value row),
          )
          (finds.find_after before after row (limit_of limit + 1) whole)

    read_on-rest :
        (fuel : ℕ) (before after : List Row) (cursor : Option Text)
        → rows ≡ (before ++ after)
        → find_many (build_cursor_pagination_args decode to_number cursor limit)
          ≡ take (limit_of limit + 1) after
        → length after < fuel
        → read_on fuel cursor limit ≡ after
    read_on-rest zero before after cursor whole fetched enough = absurd (omega arith)
    read_on-rest (suc fuel) before after cursor whole fetched enough =
        let l = limit_of limit in
        elim (Bool-cases (ltb l (length after))) [
          | inr few ↦
              let (next, items) = page_at-last after cursor limit fetched (ground arith) in
              read_on-last fuel cursor limit next ∙ items
          | inl more ↦
              let (row, init, last, cut) = last-take_inside l after positive (ground arith) in
              let (next, items) = page_at-next after row cursor limit fetched (ground arith) last in
              let split : rows ≡ ((before ++ init) ++ row ∷ drop l after) =
                whole
                ∙ ap (λ zs. before ++ zs) cut
                ∙ sym (append_assoc before init (row ∷ drop l after)) in
              let behind : rows ≡ (((before ++ init) ++ row ∷ []) ++ drop l after) =
                split ∙ sym (append_assoc (before ++ init) (row ∷ []) (drop l after)) in
              let shorter : length (drop l after) < fuel =
                rw (length-drop l after) (ground arith) in
              let rest =
                read_on-rest fuel ((before ++ init) ++ row ∷ []) (drop l after)
                  (some (encode (cursor_value row))) behind
                  (find_many-cursor (before ++ init) (drop l after) row split) shorter in
              read_on-next fuel cursor limit (encode (cursor_value row)) next
              ∙ rw (items, rest) (take-drop l after)
        ]

    -- Where the query finds the rows behind a cursor, cursors decode to what they were made of,
    -- none is empty and the limit is at least 1: following the next cursors from the first page
    -- reads all rows, each once and in their order, in one step more than there are rows.
    pub read_on-all : read_on (length rows + 1) none limit ≡ rows
    unfolding build_cursor_pagination_args
    read_on-all =
        read_on-rest (length rows + 1) [] rows none refl (finds.find_first (limit_of limit + 1))
          (omega arith)
