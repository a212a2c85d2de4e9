-- ===== src/Pagination.antt =====
-- libs/shared/src/lib/utils: pagination.util.ts, cursor-pagination.util.ts, sort.util.ts and
-- search.util.ts. The validation of the DTOs makes page and limit at least 1.
pub mod Pages
pub mod Cursors
use ewu_taks.Base.{
  ℕ, ◌+◌, ◌*◌, ◌-◌, ◌/◌, min, List, [], ◌∷◌, Option, none, some, Bool, true, false, not, ◌&&◌,
  if◌then◌else◌, Text, text_eq, nat_eq, contains, filter, is_empty, length, take, map, get_or,
  is_some, ltb, ◌==◌, ◌++◌,
}

abbrev pub default_page : ℕ
default_page = 1

abbrev pub default_limit : ℕ
default_limit = 20

abbrev pub max_limit : ℕ
max_limit = 100

pub record OffsetQuery : Type 0 where
  pub page : Option ℕ
  pub limit : Option ℕ

pub record PaginationArgs : Type 0 where
  pub skip : ℕ
  pub rows_taken : ℕ

pub record PaginatedResult (Row : Type 0) : Type 0 where
  pub data_rows : List Row
  pub total : ℕ
  pub page : ℕ
  pub limit : ℕ
  pub total_pages : ℕ

abbrev pub limit_of : Option ℕ → ℕ
limit_of limit = min (get_or limit default_limit) max_limit

unfoldable pub build_pagination_args : OffsetQuery → PaginationArgs
build_pagination_args query =
    let page = get_or query.page default_page in
    let limit = limit_of query.limit in record { skip = (page - 1) * limit; rows_taken = limit }

-- `Math.ceil(total / limit)` on whole numbers
abbrev pub ceil_div : ℕ → ℕ → ℕ
ceil_div total limit = (total + (limit - 1)) / limit

unfoldable pub build_paginated_result :
    {Row : Type 0} → List Row → ℕ → OffsetQuery → PaginatedResult Row
build_paginated_result rows total query =
    let limit = limit_of query.limit in
    record {
      data_rows = rows;
      total = total;
      page = get_or query.page default_page;
      limit = limit;
      total_pages = if total == 0 then 0 else ceil_div total limit;
    }

-- An empty string is as good as none.
unfoldable pub build_sort_by : Option Text → List Text → Text → Text
build_sort_by none allowed default_field = default_field
build_sort_by (some sort_by) allowed default_field =
    if not (is_empty sort_by) && contains allowed sort_by then sort_by else default_field

-- `buildSearchWhere`: the fields of the `OR` with the word that each is to contain; an empty list
-- is the empty condition. `trim` is String.prototype.trim.
unfoldable pub build_search_where :
    (Text → Text) → Option Text → Option (List Text) → List Text → List (Text × Text)
build_search_where trim none search_fields allowed = []
build_search_where trim (some search) search_fields allowed =
    let trimmed = trim search in
    let wanted = get_or search_fields [] in
    let fields = filter (λ f. contains allowed f) (if is_empty wanted then allowed else wanted) in
    if is_empty trimmed then [] else map (λ f. (f, trimmed)) fields

pub data CursorDirection : Type 0 where
  forward backward : CursorDirection

pub record DirectionalCursor : Type 0 where
  pub value : Text
  pub direction : CursorDirection

pub record CursorPage (Row : Type 0) : Type 0 where
  pub items : List Row
  pub limit : ℕ
  pub next_cursor : Option Text
  pub previous_cursor : Option Text
  pub has_next_page : Bool
  pub has_previous_page : Bool

-- the characters f, b and :
abbrev pub letter_f : ℕ
letter_f = 102

abbrev pub letter_b : ℕ
letter_b = 98

abbrev pub colon_char : ℕ
colon_char = 58

abbrev pub first_item : {Row : Type 0} → List Row → Option Row
first_item [] = none
first_item (x ∷ xs) = some x

abbrev pub last_item : {Row : Type 0} → List Row → Option Row
last_item [] = none
last_item (x ∷ []) = some x
last_item (x ∷ (y ∷ ys)) = last_item (y ∷ ys)

-- `encode` and `decode` are Buffer's base64url coding of UTF-8 text.
module _ (encode decode : Text → Text) where
  unfoldable pub encode_directional_cursor : Text → CursorDirection → Text
  encode_directional_cursor value forward = encode (letter_f ∷ colon_char ∷ value)
  encode_directional_cursor value backward = encode (letter_b ∷ colon_char ∷ value)

  unfoldable pub parse_directional : Text → DirectionalCursor
  parse_directional [] = record { value = []; direction = forward }
  parse_directional (c ∷ []) = record { value = c ∷ []; direction = forward }
  parse_directional (c ∷ (d ∷ rest)) =
      if d == colon_char
      then record { value = rest; direction = if c == letter_b then backward else forward }
      else record { value = c ∷ d ∷ rest; direction = forward }

  unfoldable pub decode_directional_cursor : Text → DirectionalCursor
  unfolding parse_directional
  decode_directional_cursor cursor = parse_directional (decode cursor)

  -- `query.cursor ? decodeDirectionalCursor(query.cursor) : undefined`
  abbrev pub decoded_if : Option Text → Option DirectionalCursor
  decoded_if none = none
  decoded_if (some []) = none
  decoded_if (some (c ∷ cs)) = some (decode_directional_cursor (c ∷ cs))

  abbrev pub is_backward : Option DirectionalCursor → Bool
  is_backward none = false
  is_backward (some c) = elim c.direction [ forward ↦ false | backward ↦ true ]

  module _ {Row : Type 0} (cursor_value : Row → Text) where
    abbrev pub cursor_if : Bool → Option Row → (Text → Text) → Option Text
    cursor_if false item f = none
    cursor_if true none f = none
    cursor_if true (some row) f = some (f (cursor_value row))

    -- `buildCursorPaginatedResult`
    unfoldable pub build_cursor_paginated_result :
        List Row → Option Text → Option ℕ → CursorPage Row
    build_cursor_paginated_result rows cursor query_limit =
        let limit = limit_of query_limit in
        let has_next = ltb limit (length rows) in
        let has_previous = is_some cursor in
        let items = if has_next then take limit rows else rows in
        record {
          items = items;
          limit = limit;
          next_cursor = cursor_if has_next (last_item items) encode;
          previous_cursor = cursor_if has_previous (first_item items) encode;
          has_next_page = has_next;
          has_previous_page = has_previous;
        }

    -- `buildDirectionalCursorPaginatedResult`
    unfoldable pub build_directional_cursor_paginated_result :
        List Row → Option Text → Option ℕ → CursorPage Row
    unfolding decode_directional_cursor encode_directional_cursor
    build_directional_cursor_paginated_result rows cursor query_limit =
        let limit = limit_of query_limit in
        let decoded = decoded_if cursor in
        let going_back = is_backward decoded in
        let has_overflow = ltb limit (length rows) in
        let items = if has_overflow then take limit rows else rows in
        let has_next = if going_back then is_some decoded else has_overflow in
        let has_previous = if going_back then has_overflow else is_some decoded in
        record {
          items = items;
          limit = limit;
          next_cursor =
              cursor_if has_next (last_item items) (λ v. encode_directional_cursor v forward);
          previous_cursor =
              cursor_if has_previous (first_item items) (λ v. encode_directional_cursor v backward);
          has_next_page = has_next;
          has_previous_page = has_previous;
        }

-- The value of a cursor's column in a query.
pub data CursorValue : Type 0 where
  number_value : ℕ → CursorValue
  text_value : Text → CursorValue

pub record CursorArgs : Type 0 where
  pub rows_taken : ℕ
  pub skip : Option ℕ
  pub cursor : Option CursorValue

-- `to_number` is `Number` where `isNumericString` holds.
module _ (decode : Text → Text) (to_number : Text → Option ℕ) where
  abbrev pub to_cursor_value : Text → CursorValue
  to_cursor_value value = elim (to_number value) [
    | none ↦ text_value value
    | some n ↦ number_value n
  ]

  -- `buildCursorPaginationArgs`: one row more than asked for shows whether there is a next page.
  unfoldable pub build_cursor_pagination_args : Option Text → Option ℕ → CursorArgs
  build_cursor_pagination_args none query_limit = record {
    rows_taken = limit_of query_limit + 1;
    skip = none;
    cursor = none;
  }
  build_cursor_pagination_args (some []) query_limit = record {
    rows_taken = limit_of query_limit + 1;
    skip = none;
    cursor = none;
  }
  build_cursor_pagination_args (some (c ∷ cs)) query_limit = record {
    rows_taken = limit_of query_limit + 1;
    skip = some 1;
    cursor = some (to_cursor_value (decode (c ∷ cs)));
  }
