-- ===== src/Pagination.antt =====
-- crates/patwari-server/src/pagination.rs: keyset pagination with opaque cursors, and the query of
-- `list_tombstones` (crates/patwari-server/src/deletion.rs) that uses it.
pub mod Order
pub mod Walk
mod Steps
pub mod Complete
use mathlib.Core.Option
use patwari.Prelude.{
  ApiError, ApiResult, Bool, List, Option, String, Text, false, filter, first, int_eq, int_ltb,
  internal, invalid, last, leb, length, ltb, map, negsuc, none, not, ok, ok_or, pos, reject_if,
  some, suc, take, text_eq, text_leb, true, zero, ℕ, ℤ, ◌&&◌, ◌+◌, ◌/◌, ◌==◌, ◌>>=◌, ◌>>◌, ◌||◌,
}

abbrev pub default_page_limit : ℕ
default_page_limit = 50

abbrev pub max_page_limit : ℕ
max_page_limit = 100

abbrev pub max_cursor_bytes : ℕ
max_cursor_bytes = 2048

abbrev pub cursor_version : ℕ
cursor_version = 1

pub record SortBoundary : Type 0 where
  pub sort_key : ℤ
  pub timestamp : Text
  pub id : Text

pub record OpaqueCursor : Type 0 where
  pub version : ℕ
  pub kind : Text
  pub filter_hash : Text
  pub high_watermark : SortBoundary
  pub after : SortBoundary

pub record PageRequest : Type 0 where
  pub limit : ℕ
  pub cursor : Option OpaqueCursor

pub record PageHighWatermark : Type 0 where
  pub timestamp : Text
  pub id : Text

pub record PaginatedResponse {ℓ} (T : Type ℓ) : Type ℓ where
  pub items : List T
  pub next_cursor : Option Text
  pub high_watermark : Option PageHighWatermark

abbrev pub or_else {ℓ} : {A : Type ℓ} → Option A → Option A → Option A
or_else none b = b
or_else (some a) b = some a

-- What third-party code contributes: RFC 3339 (`OffsetDateTime::parse`, `format` in UTC,
-- `unix_timestamp_nanos`), UUIDs, JSON and URL-safe base64.
pub record CursorExternal : Type 1 where
  pub Time : Type 0
  pub parse_time : Text → Option Time
  pub format_utc : Time → Option Text
  pub unix_timestamp_nanos : Time → ℤ
  pub Uuid : Type 0
  pub parse_str : Text → Option Uuid
  pub to_string : Uuid → Text
  pub get_version_num : Uuid → ℕ
  pub to_vec : OpaqueCursor → Option Text
  pub from_slice : Text → Option OpaqueCursor
  pub base64_encode : Text → Text
  pub base64_decode : Text → Option Text

-- `sort_key_from_timestamp`: a division that truncates towards zero. The year of an
-- `OffsetDateTime` has four digits, so the result fits an i64.
unfoldable pub sort_key_from_timestamp : ℤ → ℤ
sort_key_from_timestamp (pos n) = pos (n / 1000)
sort_key_from_timestamp (negsuc n) = neg (suc n / 1000)
  where
    neg : ℕ → ℤ
    neg zero = pos 0
    neg (suc m) = negsuc m

unfoldable pub is_at_or_before : SortBoundary → SortBoundary → Bool
is_at_or_before left right =
    int_ltb left.sort_key right.sort_key
    || (int_eq left.sort_key right.sort_key && text_leb left.id right.id)

-- The strict comparison of the second bound that `append_descending_bounds` writes.
unfoldable pub is_before : SortBoundary → SortBoundary → Bool
is_before left right =
    int_ltb left.sort_key right.sort_key
    || (int_eq left.sort_key right.sort_key && not (text_leb right.id left.id))

module _ (ext : CursorExternal) where
  abbrev invalid_cursor : ApiError
  invalid_cursor = invalid "cursor is invalid"

  unfoldable pub normalize_timestamp : Text → String → ApiResult Text
  normalize_timestamp value message = ok_or (ext.parse_time value) (invalid message) >>= λ time.
      ok_or (ext.format_utc time) internal

  unfoldable pub sort_key_from_rfc3339 : Text → Option ℤ
  sort_key_from_rfc3339 value =
      Option.map (λ time. sort_key_from_timestamp (ext.unix_timestamp_nanos time))
        (ext.parse_time value)

  unfoldable pub validate_boundary : SortBoundary → ApiResult (Unit {0})
  unfolding normalize_timestamp sort_key_from_rfc3339
  validate_boundary boundary =
      normalize_timestamp boundary.timestamp "cursor is invalid" >>= λ normalized.
      reject_if (not (text_eq normalized boundary.timestamp)) invalid_cursor
      >> ok_or (sort_key_from_rfc3339 boundary.timestamp) invalid_cursor
      >>= λ expected_sort_key.
          reject_if (not (int_eq boundary.sort_key expected_sort_key)) invalid_cursor
          >> ok_or (ext.parse_str boundary.id) invalid_cursor
          >>= λ id.
              reject_if
                (not (text_eq (ext.to_string id) boundary.id) || not (ext.get_version_num id == 7))
                invalid_cursor

  unfoldable pub parse_cursor : Text → Text → Text → ApiResult OpaqueCursor
  unfolding validate_boundary is_at_or_before
  parse_cursor text kind filter_hash =
      reject_if (ltb max_cursor_bytes (length text)) invalid_cursor
      >> ok_or (ext.base64_decode text) invalid_cursor
      >>= λ decoded. ok_or (ext.from_slice decoded) invalid_cursor >>= λ cursor.
          reject_if
            (not (cursor.version == cursor_version)
              || not (text_eq cursor.kind kind)
              || not (text_eq cursor.filter_hash filter_hash))
            (invalid "cursor does not match this collection and filters")
          >> validate_boundary cursor.high_watermark
          >> validate_boundary cursor.after
          >> reject_if (not (is_at_or_before cursor.after cursor.high_watermark)) invalid_cursor
          >> ok cursor

  unfoldable pub parse_page : Option ℕ → Option Text → Text → Text → ApiResult PageRequest
  unfolding parse_cursor
  parse_page limit cursor kind filter_hash =
      let limit' = Option.get_or limit default_page_limit in
      reject_if (not (leb 1 limit' && leb limit' max_page_limit))
        (invalid "page limit must be between 1 and 100")
      >> parse_optional cursor
      >>= λ cursor'. ok (record { limit = limit'; cursor = cursor' })
    where
      parse_optional : Option Text → ApiResult (Option OpaqueCursor)
      parse_optional none = ok none
      parse_optional (some text) = parse_cursor text kind filter_hash >>= λ parsed. ok (some parsed)

  unfoldable pub encode_cursor : Text → Text → SortBoundary → SortBoundary → ApiResult Text
  encode_cursor kind filter_hash high_watermark after =
      let cursor : OpaqueCursor = record {
        version = cursor_version;
        kind = kind;
        filter_hash = filter_hash;
        high_watermark = high_watermark;
        after = after;
      } in
      ok_or (ext.to_vec cursor) internal >>= λ json. ok (ext.base64_encode json)

  -- The cursor of the next page, if there is one.
  unfoldable pub next_cursor {ℓ} :
      {T : Type ℓ}
      → Bool
      → List (T × SortBoundary)
      → Option SortBoundary
      → Text
      → Text
      → ApiResult (Option Text)
  unfolding encode_cursor
  next_cursor false rows high_watermark kind filter_hash = ok none
  next_cursor true rows high_watermark kind filter_hash =
      ok_or (Option.map (λ row. row.1) (last rows)) internal >>= λ after.
      ok_or high_watermark internal >>= λ high.
      encode_cursor kind filter_hash high after >>= λ encoded. ok (some encoded)

  unfoldable pub page_from_rows {ℓ} :
      {T : Type ℓ}
      → List (T × SortBoundary)
      → PageRequest
      → Text
      → Text
      → ApiResult (PaginatedResponse T)
  unfolding next_cursor
  page_from_rows rows page kind filter_hash =
      let high_watermark =
        or_else (Option.map (λ c. c.high_watermark) page.cursor)
          (Option.map (λ row. row.1) (first rows)) in
      let has_next = ltb page.limit (length rows) in
      let truncated = take page.limit rows in
      next_cursor has_next truncated high_watermark kind filter_hash >>= λ next. ok (record {
        items = map (λ row. row.0) truncated;
        next_cursor = next;
        high_watermark =
            Option.map (λ b. record { timestamp = b.timestamp; id = b.id }) high_watermark;
      })

-- The bounds that `append_descending_bounds` and `bind_descending_bounds` add to a query: whether
-- it selects a row.
unfoldable pub descending_bounds : PageRequest → SortBoundary → Bool
descending_bounds page boundary =
    Option.get_or
      (Option.map
        (λ cursor.
          is_at_or_before boundary cursor.high_watermark && is_before boundary cursor.after)
        page.cursor)
      true

-- The query of `list_tombstones` over the table in the order of its ORDER BY: one row more than
-- the page holds.
unfoldable pub select_page {ℓ} :
    {T : Type ℓ} → List (T × SortBoundary) → PageRequest → List (T × SortBoundary)
unfolding descending_bounds
select_page table page = take (page.limit + 1) (filter (λ row. descending_bounds page row.1) table)
