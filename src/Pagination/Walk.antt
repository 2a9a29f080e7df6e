-- ===== src/Pagination/Walk.antt =====
-- A client that follows the cursors of a collection (crates/patwari-server/src/pagination.rs,
-- `list_tombstones` of crates/patwari-server/src/deletion.rs), while rows are added to it.
use patwari.Prelude.{
  ApiResult, List, Text, [], leb, length, none, ok, refl, some, true, ◌++◌, ◌>>=◌, ◌∷◌, ◌≡◌,
}
use patwari.Pagination.{
  CursorExternal, OpaqueCursor, PageRequest, PaginatedResponse, SortBoundary, max_cursor_bytes,
  page_from_rows, parse_page, select_page, validate_boundary,
}

module _ {ℓ} {T : Type ℓ} (ext : CursorExternal) (kind filter_hash : Text) where
  -- One request after another, each with the cursor of the response before it; `tables` is the
  -- collection that each request finds. The client stops when no cursor is returned, or when it
  -- has made all its requests.
  unfoldable pub walk : List (List (T × SortBoundary)) → PageRequest → ApiResult (List T)
  unfolding page_from_rows parse_page select_page
  walk [] page = ok []
  walk (table ∷ later) page =
      page_from_rows ext (select_page table page) page kind filter_hash >>= λ response.
      elim response.next_cursor [
        | none ↦ ok response.items
        | some cursor ↦ parse_page ext (some page.limit) (some cursor) kind filter_hash >>= λ next.
            walk later next >>= λ rest. ok (response.items ++ rest)
      ]

  pub walk-last :
      (table : List (T × SortBoundary)) (later : List (List (T × SortBoundary)))
      (page : PageRequest) (response : PaginatedResponse T)
      → page_from_rows ext (select_page table page) page kind filter_hash ≡ ok response
      → response.next_cursor ≡ none
      → walk (table ∷ later) page ≡ ok response.items
  unfolding walk
  walk-last table later page response p n = rw p (rw n refl)

  pub walk-next :
      (table : List (T × SortBoundary)) (later : List (List (T × SortBoundary)))
      (page : PageRequest) (response : PaginatedResponse T) (cursor : Text) (next : PageRequest)
      (rest : List T)
      → page_from_rows ext (select_page table page) page kind filter_hash ≡ ok response
      → response.next_cursor ≡ some cursor
      → parse_page ext (some page.limit) (some cursor) kind filter_hash ≡ ok next
      → walk later next ≡ ok rest
      → walk (table ∷ later) page ≡ ok (response.items ++ rest)
  unfolding walk
  walk-next table later page response cursor next rest p n q w = rw p (rw n (rw q (rw w refl)))

-- What base64 and JSON document: a cursor that is written is read back.
pub record IsCursorCode (ext : CursorExternal) : Type 0 where
  pub decode-encode : (b : Text) → ext.base64_decode (ext.base64_encode b) ≡ some b
  pub from_slice-to_vec :
      (c : OpaqueCursor) {j : Text} → ext.to_vec c ≡ some j → ext.from_slice j ≡ some c

-- The cursor that a page's last row is returned with.
abbrev pub cursor_at : Text → Text → SortBoundary → SortBoundary → OpaqueCursor
cursor_at kind filter_hash high after = record {
  version = 1;
  kind = kind;
  filter_hash = filter_hash;
  high_watermark = high;
  after = after;
}

-- A row whose timestamp, sort key and id are as the server writes them, and whose cursor fits.
pub record IsCarried {ℓ} {T : Type ℓ} (ext : CursorExternal) (kind filter_hash : Text)
    (high : SortBoundary) (row : T × SortBoundary) : Type 0 where
  pub is_valid : validate_boundary ext row.1 ≡ ok tt
  pub json : Text
  pub written : ext.to_vec (cursor_at kind filter_hash high row.1) ≡ some json
  pub fits : leb (length (ext.base64_encode json)) max_cursor_bytes ≡ true
