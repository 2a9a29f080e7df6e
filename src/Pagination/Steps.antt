-- ===== src/Pagination/Steps.antt =====
-- One request of a client that follows the cursors, and all those after a given row.
use mathlib.Core.Option
use patwari.Prelude.{
  All, Bool, Bool-cases, List, Text, [], ap, append_assoc, arith, false, filter, first, inl, inr,
  last, leb, length, length-take_more, ltb, map, none, ok, refl, some, subst, sym, take, take-all,
  take-snoc, take-take_more, text_eq_iff, true, ℕ, ◌&&◌, ◌++◌, ◌+◌, ◌∙◌, ◌∷◌, ◌≡◌, ◌≤◌,
}
use patwari.Pagination.Order.{All-mid, Descending, filter-Descending}
use patwari.Pagination.Walk.{IsCarried, IsCursorCode, cursor_at, walk, walk-last, walk-next}
use patwari.Pagination.{
  CursorExternal, PageRequest, PaginatedResponse, SortBoundary, descending_bounds, encode_cursor,
  is_at_or_before, is_before, max_cursor_bytes, max_page_limit, next_cursor, or_else,
  page_from_rows, parse_cursor, parse_page, select_page, validate_boundary,
}

module _ {ℓ} {T : Type ℓ} (ext : CursorExternal) (kind filter_hash : Text) (code : IsCursorCode ext)
    (limit : ℕ) (at_least : 1 ≤ limit) (at_most : limit ≤ max_page_limit) where
  encode_cursor-IsCarried :
      (high : SortBoundary) (row : T × SortBoundary)
      → (c : IsCarried ext kind filter_hash high row)
      → encode_cursor ext kind filter_hash high row.1 ≡ ok (ext.base64_encode c.json)
  unfolding encode_cursor
  encode_cursor-IsCarried high row c = rw c.written refl

  parse_cursor-IsCarried :
      (high : SortBoundary) (row : T × SortBoundary)
      → (c : IsCarried ext kind filter_hash high row) → validate_boundary ext high ≡ ok tt
      → is_at_or_before row.1 high ≡ true
      → parse_cursor ext (ext.base64_encode c.json) kind filter_hash
        ≡ ok (cursor_at kind filter_hash high row.1)
  unfolding parse_cursor
  parse_cursor-IsCarried high row c v b =
      let short : ltb max_cursor_bytes (length (ext.base64_encode c.json)) ≡ false =
        ground (arith, c.fits) in
      rw short (
        rw (code.decode-encode c.json) (
          rw (code.from_slice-to_vec _ c.written) (
            rw ((text_eq_iff kind kind).1 refl) (
              rw ((text_eq_iff filter_hash filter_hash).1 refl)
                (rw v (rw c.is_valid (rw b refl)))))))

  parse_page-IsCarried :
      (high : SortBoundary) (row : T × SortBoundary)
      → (c : IsCarried ext kind filter_hash high row) → validate_boundary ext high ≡ ok tt
      → is_at_or_before row.1 high ≡ true
      → parse_page ext (some limit) (some (ext.base64_encode c.json)) kind filter_hash
        ≡ ok (record { limit = limit; cursor = some (cursor_at kind filter_hash high row.1) })
  unfolding parse_page
  parse_page-IsCarried high row c v b =
      let range : (leb 1 limit && leb limit max_page_limit) ≡ true = ground arith in
      rw range (rw (parse_cursor-IsCarried high row c v b) refl)

  -- The request that continues after a row.
  abbrev request_after : SortBoundary → T × SortBoundary → PageRequest
  request_after high row = record {
    limit = limit;
    cursor = some (cursor_at kind filter_hash high row.1);
  }

  -- The rows that the request after a row selects, if only newer rows were added.
  select_page-after :
      (high : SortBoundary) (table done : List (T × SortBoundary)) (x : T × SortBoundary)
      (rest added : List (T × SortBoundary))
      → table ≡ done ++ (x ∷ rest)
      → Descending table
      → filter (λ r. is_at_or_before r.1 high) added ≡ table
      → select_page added (request_after high x) ≡ take (limit + 1) rest
  unfolding select_page descending_bounds
  select_page-after high table done x rest added e d f = ap (take (limit + 1)) (
      filter-both (λ r. is_at_or_before r.1 high) (λ r. is_before r.1 x.1) added
      ∙ ap (filter (λ r. is_before r.1 x.1)) (f ∙ e)
      ∙ filter-Descending done x rest (subst Descending e d))
    where
      filter-both :
          (p q : T × SortBoundary → Bool) (l : List (T × SortBoundary))
          → filter (λ r. p r && q r) l ≡ filter q (filter p l)
      filter-both p q [] = refl
      filter-both p q (r ∷ l) = ground (arith, filter-both p q l)

  -- A page that holds all that was selected is the last.
  page_from_rows-last :
      (page : PageRequest) (rows : List (T × SortBoundary))
      → page.limit ≡ limit
      → ltb limit (length rows) ≡ false
      → (response : PaginatedResponse T) × (page_from_rows ext
            (take (limit + 1) rows)
            page
            kind
            filter_hash
          ≡ ok response)
        × (response.next_cursor ≡ none)
        × (response.items ≡ map (λ row. row.0) rows)
  unfolding page_from_rows next_cursor
  page_from_rows-last page rows l s =
      let short : length rows ≤ limit = ground arith in
      rw l (
        rw (length-take_more limit rows) (
          rw s (
            rw (take-take_more limit rows) (rw (take-all limit rows short) (_, refl, refl, refl)))))

  -- A page that leaves rows out has the cursor of its last row.
  page_from_rows-next :
      (page : PageRequest) (high : SortBoundary) (rows : List (T × SortBoundary))
      (y : T × SortBoundary)
      → (c : IsCarried ext kind filter_hash high y) → page.limit ≡ limit
      → or_else
          (Option.map (λ k. k.high_watermark) page.cursor)
          (Option.map (λ row. row.1) (first (take (limit + 1) rows)))
        ≡ some high
      → ltb limit (length rows) ≡ true
      → last (take limit rows) ≡ some y
      → (response : PaginatedResponse T) × (page_from_rows ext
            (take (limit + 1) rows)
            page
            kind
            filter_hash
          ≡ ok response)
        × (response.next_cursor ≡ some (ext.base64_encode c.json))
        × (response.items ≡ map (λ row. row.0) (take limit rows))
  unfolding page_from_rows next_cursor
  page_from_rows-next page high rows y c l h s e = rw l (
      rw (length-take_more limit rows) (
        rw s (
          rw h (
            rw (take-take_more limit rows)
              (rw e (rw (encode_cursor-IsCarried high y c) (_, refl, refl, refl)))))))

  -- One request, if the client gets the rest when it goes on after the page's last row.
  pub walk-step :
      (page : PageRequest) (high : SortBoundary) (added : List (T × SortBoundary))
      (later : List (List (T × SortBoundary))) (rows : List (T × SortBoundary))
      → validate_boundary ext high ≡ ok tt
      → page.limit ≡ limit
      → or_else
          (Option.map (λ k. k.high_watermark) page.cursor)
          (Option.map (λ row. row.1) (first (take (limit + 1) rows)))
        ≡ some high
      → select_page added page ≡ take (limit + 1) rows
      → All (IsCarried ext kind filter_hash high) rows
      → All (λ r. is_at_or_before r.1 high ≡ true) rows
      → ((init : List (T × SortBoundary)) (y : T × SortBoundary) (rest : List (T × SortBoundary))
          → rows ≡ init ++ (y ∷ rest)
          → length rest + 1 ≤ length rows
          → walk ext kind filter_hash later (request_after high y) ≡ ok (map (λ row. row.0) rest))
      → walk ext kind filter_hash (added ∷ later) page ≡ ok (map (λ row. row.0) rows)
  walk-step page high added later rows v l h s c b k = elim (Bool-cases (ltb limit (length rows))) [
    | inr less ↦
        let (response, p, n, i) = page_from_rows-last page rows l less in
        walk-last ext kind filter_hash added later page response (rw s p) n ∙ ap ok i
    | inl more ↦
        let (init, y, rest, t, e, whole, shorter) = take-snoc limit rows at_least (ground arith) in
        let carried =
          All-mid _ init y rest (subst (All (IsCarried ext kind filter_hash high)) whole c) in
        let (response, p, n, i) = page_from_rows-next page high rows y carried l h more e in
        let before =
          All-mid _ init y rest (subst (All (λ r. is_at_or_before r.1 high ≡ true)) whole b) in
        let items : (response.items ++ map (λ row. row.0) rest) ≡ map (λ row. row.0) rows =
          rw i (rw t (rw whole (items_of init y rest))) in
        walk-next ext kind filter_hash added later page response (ext.base64_encode carried.json)
          (request_after high y) (map (λ row. row.0) rest) (rw s p) n
          (rw l (parse_page-IsCarried high y carried v before)) (k init y rest whole shorter)
        ∙ ap ok items
  ]
    where
      items_of :
          (init : List (T × SortBoundary)) (y : T × SortBoundary) (rest : List (T × SortBoundary))
          → (map (λ row. row.0) (init ++ (y ∷ [])) ++ map (λ row. row.0) rest)
            ≡ map (λ row. row.0) (init ++ (y ∷ rest))
      items_of [] y rest = refl
      items_of (z ∷ init) y rest = ap (λ l. z.0 ∷ l) (items_of init y rest)

  module _ (high : SortBoundary) (table : List (T × SortBoundary))
      (valid : validate_boundary ext high ≡ ok tt) (descending : Descending table)
      (carried : All (IsCarried ext kind filter_hash high) table)
      (bounded : All (λ r. is_at_or_before r.1 high ≡ true) table) where
    suffix {κ} :
        (P : T × SortBoundary → Type κ) (done rows : List (T × SortBoundary))
        → All P (done ++ rows)
        → All P rows
    suffix P [] rows a = a
    suffix P (d ∷ done) rows a = suffix P done rows a.1

    -- From a row of the collection on, the client gets the rows that follow it.
    pub walk-after :
        (later : List (List (T × SortBoundary)))
        → All (λ t. filter (λ r. is_at_or_before r.1 high) t ≡ table) later
        → (done : List (T × SortBoundary)) (x : T × SortBoundary) (rest : List (T × SortBoundary))
        → table ≡ done ++ (x ∷ rest)
        → length rest ≤ length later
        → walk ext kind filter_hash later (request_after high x) ≡ ok (map (λ row. row.0) rest)
    unfolding walk
    walk-after [] f done x [] e n = refl
    walk-after [] f done x (r ∷ rest) e n = ground arith
    walk-after (added ∷ later) f done x rest e n =
        let follows = sym (append_assoc done (x ∷ []) rest) in
        walk-step (request_after high x) high added later rest valid refl refl
          (select_page-after high table done x rest added e descending f.0)
          (suffix _ (done ++ (x ∷ [])) rest
            (subst (All (IsCarried ext kind filter_hash high)) (e ∙ follows) carried))
          (suffix _ (done ++ (x ∷ [])) rest
            (subst (All (λ r. is_at_or_before r.1 high ≡ true)) (e ∙ follows) bounded))
          (λ init y rest' w s.
            walk-after later f.1 ((done ++ (x ∷ [])) ++ init) y rest'
              (e
                ∙ follows
                ∙ ap (λ l. (done ++ (x ∷ [])) ++ l) w
                ∙ sym (append_assoc (done ++ (x ∷ [])) init (y ∷ rest')))
              (omega arith))
