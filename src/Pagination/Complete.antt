-- ===== src/Pagination/Complete.antt =====
-- Following the cursors of a collection lists each of its rows once.
use mathlib.Core.Option
use patwari.Prelude.{
  All, List, Text, [], ap, arith, filter, first, leb, length, map, none, ok, refl, some, subst, suc,
  take, true, ℕ, ◌&&◌, ◌+◌, ◌>>=◌, ◌∷◌, ◌≡◌, ◌≤◌,
}
use patwari.Pagination.Order.{Descending, is_at_or_before_refl, is_before-is_at_or_before}
use patwari.Pagination.Steps.{walk-after, walk-step}
use patwari.Pagination.Walk.{IsCarried, IsCursorCode, walk}
use patwari.Pagination.{
  CursorExternal, SortBoundary, descending_bounds, is_at_or_before, is_before, max_page_limit,
  parse_page, select_page,
}

module _ {ℓ} {T : Type ℓ} where
  at_or_before-newest :
      (newest : T × SortBoundary) (older : List (T × SortBoundary))
      → All (λ r. is_before r.1 newest.1 ≡ true) older
      → All (λ r. is_at_or_before r.1 newest.1 ≡ true) older
  at_or_before-newest newest [] h = tt
  at_or_before-newest newest (r ∷ older) h =
      (is_before-is_at_or_before r.1 newest.1 h.0, at_or_before-newest newest older h.1)

  select_page-first :
      (limit : ℕ) (table : List (T × SortBoundary))
      → select_page table (record { limit = limit; cursor = none }) ≡ take (limit + 1) table
  unfolding select_page descending_bounds
  select_page-first limit table = ap (take (limit + 1)) (all_pass table)
    where
      all_pass : (l : List (T × SortBoundary)) → filter (λ r. true) l ≡ l
      all_pass [] = refl
      all_pass (r ∷ l) = ap (λ k. r ∷ k) (all_pass l)

  first-take_more :
      (n : ℕ) (x : T × SortBoundary) (l : List (T × SortBoundary))
      → Option.map (λ row. row.1) (first (take (n + 1) (x ∷ l))) ≡ some x.1
  first-take_more n x l =
      subst (λ m. Option.map (λ row. row.1) (first (take m (x ∷ l))) ≡ some x.1) {x = suc n}
        (omega arith) refl

-- A client that starts without a cursor and sends each returned cursor back gets every row that
-- the collection held at its first request, newest first and each once, and no error, although
-- newer rows are added between its requests. Assumed are a limit from 1 to 100, base64 and JSON
-- that read back what they wrote, rows in strictly descending order whose boundaries are valid and
-- whose cursors fit, and as many further requests as there are older rows.
pub walk_complete {ℓ} :
    {T : Type ℓ} (ext : CursorExternal) (kind filter_hash : Text)
    → IsCursorCode ext
    → (limit : ℕ) → 1 ≤ limit
    → limit ≤ max_page_limit
    → (newest : T × SortBoundary) (older : List (T × SortBoundary)) → Descending (newest ∷ older)
    → All (IsCarried ext kind filter_hash newest.1) (newest ∷ older)
    → (later : List (List (T × SortBoundary)))
    → All (λ t. filter (λ r. is_at_or_before r.1 newest.1) t ≡ newest ∷ older) later
    → length older ≤ length later
    → (parse_page ext (some limit) none kind filter_hash
        >>= walk ext kind filter_hash ((newest ∷ older) ∷ later))
      ≡ ok (map (λ row. row.0) (newest ∷ older))
unfolding parse_page
walk_complete ext kind filter_hash code limit low high newest older descending carried later f n =
    let range : (leb 1 limit && leb limit max_page_limit) ≡ true = ground arith in
    let bounded : All (λ r. is_at_or_before r.1 newest.1 ≡ true) (newest ∷ older) =
      (is_at_or_before_refl newest.1, at_or_before-newest newest older descending.0) in
    rw range (
      walk-step ext kind filter_hash code limit low high (record { limit = limit; cursor = none })
        newest.1 (newest ∷ older) later (newest ∷ older) carried.0.is_valid refl
        (first-take_more limit newest older) (select_page-first limit (newest ∷ older)) carried
        bounded
        (λ init y rest w s.
          walk-after ext kind filter_hash code limit low high newest.1 (newest ∷ older)
            carried.0.is_valid descending carried bounded later f init y rest w (omega arith)))
