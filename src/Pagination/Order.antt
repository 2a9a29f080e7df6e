-- ===== src/Pagination/Order.antt =====
-- The order of the rows, and what a query that is bounded by a cursor selects from them.
use patwari.Prelude.{
  All, List, [], ap, arith, false, filter, int_eq_refl, int_eq_iff, int_ltb-asym, int_ltb_irrefl,
  refl, text_leb_refl, text_leb-total, true, ◌++◌, ◌∷◌, ◌≡◌,
}
use patwari.Pagination.{SortBoundary, is_at_or_before, is_before}

pub is_before_irrefl : (b : SortBoundary) → is_before b b ≡ false
unfolding is_before
is_before_irrefl b =
    ground (arith, text_leb_refl b.id, int_ltb_irrefl b.sort_key, int_eq_refl b.sort_key)

pub is_before-asym : (a b : SortBoundary) → is_before a b ≡ true → is_before b a ≡ false
unfolding is_before
is_before-asym a b h = ground (
  arith,
  text_leb-total b.id a.id,
  int_ltb-asym a.sort_key b.sort_key,
  int_eq_iff a.sort_key b.sort_key,
  int_ltb-asym b.sort_key a.sort_key,
)

pub is_before-is_at_or_before :
    (a b : SortBoundary) → is_before a b ≡ true → is_at_or_before a b ≡ true
unfolding is_before is_at_or_before
is_before-is_at_or_before a b h = ground (arith, text_leb-total b.id a.id)

pub is_at_or_before_refl : (b : SortBoundary) → is_at_or_before b b ≡ true
unfolding is_at_or_before
is_at_or_before_refl b = ground (arith, text_leb_refl b.id, int_eq_refl b.sort_key)

module _ {ℓ} {T : Type ℓ} where
  -- The rows in the order that a query's ORDER BY gives: newest first, no two alike.
  abbrev pub Descending : List (T × SortBoundary) → Type 0
  Descending [] = Unit
  Descending (row ∷ rows) = All (λ r. is_before r.1 row.1 ≡ true) rows × Descending rows

  filter-none :
      (x : SortBoundary) (rows : List (T × SortBoundary))
      → All (λ r. is_before r.1 x ≡ true) rows
      → filter (λ r. is_before r.1 x) rows ≡ rows
  filter-none x [] h = refl
  filter-none x (r ∷ rows) h = rw h.0 (ap (λ l. r ∷ l) (filter-none x rows h.1))

  pub All-mid {κ} :
      (P : T × SortBoundary → Type κ) (done : List (T × SortBoundary)) (x : T × SortBoundary)
      (rest : List (T × SortBoundary))
      → All P (done ++ (x ∷ rest))
      → P x
  All-mid P [] x rest h = h.0
  All-mid P (d ∷ done) x rest h = All-mid P done x rest h.1

  -- The rows before one of the rows are those that follow it.
  pub filter-Descending :
      (done : List (T × SortBoundary)) (x : T × SortBoundary) (rest : List (T × SortBoundary))
      → Descending (done ++ (x ∷ rest))
      → filter (λ r. is_before r.1 x.1) (done ++ (x ∷ rest)) ≡ rest
  filter-Descending [] x rest h = rw (is_before_irrefl x.1) (filter-none x.1 rest h.0)
  filter-Descending (d ∷ done) x rest h =
      rw (is_before-asym x.1 d.1 (All-mid _ done x rest h.0)) (filter-Descending done x rest h.1)
