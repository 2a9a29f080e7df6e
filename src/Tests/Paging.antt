-- ===== src/Tests/Paging.antt =====
-- A client that walks through three rows while a fourth is added
-- (crates/patwari-server/src/pagination.rs). A cursor is written as its fields in turn, each text
-- after its length.
use mathlib.Core.Option
use patwari.Prelude.{
  ◌>>=◌, List, Option, Text, [], ap, arith, bytes, drop, leb, length, negsuc, none, ok, pos, refl,
  some, subst, suc, take, text_eq, text_leb, true, zero, ℕ, ℤ, ◌*◌, ◌++◌, ◌∷◌, ◌≡◌,
}
use patwari.Pagination.Complete.{walk_complete}
use patwari.Pagination.Walk.{IsCarried, IsCursorCode, cursor_at, walk}
use patwari.Pagination.{
  CursorExternal, OpaqueCursor, SortBoundary, is_at_or_before, is_before, parse_page,
  sort_key_from_timestamp, validate_boundary,
}

put_text : Text → Text → Text
put_text t rest = length t ∷ (t ++ rest)

put_int : ℤ → Text → Text
put_int (pos n) rest = 0 ∷ n ∷ rest
put_int (negsuc n) rest = 1 ∷ n ∷ rest

put_boundary : SortBoundary → Text → Text
put_boundary b rest = put_int b.sort_key (put_text b.timestamp (put_text b.id rest))

write : OpaqueCursor → Text
write c =
    c.version
    ∷ put_text c.kind
        (put_text c.filter_hash (put_boundary c.high_watermark (put_boundary c.after [])))

get_text : Text → Text × Text
get_text [] = ([], [])
get_text (n ∷ s) = (take n s, drop n s)

get_int : Text → ℤ × Text
get_int (zero ∷ n ∷ s) = (pos n, s)
get_int (suc k ∷ n ∷ s) = (negsuc n, s)
get_int s = (pos 0, s)

get_boundary : Text → SortBoundary × Text
get_boundary s =
    let k = get_int s in
    let t = get_text k.1 in
    let i = get_text t.1 in (record { sort_key = k.0; timestamp = t.0; id = i.0 }, i.1)

read : Text → Option OpaqueCursor
read [] = none
read (v ∷ s) =
    let k = get_text s in
    let f = get_text k.1 in
    let h = get_boundary f.1 in
    let a = get_boundary h.1 in
    some (record { version = v; kind = k.0; filter_hash = f.0; high_watermark = h.0; after = a.0 })

get-put_text : (t rest : Text) → get_text (put_text t rest) ≡ (t, rest)
unfolding get_text put_text
get-put_text [] rest = refl
get-put_text (c ∷ t) rest = ap (λ p. (c ∷ p.0, p.1)) (get-put_text t rest)

get-put_int : (k : ℤ) (rest : Text) → get_int (put_int k rest) ≡ (k, rest)
unfolding get_int put_int
get-put_int (pos n) rest = refl
get-put_int (negsuc n) rest = refl

get-put_boundary : (b : SortBoundary) (rest : Text) → get_boundary (put_boundary b rest) ≡ (b, rest)
unfolding get_boundary put_boundary
get-put_boundary b rest =
    rw (get-put_int b.sort_key (put_text b.timestamp (put_text b.id rest)))
      (rw (get-put_text b.timestamp (put_text b.id rest)) (rw (get-put_text b.id rest) refl))

read-write : (c : OpaqueCursor) → read (write c) ≡ some c
unfolding read write
read-write c =
    rw
      (get-put_text c.kind
        (put_text c.filter_hash (put_boundary c.high_watermark (put_boundary c.after []))))
      (rw (get-put_text c.filter_hash (put_boundary c.high_watermark (put_boundary c.after []))) (
        rw (get-put_boundary c.high_watermark (put_boundary c.after []))
          (rw (get-put_boundary c.after []) refl)))

-- A time is its text; it stands as many microseconds after the epoch as the text is long.
abbrev codes : CursorExternal
codes = record {
  Time = Text;
  parse_time = some;
  format_utc = some;
  unix_timestamp_nanos = λ t. pos (length t * 1000);
  Uuid = Text;
  parse_str = some;
  to_string = λ t. t;
  get_version_num = λ t. 7;
  to_vec = λ c. some (write c);
  from_slice = read;
  base64_encode = λ t. t;
  base64_decode = some;
}

codes-IsCursorCode : IsCursorCode codes
codes-IsCursorCode = record {
  decode-encode = λ b. refl;
  from_slice-to_vec =
      λ c {j} e. subst (λ t. read t ≡ some c) (ap (λ o. Option.get_or o []) e) (read-write c);
}

abbrev row : Text → ℕ × SortBoundary
row stamp =
    (length stamp, record { sort_key = pos (length stamp); timestamp = stamp; id = bytes "id" })

abbrev newest : ℕ × SortBoundary
newest = row (bytes "ccc")

abbrev older : List (ℕ × SortBoundary)
older = row (bytes "bb") ∷ row (bytes "a") ∷ []

abbrev grown : List (ℕ × SortBoundary)
grown = row (bytes "dddd") ∷ newest ∷ older

carried :
    (r : ℕ × SortBoundary)
    → validate_boundary codes r.1 ≡ ok tt
    → leb (length (write (cursor_at (bytes "tombstones") (bytes "hash") newest.1 r.1))) 2048 ≡ true
    → IsCarried codes (bytes "tombstones") (bytes "hash") newest.1 r
carried r v f = record {
  is_valid = v;
  json = write (cursor_at (bytes "tombstones") (bytes "hash") newest.1 r.1);
  written = refl;
  fits = f;
}

walk_complete_example :
    (parse_page codes (some 1) none (bytes "tombstones") (bytes "hash")
      >>= walk codes (bytes "tombstones") (bytes "hash") ((newest ∷ older) ∷ grown ∷ grown ∷ []))
    ≡ ok (3 ∷ 2 ∷ 1 ∷ [])
unfolding validate_boundary sort_key_from_timestamp is_before is_at_or_before text_leb text_eq write
    put_boundary put_text put_int
walk_complete_example =
    walk_complete codes (bytes "tombstones") (bytes "hash") codes-IsCursorCode 1 (omega arith)
      (omega arith) newest older ((refl, (refl, tt)), ((refl, tt), (tt, tt)))
      (
        carried newest refl refl,
        (carried (row (bytes "bb")) refl refl, (carried (row (bytes "a")) refl refl, tt)),
      )
      (grown ∷ grown ∷ []) (refl, (refl, tt)) (omega arith)
