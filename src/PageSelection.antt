-- ===== src/PageSelection.antt =====
-- The `--pages` syntax and its resolution (opdf-cli/src/range.rs). A text is the list of its code
-- points; a `usize` has 64 bits.
pub mod Sorting
pub mod Resolving
pub mod Runs
pub mod Parsing
use open_pdf_editor.Base.{
  ℕ, zero, suc, ◌+◌, ◌-◌, ◌*◌, ◌^◌, Bool, true, false, ◌&&◌, ◌||◌, not, Option, none, some, List,
  [], ◌∷◌, ◌++◌, reverse, ltb, leb, ◌==◌, if◌then◌else◌,
}
use open_pdf_editor.Error.{
  Result, ok, err, ◌>>=◌, Error, unsupported, invalid_range, index_out_of_bounds,
}

pub record SelectionPart : Type 0 where
  pub first : ℕ
  pub last : Option ℕ

-- The White_Space property of Unicode, which `str::trim` goes by.
is_whitespace : ℕ → Bool
is_whitespace c =
    leb 9 c && leb c 13
    || (c == 0x20
        || (c == 0x85
            || (c == 0xa0
                || (c == 0x1680
                    || (leb 0x2000 c && leb c 0x200a
                        || (c == 0x2028
                            || (c == 0x2029 || (c == 0x202f || (c == 0x205f || c == 0x3000)))))))))

trim_start : List ℕ → List ℕ
unfolding is_whitespace
trim_start [] = []
trim_start (c ∷ cs) = if is_whitespace c then trim_start cs else c ∷ cs

trim : List ℕ → List ℕ
unfolding trim_start
trim cs = reverse (trim_start (reverse (trim_start cs)))

-- `split`: the text before the first separator is put in front of what the rest splits into.
cons_first : ℕ → List (List ℕ) → List (List ℕ)
cons_first c [] = (c ∷ []) ∷ []
cons_first c (part ∷ parts) = (c ∷ part) ∷ parts

split : ℕ → List ℕ → List (List ℕ)
unfolding cons_first
split sep [] = [] ∷ []
split sep (c ∷ cs) = let rest = split sep cs in if c == sep then [] ∷ rest else cons_first c rest

-- `split_once`
split_once : ℕ → List ℕ → Option (List ℕ × List ℕ)
split_once sep [] = none
split_once sep (c ∷ cs) =
    let rest = split_once sep cs in
    if c == sep
    then some ([], cs)
    else elim rest [ none ↦ none | some (before, after) ↦ some (c ∷ before, after) ]

contains : ℕ → List ℕ → Bool
contains sep [] = false
contains sep (c ∷ cs) = c == sep || contains sep cs

is_ascii_digit : ℕ → Bool
is_ascii_digit c = leb b'0' c && leb c b'9'

all_digits : List ℕ → Bool
unfolding is_ascii_digit
all_digits [] = true
all_digits (c ∷ cs) = is_ascii_digit c && all_digits cs

abbrev pub usize_bound : ℕ
usize_bound = 2 ^ 64

-- `str::parse::<usize>` on digits: `none` on overflow
parse_digits : ℕ → List ℕ → Option ℕ
parse_digits acc [] = some acc
parse_digits acc (c ∷ cs) =
    let next = acc * 10 + (c - b'0') in
    let rest = parse_digits next cs in if ltb next usize_bound then rest else none

non_zero : ℕ → Result ℕ
non_zero n = if n == 0 then err unsupported else ok n

is_empty : {A : Type 0} → List A → Bool
is_empty [] = true
is_empty (x ∷ xs) = false

parse_page_number : List ℕ → Result ℕ
unfolding non_zero is_empty all_digits parse_digits
parse_page_number text =
    if is_empty text || not (all_digits text)
    then err unsupported
    else elim (parse_digits 0 text) [ none ↦ err unsupported | some n ↦ non_zero n ]

-- the last case of `parse_part`
parse_closed : List ℕ → List ℕ → Result SelectionPart
unfolding parse_page_number
parse_closed start end = do
  first ← parse_page_number start
  last ← parse_page_number end
  if ltb last first
      then err (invalid_range first last)
      else ok (record { first = first; last = some last })

-- the `match` on the two trimmed sides
parse_ends : List ℕ → List ℕ → Result SelectionPart
unfolding parse_closed
parse_ends [] [] = err unsupported
parse_ends [] (c ∷ cs) = do
  last ← parse_page_number (c ∷ cs)
  ok (record { first = 1; last = some last })
parse_ends (c ∷ cs) [] = do
  first ← parse_page_number (c ∷ cs)
  ok (record { first = first; last = none })
parse_ends (c ∷ cs) (e ∷ es) = parse_closed (c ∷ cs) (e ∷ es)

parse_single : List ℕ → Result SelectionPart
unfolding parse_page_number
parse_single part = do n ← parse_page_number part; ok (record { first = n; last = some n })

parse_part : List ℕ → Result SelectionPart
unfolding parse_single parse_ends split_once contains trim is_empty
parse_part part = if is_empty part then err unsupported else elim (split_once b'-' part) [
  | none ↦ parse_single part
  | some (before, after) ↦
      if contains b'-' after then err unsupported else parse_ends (trim before) (trim after)
]

parse_parts : List (List ℕ) → Result (List SelectionPart)
unfolding parse_part
parse_parts [] = ok []
parse_parts (raw ∷ raws) = do
  part ← parse_part (trim raw)
  parts ← parse_parts raws
  ok (part ∷ parts)

-- `PageSelection::parse`; a selection is its parts
unfoldable pub parse : List ℕ → Result (List SelectionPart)
unfolding parse_parts split
parse text =
    let trimmed = trim text in
    if is_empty trimmed then err unsupported else parse_parts (split b',' trimmed)

abbrev pub last_or : ℕ → SelectionPart → ℕ
last_or page_count part = elim part.last [ none ↦ page_count | some last ↦ last ]

-- the page numbers of `first..=last` less one, `count` of them
unfoldable pub indices_from : ℕ → ℕ → List ℕ
indices_from i zero = []
indices_from i (suc count) = i ∷ indices_from (i + 1) count

-- one round of the loop of `resolve`; a parsed part starts at 1 or more
unfoldable pub part_indices : ℕ → SelectionPart → Result (List ℕ)
unfolding indices_from
part_indices page_count part =
    let last = last_or page_count part in
    if ltb page_count part.first
    then err (index_out_of_bounds part.first page_count)
    else if ltb page_count last
    then err (index_out_of_bounds last page_count)
    else ok (indices_from (part.first - 1) (last + 1 - part.first))

unfoldable pub all_indices : ℕ → List SelectionPart → Result (List ℕ)
unfolding part_indices
all_indices page_count [] = ok []
all_indices page_count (part ∷ parts) = do
  here ← part_indices page_count part
  rest ← all_indices page_count parts
  ok (here ++ rest)

-- `sort_unstable` on numbers, where every sort gives the same list
unfoldable pub insert_sorted : ℕ → List ℕ → List ℕ
insert_sorted x [] = x ∷ []
insert_sorted x (y ∷ ys) = if leb x y then x ∷ y ∷ ys else y ∷ insert_sorted x ys

unfoldable pub sort : List ℕ → List ℕ
unfolding insert_sorted
sort [] = []
sort (x ∷ xs) = insert_sorted x (sort xs)

-- `dedup`: of equal neighbours the first stays
unfoldable pub dedup_after : ℕ → List ℕ → List ℕ
dedup_after x [] = []
dedup_after x (y ∷ ys) = let rest = dedup_after y ys in if x == y then rest else y ∷ rest

unfoldable pub dedup : List ℕ → List ℕ
unfolding dedup_after
dedup [] = []
dedup (x ∷ xs) = x ∷ dedup_after x xs

some_indices : List ℕ → Result (List ℕ)
some_indices [] = err unsupported
some_indices (i ∷ is) = ok (i ∷ is)

unfoldable pub resolve : List SelectionPart → ℕ → Result (List ℕ)
unfolding some_indices
resolve parts page_count = do
  indices ← all_indices page_count parts
  some_indices (dedup (sort indices))

-- `contiguous_runs`, with the runs so far as a stack, the open one on top
unfoldable pub add_index : List (ℕ × ℕ) → ℕ → List (ℕ × ℕ)
add_index [] index = (index, index + 1) ∷ []
add_index ((start, end) ∷ runs) index =
    if end == index then (start, index + 1) ∷ runs else (index, index + 1) ∷ (start, end) ∷ runs

unfoldable pub add_indices : List (ℕ × ℕ) → List ℕ → List (ℕ × ℕ)
unfolding add_index
add_indices runs [] = runs
add_indices runs (index ∷ indices) = add_indices (add_index runs index) indices

unfoldable pub contiguous_runs : List ℕ → List (ℕ × ℕ)
unfolding add_indices
contiguous_runs indices = reverse (add_indices [] indices)
