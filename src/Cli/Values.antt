-- ===== src/Cli/Values.antt =====
-- The flags' names and the values they take (opdf-cli/src/args.rs).
use open_pdf_editor.Base.{
  ℕ, ◌+◌, ◌-◌, ◌*◌, ◌^◌, ◌&&◌, List, [], ◌∷◌, Option, none, some, ltb, leb, ◌==◌, if◌then◌else◌,
}
use open_pdf_editor.Base.Int.{ℤ, pos, negsuc}
use open_pdf_editor.Page.{Rotation, from_degrees}
use open_pdf_editor.PageSelection.{SelectionPart, parse, usize_bound}
use open_pdf_editor.Cli.{
  Text, OsString, to_str, Attempt, success, failure, map_err, ◌>>=◌, usage, argument, not_text,
  not_degrees, not_page_number, zero_page,
}

abbrev pub force : Text
force = b'f' ∷ b'o' ∷ b'r' ∷ b'c' ∷ b'e' ∷ []

abbrev pub at : Text
at = b'a' ∷ b't' ∷ []

abbrev pub out : Text
out = b'o' ∷ b'u' ∷ b't' ∷ []

abbrev pub out_a : Text
out_a = b'o' ∷ b'u' ∷ b't' ∷ b'-' ∷ b'a' ∷ []

abbrev pub out_b : Text
out_b = b'o' ∷ b'u' ∷ b't' ∷ b'-' ∷ b'b' ∷ []

abbrev pub pages : Text
pages = b'p' ∷ b'a' ∷ b'g' ∷ b'e' ∷ b's' ∷ []

abbrev pub degrees : Text
degrees = b'd' ∷ b'e' ∷ b'g' ∷ b'r' ∷ b'e' ∷ b'e' ∷ b's' ∷ []

-- `str::parse` of an unsigned number, from its first digit: `none` where a character is not a digit,
-- and where the number reaches `bound`
unfoldable pub parse_magnitude : ℕ → ℕ → Text → Option ℕ
parse_magnitude bound acc [] = some acc
parse_magnitude bound acc (c ∷ cs) =
    let next = acc * 10 + (c - b'0') in
    let rest = parse_magnitude bound next cs in
    if leb b'0' c && leb c b'9' && ltb next bound then rest else none

unfoldable pub parse_number : ℕ → Text → Option ℕ
unfolding parse_magnitude
parse_number bound [] = none
parse_number bound (c ∷ cs) = parse_magnitude bound 0 (c ∷ cs)

-- `str::parse::<usize>`, which takes a plus sign
unfoldable pub parse_usize : Text → Option ℕ
unfolding parse_number
parse_usize [] = none
parse_usize (c ∷ cs) =
    if c == b'+' then parse_number usize_bound cs else parse_number usize_bound (c ∷ cs)

abbrev negate : ℕ → ℤ
negate n = if n == 0 then pos 0 else negsuc (n - 1)

-- `str::parse::<i32>`
unfoldable pub parse_i32 : Text → Option ℤ
unfolding parse_number
parse_i32 [] = none
parse_i32 (c ∷ cs) =
    if c == b'-'
    then elim (parse_number (2 ^ 31 + 1) cs) [ none ↦ none | some n ↦ some (negate n) ]
    else elim (parse_number (2 ^ 31) (if c == b'+' then cs else c ∷ cs)) [
      | none ↦ none
      | some n ↦ some (pos n)
    ]

unfoldable pub read_text : OsString → Text → Attempt Text
read_text value name = elim (to_str value) [
  | none ↦ failure (usage (not_text name))
  | some t ↦ success t
]

unfoldable pub read_pages : OsString → Attempt (List SelectionPart)
unfolding read_text
read_pages value = read_text value pages >>= λ t. map_err (argument pages) (parse t)

unfoldable pub read_rotation : OsString → Attempt Rotation
unfolding read_text
read_rotation value = read_text value degrees >>= λ t. elim (parse_i32 t) [
  | none ↦ failure (usage (not_degrees t))
  | some d ↦ map_err (argument degrees) (from_degrees d)
]

unfoldable pub read_page_number : OsString → Attempt ℕ
unfolding read_text
read_page_number value = read_text value at >>= λ t. elim (parse_usize t) [
  | none ↦ failure (usage (not_page_number t))
  | some n ↦ if n == 0 then failure (usage zero_page) else success n
]
