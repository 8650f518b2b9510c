-- ===== src/PageSelection/Parsing.antt =====
-- What parsing a selection guarantees.
use open_pdf_editor.Base.{
  subst, ℕ, ◌+◌, ◌-◌, ◌*◌, ◌≤◌, ◌<◌, ◌≡◌, inl, inr, some, List, [], ◌∷◌, All, arith, ltb,
  Bool-cases, Option-cases,
}
use open_pdf_editor.Error.{ok, Result-cases}
use open_pdf_editor.PageSelection.{
  SelectionPart, trim, split, split_once, contains, is_empty, parse_digits, usize_bound,
  parse_page_number, parse_closed, parse_ends, parse_single, parse_part, parse_parts, parse,
}
use open_pdf_editor.PageSelection.Resolving.{WellFormed}

parse_digits-lt :
    (acc : ℕ) (cs : List ℕ) {n : ℕ}
    → acc < usize_bound
    → parse_digits acc cs ≡ some n
    → n < usize_bound
unfolding parse_digits
parse_digits-lt acc [] h e = ground arith
parse_digits-lt acc (c ∷ cs) {n} h e = elim (Bool-cases (ltb (acc * 10 + (c - b'0')) usize_bound)) [
  | inl fits ↦
      parse_digits-lt (acc * 10 + (c - b'0')) cs (ground arith) (rw (fits, parse_digits) at e)
  | inr over ↦ absurd (ground arith)
]

-- A page number is at least 1 and fits a `usize`.
parse_page_number-ok :
    (text : List ℕ) {n : ℕ} → parse_page_number text ≡ ok n → (1 ≤ n) × (n < usize_bound)
unfolding parse_page_number
parse_page_number-ok text {n} e = elim (Option-cases (parse_digits 0 text)) [
  | inl over ↦ absurd (ground arith)
  | inr (m, f) ↦
      let b = parse_digits-lt 0 text {n = m} (omega arith) f in (ground arith, ground arith)
]

-- A closed part holds page numbers of a `usize`, in order.
abbrev pub Bounded : SelectionPart → Type 0
Bounded part =
    (part.first < usize_bound) × ((last : ℕ) → part.last ≡ some last → last < usize_bound)

abbrev pub IsParsed : SelectionPart → Type 0
IsParsed part = WellFormed part × Bounded part

parse_closed-ok :
    (start end : List ℕ) {part : SelectionPart} → parse_closed start end ≡ ok part → IsParsed part
unfolding parse_closed
parse_closed-ok start end h = elim (Result-cases (parse_page_number start)) [
  | inr (x, e) ↦ absurd (ground arith)
  | inl (first, e) ↦ elim (Result-cases (parse_page_number end)) [
    | inr (x, f) ↦ absurd (ground arith)
    | inl (last, f) ↦
        let a = parse_page_number-ok start e in
        let b = parse_page_number-ok end f in
        ((ground arith, λ l g. ground arith), (ground arith, λ l g. ground arith))
  ]
]

parse_ends-ok :
    (start end : List ℕ) {part : SelectionPart} → parse_ends start end ≡ ok part → IsParsed part
unfolding parse_ends
parse_ends-ok [] [] h = absurd (cc)
parse_ends-ok [] (c ∷ cs) h = elim (Result-cases (parse_page_number (c ∷ cs))) [
  | inr (x, e) ↦ absurd (ground arith)
  | inl (last, e) ↦
      let b = parse_page_number-ok (c ∷ cs) e in
      ((ground arith, λ l g. ground arith), (ground arith, λ l g. ground arith))
]
parse_ends-ok (c ∷ cs) [] h = elim (Result-cases (parse_page_number (c ∷ cs))) [
  | inr (x, e) ↦ absurd (ground arith)
  | inl (first, e) ↦
      let b = parse_page_number-ok (c ∷ cs) e in
      ((ground arith, λ l g. absurd (ground arith)), (ground arith, λ l g. absurd (ground arith)))
]
parse_ends-ok (c ∷ cs) (e ∷ es) h = parse_closed-ok (c ∷ cs) (e ∷ es) h

parse_single-ok :
    (text : List ℕ) {part : SelectionPart} → parse_single text ≡ ok part → IsParsed part
unfolding parse_single
parse_single-ok text h = elim (Result-cases (parse_page_number text)) [
  | inr (x, e) ↦ absurd (ground arith)
  | inl (n, e) ↦
      let b = parse_page_number-ok text e in
      ((ground arith, λ l g. ground arith), (ground arith, λ l g. ground arith))
]

parse_part-ok : (text : List ℕ) {part : SelectionPart} → parse_part text ≡ ok part → IsParsed part
unfolding parse_part
parse_part-ok text h = elim (Bool-cases (is_empty text)) [
  | inl blank ↦ absurd (ground arith)
  | inr full ↦ elim (Option-cases (split_once b'-' text)) [
    | inl no_dash ↦ parse_single-ok text (rw (full, no_dash, parse_part) at h)
    | inr ((before, after), e) ↦ elim (Bool-cases (contains b'-' after)) [
      | inl twice ↦ absurd (ground arith)
      | inr once ↦ parse_ends-ok (trim before) (trim after) (ground arith)
    ]
  ]
]

parse_parts-ok :
    (raws : List (List ℕ)) {parts : List SelectionPart}
    → parse_parts raws ≡ ok parts
    → All IsParsed parts
unfolding parse_parts
parse_parts-ok [] h = subst (All IsParsed) {x = []} (cc) tt
parse_parts-ok (raw ∷ raws) {parts} h = elim (Result-cases (parse_part (trim raw))) [
  | inr (x, e) ↦ absurd (ground arith)
  | inl (part, e) ↦ elim (Result-cases (parse_parts raws)) [
    | inr (x, f) ↦ absurd (ground arith)
    | inl (rest, f) ↦
        subst (All IsParsed) {x = part ∷ rest} {y = parts} (ground arith)
          (parse_part-ok (trim raw) e, parse_parts-ok raws f)
  ]
]

-- Every part of a parsed selection starts at page 1 or later, does not end before it starts, and
-- names page numbers that fit a `usize`.
pub parse-ok :
    (text : List ℕ) {parts : List SelectionPart} → parse text ≡ ok parts → All IsParsed parts
unfolding parse
parse-ok text h = elim (Bool-cases (is_empty (trim text))) [
  | inl blank ↦ absurd (ground arith)
  | inr full ↦ parse_parts-ok (split b',' (trim text)) (ground arith)
]
