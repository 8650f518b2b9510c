-- ===== src/Cli/Validity.antt =====
-- What a command line that parses has been checked for.
use open_pdf_editor.Base.{
  if◌then◌else◌, ℕ, ◌≤◌, ◌≡◌, refl, subst, Bool, List, [], ◌∷◌, All, length, Option, none, some,
  arith, Bool-cases, inl, inr, ◌==◌,
}
use open_pdf_editor.Error.{Result, ok, err}
use open_pdf_editor.PageSelection.{SelectionPart, parse}
use open_pdf_editor.PageSelection.Parsing.{IsParsed, parse-ok}
use open_pdf_editor.Cli.{
  Text, OsString, text, bytes, text_eq, Attempt, success, failure, ◌>>=◌, map_err, argument, usage,
  not_page_number, zero_page, no_inputs,
}
use open_pdf_editor.Cli.Values.{
  force, at, out, out_a, out_b, pages, degrees, read_text, read_pages, read_rotation,
  read_page_number, parse_usize,
}
use open_pdf_editor.Cli.Line.{
  CommandLine, scan, take_value, require_value, take_switch, reject_leftovers,
}
use open_pdf_editor.Cli.Arguments.{
  MergeArgs, Invocation, help, version, merge, split, rotate, extract, Subcommand, merging,
  splitting, rotating, extracting, value_flags, one_positional, parse_merge, parse_split,
  parse_rotate, parse_extract, parse_subcommand, parse_rest, named, parse_line, parse_args, is_help,
  is_version, find_help_or_version,
}

-- Where an attempt succeeds, its result satisfies `P`.
abbrev pub Returns : {A : Type 0} → (A → Type 0) → Attempt A → Type 0
Returns P (success a) = P a
Returns P (failure e) = Unit

Returns-bind :
    {A B : Type 0} (P : A → Type 0) (Q : B → Type 0) (m : Attempt A) (f : A → Attempt B)
    → Returns P m
    → ((a : A) → P a → Returns Q (f a))
    → Returns Q (m >>= f)
Returns-bind P Q (success a) f p k = k a p
Returns-bind P Q (failure e) f p k = tt

abbrev Any : {A : Type 0} → A → Type 0
Any a = Unit

Returns-Any : {A : Type 0} (m : Attempt A) → Returns Any m
Returns-Any (success a) = tt
Returns-Any (failure e) = tt

parse-Returns :
    (t : Text) (r : Result (List SelectionPart))
    → parse t ≡ r
    → Returns (All IsParsed) (map_err (argument pages) r)
parse-Returns t (ok parts) e = parse-ok t e
parse-Returns t (err x) e = tt

read_pages-Returns : (v : OsString) → Returns (All IsParsed) (read_pages v)
unfolding read_pages
read_pages-Returns v =
    Returns-bind Any (All IsParsed) (read_text v pages) _ (Returns-Any (read_text v pages))
      (λ t _. parse-Returns t (parse t) refl)

abbrev counted : Text → Option ℕ → Attempt ℕ
counted t none = failure (usage (not_page_number t))
counted t (some n) = if n == 0 then failure (usage zero_page) else success n

counted-Returns : (t : Text) (o : Option ℕ) → Returns (λ n. 1 ≤ n) (counted t o)
counted-Returns t none = tt
counted-Returns t (some n) = elim (Bool-cases (n == 0)) [
  | inl e ↦ rw e tt
  | inr e ↦ rw e (ground (arith, e))
]

read_page_number-Returns : (v : OsString) → Returns (λ n. 1 ≤ n) (read_page_number v)
unfolding read_page_number
read_page_number-Returns v =
    Returns-bind Any (λ n. 1 ≤ n) (read_text v at) _ (Returns-Any (read_text v at))
      (λ t _. counted-Returns t (parse_usize t))

-- The values of an invocation are in the range that the subcommands rely on: a merge has an input,
-- a page number to split at is one, and selected pages are as `PageSelection::parse` gives them.
abbrev pub IsValid : Invocation → Type 0
IsValid help = Unit
IsValid version = Unit
IsValid (merge a) = 1 ≤ length a.input_paths
IsValid (split a) = 1 ≤ a.at_page
IsValid (rotate a) = All IsParsed a.pages
IsValid (extract a) = All IsParsed a.pages

abbrev IsValidRest : Invocation × CommandLine → Type 0
IsValidRest p = IsValid p.0

finish_merge-Returns :
    (output : OsString) (inputs : List OsString) (f : Bool) (fs : List (Text × Option OsString))
    → Returns
        (λ p. 1 ≤ length p.0.input_paths)
        (elim inputs as (λ _. Attempt (MergeArgs × CommandLine)) [
          | [] ↦ failure (usage no_inputs)
          | p ∷ ps ↦ success (
            record { output_path = output; input_paths = p ∷ ps; force = f },
            record { positionals = []; flags = fs },
          )
        ])
finish_merge-Returns output [] f fs = tt
finish_merge-Returns output (p ∷ ps) f fs = omega arith

parse_merge-Returns :
    (line : CommandLine) → Returns (λ p. 1 ≤ length p.0.input_paths) (parse_merge line)
unfolding parse_merge
parse_merge-Returns line =
    Returns-bind Any _ (one_positional (take_switch force line).1) _
      (Returns-Any (one_positional (take_switch force line).1))
      (λ p _. finish_merge-Returns p.0 p.1.positionals (take_switch force line).0 p.1.flags)

parse_split-Returns : (line : CommandLine) → Returns (λ p. 1 ≤ p.0.at_page) (parse_split line)
unfolding parse_split
parse_split-Returns line =
    Returns-bind Any _ (require_value at (take_switch force line).1) _ (Returns-Any _) (λ x _.
      Returns-bind (λ n. 1 ≤ n) _ (read_page_number x.0) _ (read_page_number-Returns x.0)
        (λ n h. Returns-bind Any _ (require_value out_a x.1) _ (Returns-Any _) (λ a _.
          Returns-bind Any _ (require_value out_b a.1) _ (Returns-Any _)
            (λ b _. Returns-bind Any _ (one_positional b.1) _ (Returns-Any _) (λ i _. h)))))

parse_rotate-Returns :
    (line : CommandLine) → Returns (λ p. All IsParsed p.0.pages) (parse_rotate line)
unfolding parse_rotate
parse_rotate-Returns line =
    Returns-bind Any _ (require_value pages (take_switch force line).1) _ (Returns-Any _) (λ x _.
      Returns-bind (All IsParsed) _ (read_pages x.0) _ (read_pages-Returns x.0) (λ n h.
        Returns-bind Any _ (require_value degrees x.1) _ (Returns-Any _) (λ d _.
          Returns-bind Any _ (read_rotation d.0) _ (Returns-Any _) (λ r _.
            Returns-bind Any _ (take_value out d.1) _ (Returns-Any _)
              (λ b _. Returns-bind Any _ (one_positional b.1) _ (Returns-Any _) (λ i _. h))))))

parse_extract-Returns :
    (line : CommandLine) → Returns (λ p. All IsParsed p.0.pages) (parse_extract line)
unfolding parse_extract
parse_extract-Returns line =
    Returns-bind Any _ (require_value pages (take_switch force line).1) _ (Returns-Any _) (λ x _.
      Returns-bind (All IsParsed) _ (read_pages x.0) _ (read_pages-Returns x.0) (λ n h.
        Returns-bind Any _ (require_value out x.1) _ (Returns-Any _)
          (λ b _. Returns-bind Any _ (one_positional b.1) _ (Returns-Any _) (λ i _. h))))

parse_subcommand-Returns :
    (s : Subcommand) (line : CommandLine) → Returns IsValidRest (parse_subcommand s line)
unfolding parse_subcommand
parse_subcommand-Returns merging line =
    Returns-bind _ IsValidRest (parse_merge line) _ (parse_merge-Returns line) (λ p h. h)
parse_subcommand-Returns splitting line =
    Returns-bind _ IsValidRest (parse_split line) _ (parse_split-Returns line) (λ p h. h)
parse_subcommand-Returns rotating line =
    Returns-bind _ IsValidRest (parse_rotate line) _ (parse_rotate-Returns line) (λ p h. h)
parse_subcommand-Returns extracting line =
    Returns-bind _ IsValidRest (parse_extract line) _ (parse_extract-Returns line) (λ p h. h)

parse_rest-Returns : (s : Subcommand) (rest : List OsString) → Returns IsValid (parse_rest s rest)
unfolding parse_rest
parse_rest-Returns s rest =
    Returns-bind Any IsValid (scan rest (value_flags s)) _ (Returns-Any _) (λ line _.
      Returns-bind IsValidRest IsValid (parse_subcommand s line) _ (parse_subcommand-Returns s line)
        (λ p h. Returns-bind Any IsValid (reject_leftovers p.1) _ (Returns-Any _) (λ _ _. h)))

parse_line-Returns : (items : List OsString) → Returns IsValid (parse_line items)
unfolding parse_line
parse_line-Returns [] = tt
parse_line-Returns (item ∷ rest) =
    Returns-bind Any IsValid (named item) _ (Returns-Any _) (λ s _. parse_rest-Returns s rest)

abbrev IsFound : Option Invocation → Type 0
IsFound none = Unit
IsFound (some invocation) = IsValid invocation

find-IsFound : (items : List OsString) → IsFound (find_help_or_version items)
unfolding find_help_or_version
find-IsFound [] = tt
find-IsFound (bytes b ∷ items) = find-IsFound items
find-IsFound (text t ∷ items) = elim (Bool-cases (is_help t)) [
  | inl a ↦ rw a tt
  | inr a ↦ elim (Bool-cases (is_version t)) [
    | inl b ↦ rw (a, b) tt
    | inr b ↦ elim (Bool-cases (text_eq t (b'-' ∷ b'-' ∷ []))) [
      | inl c ↦ rw (a, b, c) tt
      | inr c ↦ rw (a, b, c) (find-IsFound items)
    ]
  ]
]

abbrev line_parsed : List OsString → Option Invocation → Attempt Invocation
line_parsed items none = parse_line items
line_parsed items (some invocation) = success invocation

line_parsed-Returns :
    (items : List OsString) (o : Option Invocation)
    → IsFound o
    → Returns IsValid (line_parsed items o)
line_parsed-Returns items none h = parse_line-Returns items
line_parsed-Returns items (some invocation) h = h

-- Whatever command line is accepted: a merge has an input, a page number to split at is 1 or more,
-- and selected pages are as `PageSelection::parse` gives them.
pub parse_args-IsValid :
    (items : List OsString) {invocation : Invocation}
    → parse_args items ≡ success invocation
    → IsValid invocation
unfolding parse_args
parse_args-IsValid items h =
    subst (Returns IsValid) h
      (line_parsed-Returns items (find_help_or_version items) (find-IsFound items))
