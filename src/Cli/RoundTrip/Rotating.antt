-- ===== src/Cli/RoundTrip/Rotating.antt =====
-- The line that `rotate` reads, with and without an output.
use open_pdf_editor.Base.{
  Bool, true, false, List, [], ◌∷◌, ◌++◌, Option, none, some, ◌≡◌, refl, ◌∙◌, inl, inr,
}
use open_pdf_editor.Cli.{Text, OsString, text_eq, success}
use open_pdf_editor.Cli.Values.{out, pages, degrees, read_pages, read_rotation}
use open_pdf_editor.Cli.Line.{scan}
use open_pdf_editor.Cli.Arguments.{
  Subcommand, value_flags, parse_args, find_help_or_version, subcommand_of, rotate_name,
}
use open_pdf_editor.Cli.RoundTrip.Wishes.{
  option, optional, switch, paths, command_line, meaning, rotating,
}
use open_pdf_editor.Cli.RoundTrip.Options.{
  Attempt-cases, take_positionals-cons, find-option, given, scanned, scan-option, reading,
  out-IsPlain, pages-IsPlain, degrees-IsPlain, finish, parse_args-finish, finishing,
}

abbrev pub optional_flag : Option OsString → List (Text × Option OsString)
optional_flag none = []
optional_flag (some o) = (out, some o) ∷ []

pub rotating-scan :
    (f : Bool) (v w : OsString) (o : Option OsString) (input : OsString)
    → scan
        (switch f (option pages v (option degrees w (optional out o (paths (input ∷ []))))))
        (value_flags Subcommand.rotating)
      ≡ success
          (scanned (input ∷ []) (given f ++ (pages, some v) ∷ (degrees, some w) ∷ optional_flag o))
unfolding reading
rotating-scan true v w none input =
    let g = given true in
    scan-option Subcommand.rotating pages v _ g pages-IsPlain (λ t. refl, refl)
    ∙ scan-option Subcommand.rotating degrees w _ (g ++ (pages, some v) ∷ []) degrees-IsPlain
        (λ t. refl, refl)
rotating-scan false v w none input =
    let g = given false in
    scan-option Subcommand.rotating pages v _ g pages-IsPlain (λ t. refl, refl)
    ∙ scan-option Subcommand.rotating degrees w _ (g ++ (pages, some v) ∷ []) degrees-IsPlain
        (λ t. refl, refl)
rotating-scan true v w (some o) input =
    let g = given true in
    scan-option Subcommand.rotating pages v _ g pages-IsPlain (λ t. refl, refl)
    ∙ scan-option Subcommand.rotating degrees w _ (g ++ (pages, some v) ∷ []) degrees-IsPlain
        (λ t. refl, refl)
    ∙ scan-option Subcommand.rotating out o _ (g ++ (pages, some v) ∷ (degrees, some w) ∷ [])
        out-IsPlain (λ t. refl, refl)
rotating-scan false v w (some o) input =
    let g = given false in
    scan-option Subcommand.rotating pages v _ g pages-IsPlain (λ t. refl, refl)
    ∙ scan-option Subcommand.rotating degrees w _ (g ++ (pages, some v) ∷ []) degrees-IsPlain
        (λ t. refl, refl)
    ∙ scan-option Subcommand.rotating out o _ (g ++ (pages, some v) ∷ (degrees, some w) ∷ [])
        out-IsPlain (λ t. refl, refl)

pub find-optional :
    (o : Option OsString) (rest : List OsString)
    → find_help_or_version (optional out o rest) ≡ find_help_or_version rest
find-optional none rest = refl
find-optional (some o) rest = find-option out o rest out-IsPlain

pub rotating-find :
    (f : Bool) (v w : OsString) (o : Option OsString) (input : OsString)
    → find_help_or_version (command_line (rotating f v w o input)) ≡ none
unfolding reading command_line
rotating-find true v w o input =
    find-option pages v _ pages-IsPlain
    ∙ find-option degrees w _ degrees-IsPlain
    ∙ find-optional o _
rotating-find false v w o input =
    find-option pages v _ pages-IsPlain
    ∙ find-option degrees w _ degrees-IsPlain
    ∙ find-optional o _

pub rotating-finish :
    (f : Bool) (v w : OsString) (o : Option OsString) (input : OsString)
    → finish Subcommand.rotating
        (scanned (input ∷ []) (given f ++ (pages, some v) ∷ (degrees, some w) ∷ optional_flag o))
      ≡ meaning (rotating f v w o input)
unfolding finishing
rotating-finish true v w none input = elim (Attempt-cases (read_pages v)) [
  | inr (x, e) ↦ rw e refl
  | inl (n, e) ↦ elim (Attempt-cases (read_rotation w)) [
    | inl (r, k) ↦ rw (e, k, take_positionals-cons input [] []) refl
    | inr (x, k) ↦ rw (e, k) refl
  ]
]
rotating-finish true v w (some o) input = elim (Attempt-cases (read_pages v)) [
  | inr (x, e) ↦ rw e refl
  | inl (n, e) ↦ elim (Attempt-cases (read_rotation w)) [
    | inl (r, k) ↦ rw (e, k, take_positionals-cons input [] []) refl
    | inr (x, k) ↦ rw (e, k) refl
  ]
]
rotating-finish false v w none input = elim (Attempt-cases (read_pages v)) [
  | inr (x, e) ↦ rw e refl
  | inl (n, e) ↦ elim (Attempt-cases (read_rotation w)) [
    | inl (r, k) ↦ rw (e, k, take_positionals-cons input [] []) refl
    | inr (x, k) ↦ rw (e, k) refl
  ]
]
rotating-finish false v w (some o) input = elim (Attempt-cases (read_pages v)) [
  | inr (x, e) ↦ rw e refl
  | inl (n, e) ↦ elim (Attempt-cases (read_rotation w)) [
    | inl (r, k) ↦ rw (e, k, take_positionals-cons input [] []) refl
    | inr (x, k) ↦ rw (e, k) refl
  ]
]

pub rotating_lem :
    (f : Bool) (v w : OsString) (o : Option OsString) (input : OsString)
    → parse_args (command_line (rotating f v w o input)) ≡ meaning (rotating f v w o input)
unfolding command_line subcommand_of text_eq
rotating_lem f v w o input =
    parse_args-finish Subcommand.rotating rotate_name _ _ (rotating-find f v w o input) refl
      (rotating-scan f v w o input)
    ∙ rotating-finish f v w o input
