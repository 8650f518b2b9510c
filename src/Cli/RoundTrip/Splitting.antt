-- ===== src/Cli/RoundTrip/Splitting.antt =====
-- The lines that `merge`, `split` and `extract` read.
use open_pdf_editor.Base.{
  Bool, true, false, List, [], ◌∷◌, ◌++◌, none, some, ◌≡◌, refl, ◌∙◌, inl, inr,
}
use open_pdf_editor.Cli.{OsString, PathBuf, text_eq, success}
use open_pdf_editor.Cli.Values.{at, out, out_a, out_b, pages, read_pages, read_page_number}
use open_pdf_editor.Cli.Line.{scan}
use open_pdf_editor.Cli.Arguments.{
  Subcommand, value_flags, parse_args, parse_line, parse_rest, find_help_or_version, subcommand_of,
  split_name, extract_name,
}
use open_pdf_editor.Cli.RoundTrip.Wishes.{
  option, switch, paths, command_line, meaning, merging, splitting, extracting,
}
use open_pdf_editor.Cli.RoundTrip.Options.{
  Attempt-cases, take_positionals-cons, find-option, given, scanned, scan-option, reading,
  out-IsPlain, pages-IsPlain, splitting-scan, splitting-find, finish, parse_args-finish, finishing,
}

pub splitting-finish :
    (f : Bool) (v a b input : OsString)
    → finish Subcommand.splitting
        (scanned (input ∷ []) (given f ++ (at, some v) ∷ (out_a, some a) ∷ (out_b, some b) ∷ []))
      ≡ meaning (splitting f v a b input)
unfolding finishing
splitting-finish true v a b input = elim (Attempt-cases (read_page_number v)) [
  | inl (n, e) ↦ rw (e, take_positionals-cons input [] []) refl
  | inr (x, e) ↦ rw e refl
]
splitting-finish false v a b input = elim (Attempt-cases (read_page_number v)) [
  | inl (n, e) ↦ rw (e, take_positionals-cons input [] []) refl
  | inr (x, e) ↦ rw e refl
]

pub splitting_lem :
    (f : Bool) (v a b input : OsString)
    → parse_args (command_line (splitting f v a b input)) ≡ meaning (splitting f v a b input)
unfolding command_line subcommand_of text_eq
splitting_lem f v a b input =
    parse_args-finish Subcommand.splitting split_name _ _ (splitting-find f v a b input) refl
      (splitting-scan f v a b input)
    ∙ splitting-finish f v a b input

pub merging_lem :
    (f : Bool) (output : PathBuf) (inputs : List PathBuf)
    → parse_args (command_line (merging f output inputs)) ≡ meaning (merging f output inputs)
unfolding reading finishing parse_args parse_line parse_rest
merging_lem true output [] = rw (take_positionals-cons output [] []) refl
merging_lem true output (p ∷ ps) = rw (take_positionals-cons output (p ∷ ps) []) refl
merging_lem false output [] = rw (take_positionals-cons output [] []) refl
merging_lem false output (p ∷ ps) = rw (take_positionals-cons output (p ∷ ps) []) refl

pub extracting-scan :
    (f : Bool) (v o input : OsString)
    → scan
        (switch f (option pages v (option out o (paths (input ∷ [])))))
        (value_flags Subcommand.extracting)
      ≡ success (scanned (input ∷ []) (given f ++ (pages, some v) ∷ (out, some o) ∷ []))
unfolding reading
extracting-scan true v o input =
    let g = given true in
    scan-option Subcommand.extracting pages v _ g pages-IsPlain (λ t. refl, refl)
    ∙ scan-option Subcommand.extracting out o _ (g ++ (pages, some v) ∷ []) out-IsPlain
        (λ t. refl, refl)
extracting-scan false v o input =
    let g = given false in
    scan-option Subcommand.extracting pages v _ g pages-IsPlain (λ t. refl, refl)
    ∙ scan-option Subcommand.extracting out o _ (g ++ (pages, some v) ∷ []) out-IsPlain
        (λ t. refl, refl)

pub extracting-find :
    (f : Bool) (v o input : OsString)
    → find_help_or_version (command_line (extracting f v o input)) ≡ none
unfolding reading command_line
extracting-find true v o input =
    find-option pages v _ pages-IsPlain ∙ find-option out o _ out-IsPlain
extracting-find false v o input =
    find-option pages v _ pages-IsPlain ∙ find-option out o _ out-IsPlain

pub extracting-finish :
    (f : Bool) (v o input : OsString)
    → finish Subcommand.extracting
        (scanned (input ∷ []) (given f ++ (pages, some v) ∷ (out, some o) ∷ []))
      ≡ meaning (extracting f v o input)
unfolding finishing
extracting-finish true v o input = elim (Attempt-cases (read_pages v)) [
  | inl (n, e) ↦ rw (e, take_positionals-cons input [] []) refl
  | inr (x, e) ↦ rw e refl
]
extracting-finish false v o input = elim (Attempt-cases (read_pages v)) [
  | inl (n, e) ↦ rw (e, take_positionals-cons input [] []) refl
  | inr (x, e) ↦ rw e refl
]

pub extracting_lem :
    (f : Bool) (v o input : OsString)
    → parse_args (command_line (extracting f v o input)) ≡ meaning (extracting f v o input)
unfolding command_line subcommand_of text_eq
extracting_lem f v o input =
    parse_args-finish Subcommand.extracting extract_name _ _ (extracting-find f v o input) refl
      (extracting-scan f v o input)
    ∙ extracting-finish f v o input
