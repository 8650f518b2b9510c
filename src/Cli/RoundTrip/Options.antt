-- ===== src/Cli/RoundTrip/Options.antt =====
-- How the scanner reads options as they are written.
use open_pdf_editor.Base.{
  Bool, true, false, List, [], ◌∷◌, ◌++◌, Option, none, some, ◌≡◌, refl, arith, ap, ◌∙◌, ◌⊎◌, inl,
  inr,
}
use open_pdf_editor.Cli.{
  Text, OsString, text, bytes, PathBuf, text_eq, Attempt, success, failure, ◌>>=◌, CliError,
}
use open_pdf_editor.Cli.Values.{force, at, out, out_a, out_b, pages, degrees}
use open_pdf_editor.Cli.Line.{
  CommandLine, scan, scan_from, take_value, require_value, take_switch, take_positionals,
  reject_leftovers, remove_flag, decide, flag, push, await, is_given, contains_text, read_item,
  strip_dashes, split_value, starts_a_flag,
}
use open_pdf_editor.Cli.Arguments.{
  Invocation, Subcommand, value_flags, parse_args, parse_line, parse_rest, parse_subcommand,
  find_help_or_version, subcommand_of, parse_merge, parse_split, parse_rotate, parse_extract,
}
use open_pdf_editor.Cli.RoundTrip.Wishes.{option, switch, paths, command_line, meaning, splitting}

pub Attempt-cases :
    {A : Type 0} (m : Attempt A) → ((a : A) × (m ≡ success a)) ⊎ ((e : CliError) × (m ≡ failure e))
Attempt-cases (success a) = inl (a, refl)
Attempt-cases (failure e) = inr (e, refl)

pub take_positionals-cons :
    (p : PathBuf) (ps : List PathBuf) (fs : List (Text × Option OsString))
    → take_positionals 1 (record { positionals = p ∷ ps; flags = fs })
      ≡ success (p ∷ [], record { positionals = ps; flags = fs })
unfolding take_positionals
take_positionals-cons p ps fs = ground arith

abbrev pub dashed : Text → OsString
dashed name = text (b'-' ∷ b'-' ∷ name)

-- A flag's name that the scanner and the search for help read as what it is.
abbrev pub IsPlain : Text → Type 0
IsPlain name =
    ((t : Text) → read_item (dashed (name ++ b'=' ∷ t)) ≡ flag name (some t))
    × (read_item (dashed name) ≡ flag name none)
    × ((t : Text) (rest : List OsString)
        → find_help_or_version (dashed (name ++ b'=' ∷ t) ∷ rest) ≡ find_help_or_version rest)
    × ((rest : List OsString)
        → find_help_or_version (dashed name ∷ rest) ≡ find_help_or_version rest)

-- A flag that the subcommand takes a value for, and that was not given before.
abbrev pub IsFresh : List Text → List (Text × Option OsString) → Text → Type 0
IsFresh vf flags name =
    ((t : Text) → decide vf flags name (some t) ≡ push (some (text t)))
    × (decide vf flags name none ≡ await)

pub find-option :
    (name : Text) (v : OsString) (rest : List OsString)
    → IsPlain name
    → find_help_or_version (option name v rest) ≡ find_help_or_version rest
unfolding find_help_or_version
find-option name (text t) rest (_, _, p, _) = p t rest
find-option name (bytes b) rest (_, _, _, q) = q (bytes b ∷ rest)

-- the flags that `switch` comes to
abbrev pub given : Bool → List (Text × Option OsString)
given true = (force, none) ∷ []
given false = []

abbrev pub scanned : List PathBuf → List (Text × Option OsString) → CommandLine
scanned ps fs = record { positionals = ps; flags = fs }

pub scan-option :
    (s : Subcommand) (name : Text) (v : OsString) (rest : List OsString)
    (fs : List (Text × Option OsString))
    → IsPlain name
    → IsFresh (value_flags s) fs name
    → scan_from (value_flags s) (option name v rest) (scanned [] fs) none
      ≡ scan_from (value_flags s) rest (scanned [] (fs ++ (name, some v) ∷ [])) none
unfolding scan_from
scan-option s name (text t) rest fs (a, b, _, _) (d, _) = rw (a t) (rw (d t) refl)
scan-option s name (bytes b) rest fs (_, a, _, _) (_, d) = rw a (rw d refl)

unfoldable pub reading : Unit {0}
unfolding find_help_or_version scan scan_from decide is_given contains_text read_item strip_dashes
    split_value starts_a_flag text_eq
reading = tt

pub at-IsPlain : IsPlain at
unfolding reading
at-IsPlain = (λ t. refl, refl, λ t rest. refl, λ rest. refl)

pub out-IsPlain : IsPlain out
unfolding reading
out-IsPlain = (λ t. refl, refl, λ t rest. refl, λ rest. refl)

pub out_a-IsPlain : IsPlain out_a
unfolding reading
out_a-IsPlain = (λ t. refl, refl, λ t rest. refl, λ rest. refl)

pub out_b-IsPlain : IsPlain out_b
unfolding reading
out_b-IsPlain = (λ t. refl, refl, λ t rest. refl, λ rest. refl)

pub pages-IsPlain : IsPlain pages
unfolding reading
pages-IsPlain = (λ t. refl, refl, λ t rest. refl, λ rest. refl)

pub degrees-IsPlain : IsPlain degrees
unfolding reading
degrees-IsPlain = (λ t. refl, refl, λ t rest. refl, λ rest. refl)

pub splitting-scan :
    (f : Bool) (v a b input : OsString)
    → scan
        (switch f (option at v (option out_a a (option out_b b (paths (input ∷ []))))))
        (value_flags Subcommand.splitting)
      ≡ success
          (scanned (input ∷ []) (given f ++ (at, some v) ∷ (out_a, some a) ∷ (out_b, some b) ∷ []))
unfolding reading
splitting-scan true v a b input =
    let g = given true in
    scan-option Subcommand.splitting at v _ g at-IsPlain (λ t. refl, refl)
    ∙ scan-option Subcommand.splitting out_a a _ (g ++ (at, some v) ∷ []) out_a-IsPlain
        (λ t. refl, refl)
    ∙ scan-option Subcommand.splitting out_b b _ (g ++ (at, some v) ∷ (out_a, some a) ∷ [])
        out_b-IsPlain (λ t. refl, refl)
splitting-scan false v a b input =
    let g = given false in
    scan-option Subcommand.splitting at v _ g at-IsPlain (λ t. refl, refl)
    ∙ scan-option Subcommand.splitting out_a a _ (g ++ (at, some v) ∷ []) out_a-IsPlain
        (λ t. refl, refl)
    ∙ scan-option Subcommand.splitting out_b b _ (g ++ (at, some v) ∷ (out_a, some a) ∷ [])
        out_b-IsPlain (λ t. refl, refl)

pub splitting-find :
    (f : Bool) (v a b input : OsString)
    → find_help_or_version (command_line (splitting f v a b input)) ≡ none
unfolding reading command_line
splitting-find true v a b input =
    find-option at v _ at-IsPlain
    ∙ find-option out_a a _ out_a-IsPlain
    ∙ find-option out_b b _ out_b-IsPlain
splitting-find false v a b input =
    find-option at v _ at-IsPlain
    ∙ find-option out_a a _ out_a-IsPlain
    ∙ find-option out_b b _ out_b-IsPlain

-- What is left to do once the line is scanned.
abbrev pub finish : Subcommand → CommandLine → Attempt Invocation
finish s line = parse_subcommand s line >>= λ (invocation, left).
    reject_leftovers left >>= λ _. success invocation

pub parse_rest-finish :
    (s : Subcommand) (items : List OsString) (line : CommandLine)
    → scan items (value_flags s) ≡ success line
    → parse_rest s items ≡ finish s line
unfolding parse_rest
parse_rest-finish s items line c = ap (λ m. m >>= finish s) c

pub parse_args-finish :
    (s : Subcommand) (name : Text) (items : List OsString) (line : CommandLine)
    → find_help_or_version (text name ∷ items) ≡ none
    → subcommand_of name ≡ some s
    → scan items (value_flags s) ≡ success line
    → parse_args (text name ∷ items) ≡ finish s line
unfolding parse_args parse_line
parse_args-finish s name items line a b c = ground (arith, a, b, parse_rest-finish s items line c)

unfoldable pub finishing : Unit {0}
unfolding parse_subcommand parse_merge parse_split parse_rotate parse_extract take_value
    require_value take_switch reject_leftovers remove_flag text_eq subcommand_of meaning
    command_line
finishing = tt
