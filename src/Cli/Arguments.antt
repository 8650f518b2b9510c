-- ===== src/Cli/Arguments.antt =====
-- `parse_args` (opdf-cli/src/args.rs).
use open_pdf_editor.Base.{ℕ, Bool, ◌||◌, List, [], ◌∷◌, Option, none, some, if◌then◌else◌}
use open_pdf_editor.Page.{Rotation}
use open_pdf_editor.PageSelection.{SelectionPart}
use open_pdf_editor.Cli.{
  Text, OsString, to_str, PathBuf, text_eq, no_subcommand, subcommand_not_text, unknown_subcommand,
  no_inputs, too_few_positionals, Attempt, success, failure, ◌>>=◌, usage,
}
use open_pdf_editor.Cli.Values.{
  force, at, out, out_a, out_b, pages, degrees, read_pages, read_rotation, read_page_number,
}
use open_pdf_editor.Cli.Line.{
  CommandLine, scan, take_value, require_value, take_switch, take_positionals,
  take_remaining_positionals, reject_leftovers,
}

pub record MergeArgs : Type 0 where
  pub output_path : PathBuf
  pub input_paths : List PathBuf
  pub force : Bool

pub record SplitArgs : Type 0 where
  pub input_path : PathBuf
  pub at_page : ℕ
  pub out_a_path : PathBuf
  pub out_b_path : PathBuf
  pub force : Bool

pub record RotateArgs : Type 0 where
  pub input_path : PathBuf
  pub pages : List SelectionPart
  pub rotation : Rotation
  pub output_path : Option PathBuf
  pub force : Bool

pub record ExtractArgs : Type 0 where
  pub input_path : PathBuf
  pub pages : List SelectionPart
  pub output_path : PathBuf
  pub force : Bool

pub data Invocation : Type 0 where
  help version : Invocation
  merge : MergeArgs → Invocation
  split : SplitArgs → Invocation
  rotate : RotateArgs → Invocation
  extract : ExtractArgs → Invocation

-- the literals `--help`, `-h`, `--version` and `-V`
abbrev pub long_help : Text
long_help = b'-' ∷ b'-' ∷ b'h' ∷ b'e' ∷ b'l' ∷ b'p' ∷ []

abbrev pub long_version : Text
long_version = b'-' ∷ b'-' ∷ b'v' ∷ b'e' ∷ b'r' ∷ b's' ∷ b'i' ∷ b'o' ∷ b'n' ∷ []

abbrev pub is_help : Text → Bool
is_help t = text_eq t long_help || text_eq t (b'-' ∷ b'h' ∷ [])

abbrev pub is_version : Text → Bool
is_version t = text_eq t long_version || text_eq t (b'-' ∷ b'V' ∷ [])

unfoldable pub find_help_or_version : List OsString → Option Invocation
find_help_or_version [] = none
find_help_or_version (item ∷ items) =
    let rest = find_help_or_version items in
    elim (to_str item) [
      | none ↦ rest
      | some t ↦
          if is_help t
          then some help
          else if is_version t
          then some version
          else if text_eq t (b'-' ∷ b'-' ∷ [])
          then none
          else rest
    ]

pub data Subcommand : Type 0 where
  merging splitting rotating extracting : Subcommand

abbrev pub merge_name : Text
merge_name = b'm' ∷ b'e' ∷ b'r' ∷ b'g' ∷ b'e' ∷ []

abbrev pub split_name : Text
split_name = b's' ∷ b'p' ∷ b'l' ∷ b'i' ∷ b't' ∷ []

abbrev pub rotate_name : Text
rotate_name = b'r' ∷ b'o' ∷ b't' ∷ b'a' ∷ b't' ∷ b'e' ∷ []

abbrev pub extract_name : Text
extract_name = b'e' ∷ b'x' ∷ b't' ∷ b'r' ∷ b'a' ∷ b'c' ∷ b't' ∷ []

-- the names that the two `match`es on the subcommand know
unfoldable pub subcommand_of : Text → Option Subcommand
subcommand_of t =
    if text_eq t merge_name
    then some merging
    else if text_eq t split_name
    then some splitting
    else if text_eq t rotate_name
    then some rotating
    else if text_eq t extract_name
    then some extracting
    else none

abbrev pub value_flags : Subcommand → List Text
value_flags merging = []
value_flags splitting = at ∷ out_a ∷ out_b ∷ []
value_flags rotating = pages ∷ degrees ∷ out ∷ []
value_flags extracting = pages ∷ out ∷ []

-- `paths.remove(0)` of the one path that `take_positionals(1, …)` returned
abbrev pub one_positional : CommandLine → Attempt (PathBuf × CommandLine)
one_positional line = take_positionals 1 line >>= λ (paths, rest). elim paths [
  | [] ↦ failure (usage too_few_positionals)
  | p ∷ _ ↦ success (p, rest)
]

unfoldable pub parse_merge : CommandLine → Attempt (MergeArgs × CommandLine)
parse_merge line =
    let (switch, line1) = take_switch force line in
    one_positional line1 >>= λ (output, line2). elim (take_remaining_positionals line2).0 [
      | [] ↦ failure (usage no_inputs)
      | p ∷ ps ↦ success (
        record { output_path = output; input_paths = p ∷ ps; force = switch },
        (take_remaining_positionals line2).1,
      )
    ]

unfoldable pub parse_split : CommandLine → Attempt (SplitArgs × CommandLine)
parse_split line =
    let (switch, line1) = take_switch force line in
    require_value at line1 >>= λ (at_value, line2). read_page_number at_value >>= λ at_page.
    require_value out_a line2 >>= λ (a, line3). require_value out_b line3 >>= λ (b, line4).
    one_positional line4 >>= λ (input, line5). success (
      record {
        input_path = input;
        at_page = at_page;
        out_a_path = a;
        out_b_path = b;
        force = switch;
      },
      line5,
    )

unfoldable pub parse_rotate : CommandLine → Attempt (RotateArgs × CommandLine)
parse_rotate line =
    let (switch, line1) = take_switch force line in
    require_value pages line1 >>= λ (pages_value, line2). read_pages pages_value >>= λ parts.
    require_value degrees line2 >>= λ (degrees_value, line3).
    read_rotation degrees_value >>= λ rotation. take_value out line3 >>= λ (output, line4).
    one_positional line4 >>= λ (input, line5). success (
      record {
        input_path = input;
        pages = parts;
        rotation = rotation;
        output_path = output;
        force = switch;
      },
      line5,
    )

unfoldable pub parse_extract : CommandLine → Attempt (ExtractArgs × CommandLine)
parse_extract line =
    let (switch, line1) = take_switch force line in
    require_value pages line1 >>= λ (pages_value, line2). read_pages pages_value >>= λ parts.
    require_value out line2 >>= λ (output, line3). one_positional line3 >>= λ (input, line4).
    success
      (record { input_path = input; pages = parts; output_path = output; force = switch }, line4)

-- the second `match` on the subcommand
unfoldable pub parse_subcommand : Subcommand → CommandLine → Attempt (Invocation × CommandLine)
unfolding parse_merge parse_split parse_rotate parse_extract
parse_subcommand merging line = parse_merge line >>= λ (a, rest). success (merge a, rest)
parse_subcommand splitting line = parse_split line >>= λ (a, rest). success (split a, rest)
parse_subcommand rotating line = parse_rotate line >>= λ (a, rest). success (rotate a, rest)
parse_subcommand extracting line = parse_extract line >>= λ (a, rest). success (extract a, rest)

-- from the scan on
unfoldable pub parse_rest : Subcommand → List OsString → Attempt Invocation
unfolding parse_subcommand
parse_rest subcommand rest = scan rest (value_flags subcommand) >>= λ line.
    parse_subcommand subcommand line >>= λ (invocation, left).
    reject_leftovers left >>= λ _. success invocation

abbrev pub named : OsString → Attempt Subcommand
named item = elim (to_str item) [
  | none ↦ failure (usage subcommand_not_text)
  | some t ↦ elim (subcommand_of t) [
    | none ↦ failure (usage (unknown_subcommand t))
    | some s ↦ success s
  ]
]

-- a line without a request for help or for the version
unfoldable pub parse_line : List OsString → Attempt Invocation
unfolding parse_rest subcommand_of
parse_line [] = failure (usage no_subcommand)
parse_line (item ∷ rest) = named item >>= λ subcommand. parse_rest subcommand rest

unfoldable pub parse_args : List OsString → Attempt Invocation
unfolding find_help_or_version parse_line
parse_args items = elim (find_help_or_version items) [
  | some invocation ↦ success invocation
  | none ↦ parse_line items
]
