-- ===== src/Tests/Arguments.antt =====
-- Command lines.
use open_pdf_editor.Base.{◌≡◌, refl, true, false, some, List, [], ◌∷◌, All}
use open_pdf_editor.Cli.{text_eq, OsString, text, bytes, success}
use open_pdf_editor.Cli.Values.{at}
use open_pdf_editor.Cli.Line.{
  take_positionals, take_switch, remove_flag, reject_leftovers, CommandLine, scan, is_given,
  contains_text,
}
use open_pdf_editor.Cli.Arguments.{Invocation, merge, merge_name, parse_args}
use open_pdf_editor.Cli.RoundTrip.{parse_args-command_line}
use open_pdf_editor.Cli.RoundTrip.Wishes.{Wish, splitting, command_line, meaning}
use open_pdf_editor.Cli.Scanning.{IsKnown, AreDistinct, scan-IsKnown}

abbrev input : OsString
input = text (b'i' ∷ [])

abbrev output : OsString
output = bytes (b'o' ∷ 255 ∷ [])

abbrev wish : Wish
wish = splitting true (text (b'2' ∷ [])) output (text (b'b' ∷ [])) input

parse_args-command_line_example : parse_args (command_line wish) ≡ meaning wish
parse_args-command_line_example = parse_args-command_line wish

abbrev items : List OsString
items = text (b'-' ∷ b'-' ∷ b'a' ∷ b't' ∷ b'=' ∷ b'2' ∷ []) ∷ input ∷ []

abbrev line : CommandLine
line = record { positionals = input ∷ []; flags = (at, some (text (b'2' ∷ []))) ∷ [] }

line_lem : scan items (at ∷ []) ≡ success line
unfolding scan is_given contains_text text_eq
line_lem = refl

scan-IsKnown_example : All (IsKnown (at ∷ [])) line.flags × AreDistinct line.flags
scan-IsKnown_example = scan-IsKnown (at ∷ []) items line_lem

abbrev merge_line : List OsString
merge_line = text merge_name ∷ text (b'-' ∷ b'-' ∷ []) ∷ output ∷ input ∷ []

abbrev merging_two : Invocation
merging_two = merge (record { output_path = output; input_paths = input ∷ []; force = false })

merge_line_lem : parse_args merge_line ≡ success merging_two
unfolding parse_args text_eq scan take_positionals take_switch remove_flag reject_leftovers
merge_line_lem = refl
