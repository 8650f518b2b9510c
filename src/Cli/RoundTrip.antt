-- ===== src/Cli/RoundTrip.antt =====
-- Writing a command line that `parse_args` reads back.
pub mod Wishes
mod Options
mod Splitting
mod Rotating
use open_pdf_editor.Base.{
  ℕ, Bool, true, false, List, [], ◌∷◌, ◌++◌, Option, none, some, ◌≡◌, refl, arith, ap, ◌∙◌,
  if◌then◌else◌, ◌⊎◌, inl, inr,
}
use open_pdf_editor.Cli.{
  Text, OsString, text, bytes, PathBuf, text_eq, Attempt, success, failure, ◌>>=◌, CliError, usage,
  no_inputs,
}
use open_pdf_editor.Cli.Values.{
  force, at, out, out_a, out_b, pages, degrees, read_pages, read_rotation, read_page_number,
}
use open_pdf_editor.Cli.Line.{
  CommandLine, scan, scan_from, take_value, require_value, take_switch, take_positionals,
  reject_leftovers, remove_flag, decide, flag, push, await, is_given, contains_text, read_item,
  strip_dashes, split_value, starts_a_flag,
}
use open_pdf_editor.Cli.Arguments.{
  Invocation, Subcommand, value_flags, merge, split, rotate, extract, parse_args, parse_line,
  parse_rest, parse_subcommand, find_help_or_version, subcommand_of, parse_merge, parse_split,
  parse_rotate, parse_extract, merge_name, split_name, rotate_name, extract_name,
}
use open_pdf_editor.Cli.RoundTrip.Wishes.{
  option, optional, switch, paths, Wish, command_line, meaning, merging, splitting, rotating,
  extracting,
}
use open_pdf_editor.Cli.RoundTrip.Splitting.{
  splitting-finish, splitting_lem, merging_lem, extracting-scan, extracting-find, extracting-finish,
  extracting_lem,
}
use open_pdf_editor.Cli.RoundTrip.Rotating.{
  optional_flag, rotating-scan, find-optional, rotating-find, rotating-finish, rotating_lem,
}

-- A command line that names the switch, the options with their values, and the paths after `--` is
-- read as what it says: any path can be given, also one that begins with dashes or is not text, and
-- a value that cannot be read is reported as the first such value is.
pub parse_args-command_line : (w : Wish) → parse_args (command_line w) ≡ meaning w
parse_args-command_line (merging f output inputs) = merging_lem f output inputs
parse_args-command_line (splitting f v a b input) = splitting_lem f v a b input
parse_args-command_line (rotating f v w o input) = rotating_lem f v w o input
parse_args-command_line (extracting f v o input) = extracting_lem f v o input
