-- ===== src/Cli/RoundTrip/Wishes.antt =====
-- What a user may ask for, as a command line and as what it means.
use open_pdf_editor.Base.{Bool, true, false, List, [], ◌∷◌, ◌++◌, Option, none, some}
use open_pdf_editor.Cli.{
  Text, OsString, text, bytes, PathBuf, Attempt, success, failure, ◌>>=◌, usage, no_inputs,
}
use open_pdf_editor.Cli.Values.{
  force, at, out, out_a, out_b, pages, degrees, read_pages, read_rotation, read_page_number,
}
use open_pdf_editor.Cli.Arguments.{
  Invocation, merge, split, rotate, extract, merge_name, split_name, rotate_name, extract_name,
}

-- `--name=value`, or `--name value` where the value is not text.
abbrev pub option : Text → OsString → List OsString → List OsString
option name (text t) rest = text (b'-' ∷ b'-' ∷ name ++ b'=' ∷ t) ∷ rest
option name (bytes b) rest = text (b'-' ∷ b'-' ∷ name) ∷ bytes b ∷ rest

abbrev pub optional : Text → Option OsString → List OsString → List OsString
optional name none rest = rest
optional name (some value) rest = option name value rest

abbrev pub switch : Bool → List OsString → List OsString
switch true rest = text (b'-' ∷ b'-' ∷ force) ∷ rest
switch false rest = rest

abbrev pub paths : List PathBuf → List OsString
paths ps = text (b'-' ∷ b'-' ∷ []) ∷ ps

-- What a user may ask for, with the values as given.
pub data Wish : Type 0 where
  merging : Bool → PathBuf → List PathBuf → Wish
  splitting : Bool → OsString → PathBuf → PathBuf → PathBuf → Wish
  rotating : Bool → OsString → OsString → Option PathBuf → PathBuf → Wish
  extracting : Bool → OsString → PathBuf → PathBuf → Wish

unfoldable pub command_line : Wish → List OsString
command_line (merging f output inputs) = text merge_name ∷ switch f (paths (output ∷ inputs))
command_line (splitting f at_value a b input) =
    text split_name
    ∷ switch f (option at at_value (option out_a a (option out_b b (paths (input ∷ [])))))
command_line (rotating f pages_value degrees_value output input) =
    text rotate_name
    ∷ switch f (
        option pages pages_value
          (option degrees degrees_value (optional out output (paths (input ∷ [])))))
command_line (extracting f pages_value output input) =
    text extract_name ∷ switch f (option pages pages_value (option out output (paths (input ∷ []))))

-- What it means: the values are read, in order.
unfoldable pub meaning : Wish → Attempt Invocation
meaning (merging f output []) = failure (usage no_inputs)
meaning (merging f output (p ∷ ps)) =
    success (merge (record { output_path = output; input_paths = p ∷ ps; force = f }))
meaning (splitting f at_value a b input) = read_page_number at_value >>= λ n.
    success (
      split (record { input_path = input; at_page = n; out_a_path = a; out_b_path = b; force = f }))
meaning (rotating f pages_value degrees_value output input) = read_pages pages_value >>= λ parts.
    read_rotation degrees_value >>= λ r. success (
      rotate (record {
        input_path = input;
        pages = parts;
        rotation = r;
        output_path = output;
        force = f;
      }))
meaning (extracting f pages_value output input) = read_pages pages_value >>= λ parts.
    success
      (extract (record { input_path = input; pages = parts; output_path = output; force = f }))
