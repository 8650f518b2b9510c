-- ===== src/Cli.antt =====
-- The command line (opdf-cli): what it reports (opdf-cli/src/error.rs), and the arguments and their
-- execution in the child modules. An `OsString` is a text, the list of its code points, or bytes
-- that are not valid UTF-8. Of a usage message the values are kept that it names.
pub mod Values
pub mod Line
pub mod Arguments
pub mod RoundTrip
pub mod Scanning
pub mod Validity
pub mod Paths
pub mod Running
use open_pdf_editor.Base.{ℕ, Bool, true, false, ◌&&◌, ◌==◌, List, [], ◌∷◌, Option, none, some}
use open_pdf_editor.Error.{Error, Result, ok, err}

abbrev pub Text : Type 0
Text = List ℕ

pub data OsString : Type 0 where
  text : Text → OsString
  bytes : List ℕ → OsString

abbrev pub to_str : OsString → Option Text
to_str (text t) = some t
to_str (bytes _) = none

abbrev pub PathBuf : Type 0
PathBuf = OsString

unfoldable pub text_eq : Text → Text → Bool
text_eq [] [] = true
text_eq [] (d ∷ ds) = false
text_eq (c ∷ cs) [] = false
text_eq (c ∷ cs) (d ∷ ds) = c == d && text_eq cs ds

-- The messages of `CliError::Usage`
pub data Usage : Type 0 where
  no_subcommand subcommand_not_text : Usage
  unknown_subcommand : Text → Usage
  given_twice takes_no_value unknown_flag needs_value missing_flag not_text : Text → Usage
  too_few_positionals no_inputs zero_page same_outputs : Usage
  not_degrees not_page_number : Text → Usage
  unknown_leftover : Text → Usage
  unexpected_argument : PathBuf → Usage
  boundary_out_of_range : ℕ → ℕ → Usage

pub data CliError : Type 0 where
  usage : Usage → CliError
  argument : Text → Error → CliError
  output_exists : PathBuf → CliError
  open_failed save_failed : PathBuf → Error → CliError
  operation : Error → CliError

abbrev pub exit_code : CliError → ℕ
exit_code (usage _) = 2
exit_code (argument _ _) = 2
exit_code _ = 1

-- `Result<A, CliError>`
pub data Attempt (A : Type 0) : Type 0 where
  success : A → Attempt A
  failure : CliError → Attempt A

infixl 5 ◌>>=◌
abbrev pub ◌>>=◌ : {A B : Type 0} → Attempt A → (A → Attempt B) → Attempt B
success a >>= f = f a
failure e >>= f = failure e

-- `map_err`
abbrev pub map_err : {A : Type 0} → (Error → CliError) → Result A → Attempt A
map_err f (ok a) = success a
map_err f (err e) = failure (f e)
