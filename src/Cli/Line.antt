-- ===== src/Cli/Line.antt =====
-- The scanned line: `CommandLine` (opdf-cli/src/args.rs).
use open_pdf_editor.Base.{
  ℕ, Bool, true, false, ◌&&◌, ◌||◌, not, List, [], ◌∷◌, ◌++◌, length, take, drop, Option, none,
  some, ltb, ◌==◌, if◌then◌else◌,
}
use open_pdf_editor.Cli.{
  Text, OsString, text, bytes, PathBuf, text_eq, Usage, given_twice, takes_no_value, unknown_flag,
  needs_value, missing_flag, too_few_positionals, unknown_leftover, unexpected_argument, Attempt,
  success, failure, ◌>>=◌, usage,
}
use open_pdf_editor.Cli.Values.{force}

-- A flag with `none` for its value is a switch.
pub record CommandLine : Type 0 where
  pub positionals : List PathBuf
  pub flags : List (Text × Option OsString)

abbrev pub Flags : Type 0
Flags = List (Text × Option OsString)

unfoldable pub contains_text : Text → List Text → Bool
contains_text t [] = false
contains_text t (s ∷ ss) = text_eq s t || contains_text t ss

unfoldable pub is_given : Text → Flags → Bool
is_given name [] = false
is_given name (f ∷ fs) = text_eq f.0 name || is_given name fs

abbrev pub switches : List Text
switches = force ∷ []

-- `strip_prefix("--")`
unfoldable pub strip_dashes : Text → Option Text
strip_dashes [] = none
strip_dashes (c ∷ []) = none
strip_dashes (c ∷ d ∷ rest) = if c == b'-' && d == b'-' then some rest else none

-- `split_once('=')`
unfoldable pub split_value : Text → Text × Option Text
split_value [] = ([], none)
split_value (c ∷ cs) =
    let rest = split_value cs in if c == b'=' then ([], some cs) else (c ∷ rest.0, rest.1)

unfoldable pub starts_a_flag : OsString → Bool
unfolding strip_dashes
starts_a_flag (bytes b) = false
starts_a_flag (text t) = elim (strip_dashes t) [ none ↦ false | some _ ↦ true ]

-- How the loop of `scan` reads one item.
pub data Reading : Type 0 where
  end_of_flags positional : Reading
  flag : Text → Option Text → Reading

unfoldable pub read_item : OsString → Reading
unfolding strip_dashes split_value
read_item (bytes b) = positional
read_item (text t) = elim (strip_dashes t) [
  | none ↦ positional
  | some [] ↦ end_of_flags
  | some (c ∷ cs) ↦ flag (split_value (c ∷ cs)).0 (split_value (c ∷ cs)).1
]

-- What the loop does with a flag.
pub data Decision : Type 0 where
  refuse : Usage → Decision
  push : Option OsString → Decision
  await : Decision

unfoldable pub decide : List Text → Flags → Text → Option Text → Decision
decide value_flags flags name inline_value =
    if is_given name flags
    then refuse (given_twice name)
    else if contains_text name switches
    then elim inline_value [ some _ ↦ refuse (takes_no_value name) | none ↦ push none ]
    else if not (contains_text name value_flags)
    then refuse (unknown_flag name)
    else elim inline_value [ some v ↦ push (some (text v)) | none ↦ await ]

-- The loop of `scan`. A flag that waits for its value is the last argument.
unfoldable pub scan_from :
    List Text → List OsString → CommandLine → Option Text → Attempt CommandLine
unfolding decide read_item starts_a_flag
scan_from value_flags [] line none = success line
scan_from value_flags [] line (some name) = failure (usage (needs_value name))
scan_from value_flags (item ∷ rest) line (some name) = elim (starts_a_flag item) [
  | true ↦ failure (usage (needs_value name))
  | false ↦
      scan_from value_flags rest (record line { flags = line.flags ++ (name, some item) ∷ [] }) none
]
scan_from value_flags (item ∷ rest) line none = elim (read_item item) [
  | positional ↦
      scan_from value_flags rest (record line { positionals = line.positionals ++ item ∷ [] }) none
  | end_of_flags ↦ success (record line { positionals = line.positionals ++ rest })
  | flag name inline_value ↦ elim (decide value_flags line.flags name inline_value) [
    | refuse u ↦ failure (usage u)
    | push value ↦
        scan_from value_flags rest (record line { flags = line.flags ++ (name, value) ∷ [] }) none
    | await ↦ scan_from value_flags rest line (some name)
  ]
]

abbrev pub empty_line : CommandLine
empty_line = record { positionals = []; flags = [] }

unfoldable pub scan : List OsString → List Text → Attempt CommandLine
unfolding scan_from
scan items value_flags = scan_from value_flags items empty_line none

-- `position` and `remove` of the first flag of that name
unfoldable pub remove_flag : Text → Flags → Option (Option OsString × Flags)
remove_flag name [] = none
remove_flag name (f ∷ fs) =
    let rest = remove_flag name fs in
    if text_eq f.0 name
    then some (f.1, fs)
    else elim rest [ none ↦ none | some (value, others) ↦ some (value, f ∷ others) ]

unfoldable pub take_value : Text → CommandLine → Attempt (Option OsString × CommandLine)
take_value name line = elim (remove_flag name line.flags) [
  | none ↦ success (none, line)
  | some (none, _) ↦ failure (usage (needs_value name))
  | some (some value, others) ↦ success (some value, record line { flags = others })
]

unfoldable pub require_value : Text → CommandLine → Attempt (OsString × CommandLine)
unfolding take_value
require_value name line = take_value name line >>= λ (value, rest). elim value [
  | none ↦ failure (usage (missing_flag name))
  | some v ↦ success (v, rest)
]

unfoldable pub take_switch : Text → CommandLine → Bool × CommandLine
take_switch name line = elim (remove_flag name line.flags) [
  | none ↦ (false, line)
  | some (_, others) ↦ (true, record line { flags = others })
]

unfoldable pub take_positionals : ℕ → CommandLine → Attempt (List PathBuf × CommandLine)
take_positionals count line =
    if ltb (length line.positionals) count
    then failure (usage too_few_positionals)
    else success
        (take count line.positionals, record line { positionals = drop count line.positionals })

abbrev pub take_remaining_positionals : CommandLine → List PathBuf × CommandLine
take_remaining_positionals line = (line.positionals, record line { positionals = [] })

unfoldable pub reject_leftovers : CommandLine → Attempt (Unit {0})
reject_leftovers line = elim line.flags [
  | f ∷ _ ↦ failure (usage (unknown_leftover f.0))
  | [] ↦ elim line.positionals [ p ∷ _ ↦ failure (usage (unexpected_argument p)) | [] ↦ success tt ]
]
