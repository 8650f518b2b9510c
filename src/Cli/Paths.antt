-- ===== src/Cli/Paths.antt =====
-- The comparison of two paths (`run_split` of opdf-cli/src/run.rs): the standard library compares
-- them by components. Those are the names between the separators, where an empty name and a `.` do
-- not count, but for a `.` at the start of a path that is not rooted, and the root. The paths are
-- those of a Unix system.
use open_pdf_editor.Base.{Bool, true, false, ◌&&◌, ◌||◌, ◌==◌, ℕ, List, [], ◌∷◌, if◌then◌else◌}
use open_pdf_editor.Cli.{Text, PathBuf, text, bytes, text_eq}

abbrev separator : ℕ
separator = b'/'

extend : ℕ → List Text → List Text
extend c [] = (c ∷ []) ∷ []
extend c (name ∷ names) = (c ∷ name) ∷ names

unfoldable pub pieces : Text → List Text
unfolding extend
pieces [] = [] ∷ []
pieces (c ∷ cs) = let rest = pieces cs in if c == separator then [] ∷ rest else extend c rest

abbrev is_dot : Text → Bool
is_dot name = text_eq name (b'.' ∷ [])

unfoldable pub names_of : List Text → List Text
unfolding text_eq
names_of [] = []
names_of (name ∷ names) =
    let rest = names_of names in if text_eq name [] || is_dot name then rest else name ∷ rest

abbrev starts_with_dot : List Text → Bool
starts_with_dot [] = false
starts_with_dot (name ∷ names) = is_dot name

abbrev has_root : Text → Bool
has_root [] = false
has_root (c ∷ cs) = c == separator

-- a leading `.` is the component `CurDir`, a root `RootDir`; no name is empty or has a separator
unfoldable pub components : Text → List Text
unfolding text_eq pieces names_of
components path =
    if has_root path
    then (separator ∷ []) ∷ names_of (pieces path)
    else if starts_with_dot (pieces path)
    then (b'.' ∷ []) ∷ names_of (pieces path)
    else names_of (pieces path)

unfoldable pub components_eq : List Text → List Text → Bool
unfolding text_eq
components_eq [] [] = true
components_eq [] (d ∷ ds) = false
components_eq (c ∷ cs) [] = false
components_eq (c ∷ cs) (d ∷ ds) = text_eq c d && components_eq cs ds

unfoldable pub path_eq : PathBuf → PathBuf → Bool
unfolding components components_eq
path_eq (text s) (text t) = components_eq (components s) (components t)
path_eq (bytes s) (bytes t) = components_eq (components s) (components t)
path_eq _ _ = false
