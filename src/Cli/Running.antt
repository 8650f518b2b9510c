-- ===== src/Cli/Running.antt =====
-- The four operations over files (opdf-cli/src/run.rs), for any implementation of the contracts
-- `Document` and `DocumentIo` (opdf-core/src/document.rs). `W` is what the process sees of the disk.
pub mod Refusals
pub mod Overwriting
pub mod Contents
pub mod Documents
pub mod Extracting
pub mod Merging
pub mod Splitting
use open_pdf_editor.Base.{
  ℕ, ◌-◌, Bool, true, false, ◌&&◌, ◌||◌, not, List, [], ◌∷◌, length, get_elem?, Option, none, some,
  ltb, if◌then◌else◌,
}
use open_pdf_editor.Error.{Error, index_out_of_bounds, Result, ok, err, Outcome, done, failed}
use open_pdf_editor.Page.{PageId}
use open_pdf_editor.Document.{Document}
use open_pdf_editor.Command.{Command, PageCommand, page_command}
use open_pdf_editor.Command.Composite.{Composite, merge, apply_composite, rotate_selection}
use open_pdf_editor.Transfer.{extract_range, split_at}
use open_pdf_editor.PageSelection.{SelectionPart, resolve, contiguous_runs}
use open_pdf_editor.Cli.{
  PathBuf, bytes, text_eq, OsString, CliError, Attempt, success, failure, map_err, usage,
  output_exists, open_failed, save_failed, operation, same_outputs, boundary_out_of_range,
}
use open_pdf_editor.Cli.Paths.{path_eq}
use open_pdf_editor.Cli.Arguments.{
  MergeArgs, SplitArgs, RotateArgs, ExtractArgs, Invocation, help, version,
}
use open_pdf_editor.Cli.Arguments

-- What `DocumentIo` has beside `Document`, with `PdfDocument::empty` and `Path::exists`, which the
-- code calls too
pub record DocumentIo (D W : Type 0) : Type 0 where
  pub open_file : PathBuf → W → Result D
  pub save_incremental : PathBuf → D → W → Outcome (D × W) (Unit {0})
  pub save_compacted : PathBuf → D → W → Outcome (D × W) (Unit {0})
  pub empty : W → Result D
  pub exists : PathBuf → W → Bool

-- A run: it may fail, and it leaves the disk in some state either way.
abbrev pub Run : Type 0 → Type 0 → Type 0
Run W A = W → Attempt A × W

-- how a run goes on after another
abbrev pub follow : {W A B : Type 0} → (A → Run W B) → Attempt A × W → Attempt B × W
follow f (success a, w) = f a w
follow f (failure e, w) = (failure e, w)

infixl 5 ◌>>=◌
unfoldable pub ◌>>=◌ : {W A B : Type 0} → Run W A → (A → Run W B) → Run W B
(m >>= f) w = follow f (m w)

-- an attempt that does not write
abbrev pub lift : {W A : Type 0} → (W → Attempt A) → Run W A
lift m w = (m w, w)

abbrev pub fail : {W A : Type 0} → CliError → Run W A
fail e w = (failure e, w)

abbrev pub return : {W A : Type 0} → A → Run W A
return a w = (success a, w)

-- what the code makes of an operation's result
abbrev pub operated : {D A : Type 0} → Outcome D A → Attempt D
operated (done _ d) = success d
operated (failed e _) = failure (operation e)

-- what `run_split` makes of a split's result
abbrev pub both_halves : {D A : Type 0} → Outcome (D × D) A → Attempt (D × D)
both_halves (done _ halves) = success halves
both_halves (failed e _) = failure (operation e)

abbrev pub saved : {D W : Type 0} → PathBuf → Outcome (D × W) (Unit {0}) → Attempt (Unit {0}) × W
saved path (done _ (_, w)) = (success tt, w)
saved path (failed e (_, w)) = (failure (save_failed path e), w)

abbrev pub path_or : Option PathBuf → PathBuf → PathBuf
path_or none path = path
path_or (some output) path = output

module _ {D W : Type 0} (doc : Document D) (io : DocumentIo D W) where
  abbrev pub commands : Command D PageCommand
  commands = page_command doc

  unfoldable pub open_document : PathBuf → Run W D
  open_document path = lift (λ w. map_err (open_failed path) (io.open_file path w))

  unfoldable pub guard_output : PathBuf → Bool → Run W (Unit {0})
  guard_output path force w =
      if not force && io.exists path w then (failure (output_exists path), w) else (success tt, w)

  -- the identities at the indices, or the error for the first index that is out of range
  unfoldable pub ids_at : List PageId → List ℕ → Attempt (List PageId)
  ids_at ids [] = success []
  ids_at ids (index ∷ indices) = elim (get_elem? ids index) [
    | none ↦ failure (operation (index_out_of_bounds index (length ids)))
    | some id ↦ elim (ids_at ids indices) [
      | failure e ↦ failure e
      | success rest ↦ success (id ∷ rest)
    ]
  ]

  unfoldable pub select_pages : D → List SelectionPart → Attempt (List PageId)
  unfolding ids_at
  select_pages document parts = elim (resolve parts (doc.page_count document)) [
    | err e ↦ failure (operation e)
    | ok indices ↦ ids_at (doc.page_ids document) indices
  ]

  abbrev pub save_compacted : D → PathBuf → Run W (Unit {0})
  save_compacted d path w = saved path (io.save_compacted path d w)

  abbrev pub save_incremental : D → PathBuf → Run W (Unit {0})
  save_incremental d path w = saved path (io.save_incremental path d w)

  unfoldable pub open_all : List PathBuf → Run W (List D)
  unfolding open_document
  open_all [] = return []
  open_all (path ∷ paths) = open_document path >>= λ d. open_all paths >>= λ ds. return (d ∷ ds)

  abbrev pub new_output : Run W D
  new_output = lift (λ w. map_err operation (io.empty w))

  unfoldable pub run_merge : MergeArgs → Run W (Unit {0})
  unfolding guard_output open_all
  run_merge args = guard_output args.output_path args.force >>= λ _.
      open_all args.input_paths >>= λ sources. new_output >>= λ output.
      lift (λ _. operated (apply_composite doc commands (merge sources) output)) >>= λ merged.
      save_compacted merged args.output_path

  abbrev pub split_documents : D → D → ℕ → Attempt (D × D)
  split_documents head tail boundary = both_halves (split_at doc commands boundary head tail)

  abbrev pub save_halves : SplitArgs → D × D → Run W (Unit {0})
  save_halves args (head, tail) =
      save_compacted head args.out_a_path >>= λ _. save_compacted tail args.out_b_path

  -- `run_split` from the check of the boundary on
  unfoldable pub split_head : SplitArgs → D → Run W (Unit {0})
  split_head args head =
      let page_count = doc.page_count head in
      if ltb args.at_page 2 || ltb page_count args.at_page
      then fail (usage (boundary_out_of_range args.at_page page_count))
      else (new_output >>= λ tail.
          lift (λ _. split_documents head tail (args.at_page - 1)) >>= save_halves args)

  unfoldable pub run_split : SplitArgs → Run W (Unit {0})
  unfolding path_eq guard_output open_document split_head
  run_split args =
      if path_eq args.out_a_path args.out_b_path
      then fail (usage same_outputs)
      else (guard_output args.out_a_path args.force >>= λ _.
          guard_output args.out_b_path args.force >>= λ _.
          open_document args.input_path >>= split_head args)

  abbrev pub guard_given : Option PathBuf → Bool → Run W (Unit {0})
  guard_given none force = return tt
  guard_given (some path) force = guard_output path force

  unfoldable pub run_rotate : RotateArgs → Run W (Unit {0})
  unfolding guard_output open_document
  run_rotate args = guard_given args.output_path args.force >>= λ _.
      open_document args.input_path >>= λ document.
      lift (λ _. select_pages document args.pages) >>= λ selected.
      lift (λ _.
        operated (
          apply_composite doc commands (rotate_selection commands selected args.rotation) document))
      >>= λ rotated. save_incremental rotated (path_or args.output_path args.input_path)

  -- the loop of `run_extract`
  unfoldable pub extract_runs : D → List (ℕ × ℕ) → D → Attempt D
  extract_runs source [] output = success output
  extract_runs source ((start, end) ∷ runs) output =
      elim (extract_range doc commands source start end output) [
        | failed e _ ↦ failure (operation e)
        | done _ output' ↦ extract_runs source runs output'
      ]

  unfoldable pub run_extract : ExtractArgs → Run W (Unit {0})
  unfolding guard_output open_document extract_runs
  run_extract args = guard_output args.output_path args.force >>= λ _.
      open_document args.input_path >>= λ source.
      lift (λ _. map_err operation (resolve args.pages (doc.page_count source))) >>= λ indices.
      new_output >>= λ output.
      lift (λ _. extract_runs source (contiguous_runs indices) output) >>= λ extracted.
      save_compacted extracted args.output_path

  -- the `match` of `run_opdf_cli` (opdf-cli/src/main.rs), but for what it prints
  unfoldable pub run_invocation : Invocation → Run W (Unit {0})
  unfolding run_merge run_split run_rotate run_extract
  run_invocation help = return tt
  run_invocation version = return tt
  run_invocation (Invocation.merge args) = run_merge args
  run_invocation (Invocation.split args) = run_split args
  run_invocation (Invocation.rotate args) = run_rotate args
  run_invocation (Invocation.extract args) = run_extract args
