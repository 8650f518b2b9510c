-- ===== src/Cli/Running/Merging.antt =====
-- What the `merge` subcommand writes, over the PDF document (`run_merge` of
-- opdf-cli/src/run.rs).
use open_pdf_editor.Base.{
  Any, subst, inl, inr, All, ◌≡◌, refl, sym, ap, ◌∙◌, arith, ◌⊎◌, true, false, ◌&&◌, not, List, [],
  ◌∷◌, ◌++◌, map, append-nil, append_assoc,
}
use open_pdf_editor.Error.{Error, malformed, ok, done, failed}
use open_pdf_editor.Page.{PageSize, Rotation}
use open_pdf_editor.Command.{PageCommand}
use open_pdf_editor.Command.Composite.{merge_all, push_removals, apply_composite}
use open_pdf_editor.VecDocument
use open_pdf_editor.VecDocument.{new_ids}
use open_pdf_editor.VecDocument.Valid.{Valid}
use open_pdf_editor.VecDocument.Reading.{ids_of, pages-Reads}
use open_pdf_editor.PdfDocument.{PdfDocument, Objects, pdf_document, page_ids}
use open_pdf_editor.PdfDocument.Refinement.{shown, page_ids-shown}
use open_pdf_editor.PdfDocument.Importing.{Uncopyable, import_pages-cases}
use open_pdf_editor.Cli.Running.Documents.{roll_back-failed}
use open_pdf_editor.Cli.{PathBuf, success, failure, operation}
use open_pdf_editor.Cli.Arguments.{MergeArgs}
use open_pdf_editor.Cli.Running.{
  DocumentIo, ◌>>=◌, guard_output, open_document, open_all, saved, commands, run_merge,
}
use open_pdf_editor.Cli.Running.Contents.{content, contents, contents-after_append}

module _ {O : Type 0} where
  abbrev pub all_contents : List (PdfDocument O) → List (PageSize × Rotation)
  all_contents [] = []
  all_contents (d ∷ ds) = contents (shown d) ++ all_contents ds

  -- One of the sources has a page that cannot be copied.
  abbrev pub AnyUncopyable : Objects O → List (PdfDocument O) → Type 0
  AnyUncopyable objects [] = ⊥
  AnyUncopyable objects (d ∷ ds) =
      Any (Uncopyable objects d) (page_ids d) ⊎ AnyUncopyable objects ds

  abbrev AllValid : List (PdfDocument O) → Type 0
  AllValid = All (λ d. Valid (shown d))

module _ {O W : Type 0} (objects : Objects O) (io : DocumentIo (PdfDocument O) W) where
  merge_all-cases :
      (sources : List (PdfDocument O)) (applied : List PageCommand) (d : PdfDocument O)
      → AllValid sources
      → ((applied' : List PageCommand) × (d' : PdfDocument O) × (merge_all
              (pdf_document objects)
              (commands (pdf_document objects) io)
              sources
              applied
              d
            ≡ done applied' d')
          × (contents (shown d') ≡ contents (shown d) ++ all_contents sources))
        ⊎ (AnyUncopyable objects sources
            × ((e : Error) × (d' : PdfDocument O) × (merge_all
                    (pdf_document objects)
                    (commands (pdf_document objects) io)
                    sources
                    applied
                    d
                  ≡ failed e d')))
  unfolding merge_all VecDocument.page_ids
  merge_all-cases [] applied d v = inl (applied, d, refl, sym (append-nil (contents (shown d))))
  merge_all-cases (source ∷ sources) applied d (v, vs) =
      let ps = (shown source).pages in
      let cmd = commands (pdf_document objects) io in
      let ids : page_ids source ≡ ids_of ps = sym (page_ids-shown source) in
      elim (import_pages-cases objects source d ps (pages-Reads (shown source) v)) [
        | inr (u, (d', one)) ↦
            let (e, d'', f) = roll_back-failed (pdf_document objects) cmd applied malformed d' in
            inr (
              inl (subst (Any (Uncopyable objects source)) (sym ids) u),
              (e, d'', rw (merge_all, ids, one) f),
            )
        | inl (next, one, same) ↦
            let new = new_ids d.pages.allocator.next ps in
            elim (merge_all-cases sources (push_removals (pdf_document objects) cmd new applied)
              next vs) [
                | inr (u, (e, d', f)) ↦ inr (inr u, (e, d', rw (merge_all, ids, one) f))
                | inl (applied', d', f, c) ↦ inl (
                  applied',
                  d',
                  rw (merge_all, ids, one) f,
                  c
                      ∙ ap (λ shows. contents shows ++ all_contents sources) same
                      ∙ ap (λ l. l ++ all_contents sources) (contents-after_append (shown d) ps)
                      ∙ append_assoc (contents (shown d)) (contents (shown source))
                          (all_contents sources),
                )
              ]
      ]

  -- The paths open, in order, as valid documents.
  abbrev pub AllOpen : List PathBuf → W → List (PdfDocument O) → Type 0
  AllOpen [] w [] = Unit
  AllOpen [] w (d ∷ ds) = ⊥
  AllOpen (path ∷ paths) w [] = ⊥
  AllOpen (path ∷ paths) w (d ∷ ds) =
      (io.open_file path w ≡ ok d) × Valid (shown d) × AllOpen paths w ds

  open_all-AllOpen :
      (paths : List PathBuf) (w : W) (ds : List (PdfDocument O))
      → AllOpen paths w ds
      → (open_all (pdf_document objects) io paths w ≡ (success ds, w)) × AllValid ds
  unfolding open_all open_document ◌>>=◌
  open_all-AllOpen [] w [] h = (refl, tt)
  open_all-AllOpen [] w (d ∷ ds) h = elim h [ ]
  open_all-AllOpen (path ∷ paths) w [] h = elim h [ ]
  open_all-AllOpen (path ∷ paths) w (d ∷ ds) (o, v, h) =
      let (e, vs) = open_all-AllOpen paths w ds h in (rw (open_all, o, e) refl, (v, vs))

  -- Where no output file is in the way, the inputs open as valid documents and the new document
  -- opens without pages, `merge` gets as far as saving, unless a page of an input cannot be copied:
  -- then it fails and leaves the disk as it was. What it saves, to the output's path and with no
  -- further failure than the save's, is a document that shows the pages of all inputs, each with
  -- its size and rotation, in order.
  pub run_merge-writes :
      (args : MergeArgs) (w : W) (sources : List (PdfDocument O)) (empty : PdfDocument O)
      → (args.force ≡ true) ⊎ (io.exists args.output_path w ≡ false)
      → AllOpen args.input_paths w sources
      → io.empty w ≡ ok empty
      → (shown empty).pages ≡ []
      → ((output : PdfDocument O) × (run_merge (pdf_document objects) io args w
            ≡ saved args.output_path (io.save_compacted args.output_path output w))
          × (contents (shown output) ≡ all_contents sources))
        ⊎ (AnyUncopyable objects sources
            × ((e : Error) × (run_merge (pdf_document objects) io args w
                  ≡ (failure (operation e), w))))
  unfolding run_merge ◌>>=◌ guard_output apply_composite
  run_merge-writes args w sources empty free o m n =
      let (opened, valid) = open_all-AllOpen args.input_paths w sources o in
      let passes : (not args.force && io.exists args.output_path w) ≡ false = ground arith in
      elim (merge_all-cases sources [] empty valid) [
        | inl (applied, output, e, c) ↦ inl (
          output,
          rw (passes, opened, m, e) refl,
          c ∙ ap (λ pages. map content pages ++ all_contents sources) n,
        )
        | inr (u, (e, d, f)) ↦ inr (u, (e, rw (passes, opened, m, f) refl))
      ]
