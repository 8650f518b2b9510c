-- ===== src/Cli/Running/Splitting.antt =====
-- What the `split` subcommand writes, over the PDF document (`run_split` of
-- opdf-cli/src/run.rs).
use open_pdf_editor.Base.{
  Any, subst, ℕ, ◌-◌, ◌≤◌, ◌≡◌, refl, sym, ap, ◌∙◌, arith, ◌⊎◌, inl, inr, true, false, ◌&&◌, ◌||◌,
  not, [], ◌++◌, map, length, take, drop, ltb, take-append-drop,
}
use open_pdf_editor.Error.{ok, malformed, done}
use open_pdf_editor.Page.{PageInfo}
use open_pdf_editor.Command.{Label, PageCommand, page_command}
use open_pdf_editor.Command.Composite.{
  Composite, sequence, bound_inverse, apply_composite, removals,
}
use open_pdf_editor.Undo.PageLaws.{page_command-Lawful, PageReplays}
use open_pdf_editor.VecDocument
use open_pdf_editor.VecDocument.{vec_document}
use open_pdf_editor.VecDocument.Valid.{Valid}
use open_pdf_editor.VecDocument.Reading.{Reads, ids_of, pages-Reads, All-drop}
use open_pdf_editor.Transfer.{split_off, split_at}
use open_pdf_editor.Transfer.Extracting.{length-map, take-map, drop-map}
use open_pdf_editor.Transfer.Splitting.{removals-Runs}
use open_pdf_editor.PdfDocument.{PdfDocument, Objects, pdf_document, page_count, page_ids}
use open_pdf_editor.PdfDocument.Refinement.{shown, page_ids-shown, page_count-shown}
use open_pdf_editor.PdfDocument.Importing.{Uncopyable, import_pages-cases}
use open_pdf_editor.Cli.{success, failure, operation}
use open_pdf_editor.Cli.Arguments.{SplitArgs}
use open_pdf_editor.Cli.Paths.{path_eq}
use open_pdf_editor.Cli.Running.{
  DocumentIo, ◌>>=◌, guard_output, open_document, commands, split_documents, save_halves,
  split_head, run_split,
}
use open_pdf_editor.Cli.Running.Contents.{content, contents, contents-after_append}
use open_pdf_editor.Cli.Running.Documents.{removals-done}

module _ {O W : Type 0} (objects : Objects O) (io : DocumentIo (PdfDocument O) W) where
  -- the removal of the pages behind the first `boundary`
  split_off-done :
      (head tail : PdfDocument O) (boundary : ℕ)
      → Valid (shown head)
      → (inverse : Composite (PdfDocument O) (Composite (PdfDocument O) PageCommand))
        × (head' : PdfDocument O) × (split_off
              (pdf_document objects)
              (commands (pdf_document objects) io)
              (ids_of (drop boundary (shown head).pages))
              head
              tail
            ≡ done inverse (head', tail))
        × ((shown head').pages ≡ take boundary (shown head).pages)
  unfolding split_off apply_composite removals page_command
  split_off-done head tail boundary v =
      let kept = take boundary (shown head).pages in
      let moved = drop boundary (shown head).pages in
      let (d, r, same) =
        removals-Runs (page_command vec_document) PageReplays page_command-Lawful kept moved
          (shown head) v (sym (take-append-drop boundary (shown head).pages)) in
      let (applied, head', e, shows) = removals-done objects (ids_of moved) [] head r in
      (
        bound_inverse head'.id (sequence (Label.undo_of Label.split_off_tail) applied),
        head',
        ground (arith, e),
        ap (λ d. d.pages) shows ∙ same,
      )

  -- the halves of a document, or a page that cannot be copied
  split_documents-cases :
      (head tail : PdfDocument O) (boundary : ℕ)
      → Valid (shown head)
      → (shown tail).pages ≡ []
      → boundary ≤ page_count head
      → ((head' : PdfDocument O) × (tail' : PdfDocument O) × (split_documents
              (pdf_document objects)
              io
              head
              tail
              boundary
            ≡ success (head', tail'))
          × (contents (shown head') ≡ take boundary (contents (shown head)))
          × (contents (shown tail') ≡ drop boundary (contents (shown head))))
        ⊎ (Any (Uncopyable objects head) (drop boundary (page_ids head))
            × (split_documents (pdf_document objects) io head tail boundary
                ≡ failure (operation malformed)))
  unfolding split_at VecDocument.page_ids
  split_documents-cases head tail boundary v n b =
      let all = (shown head).pages in
      let moved = drop boundary all in
      let reads = All-drop (Reads (shown head)) boundary all (pages-Reads (shown head) v) in
      let listed : page_ids head ≡ ids_of all = sym (page_ids-shown head) in
      let ids : drop boundary (page_ids head) ≡ ids_of moved =
        ap (drop boundary) listed ∙ drop-map (λ (p : PageInfo). p.id) boundary all in
      let counted : length (page_ids head) ≡ page_count head =
        ap length listed ∙ length-map (λ (p : PageInfo). p.id) all ∙ page_count-shown head in
      let inside : ltb (length (page_ids head)) boundary ≡ false = ground arith in
      elim (import_pages-cases objects head tail moved reads) [
        | inr (u, (d, one)) ↦
            inr (subst (Any (Uncopyable objects head)) (sym ids) u, rw (inside, ids, one) refl)
        | inl (tail', one, same) ↦
            let (inverse, head', off, kept) = split_off-done head tail' boundary v in
            let cmd = commands (pdf_document objects) io in
            let taken = ap (λ l. split_off (pdf_document objects) cmd l head tail') ids ∙ off in
            let copied =
              ap (λ l. (pdf_document objects).import_pages head l (page_count tail) tail) ids
              ∙ one in
            inl (
              head',
              tail',
              rw (inside, copied, taken) refl,
              ap (map content) kept ∙ sym (take-map content boundary all),
              ap contents same
                  ∙ contents-after_append (shown tail) moved
                  ∙ ap (λ pages. map content pages ++ map content moved) n
                  ∙ sym (drop-map content boundary all),
            )
      ]

  -- Where the outputs are two files, neither in the way, the input opens as a valid document, the
  -- page to split at is one of its pages but the first and the new document opens without pages,
  -- `split` gets as far as saving, unless one of the pages from that page on cannot be copied: then
  -- it fails with that error and leaves the disk as it was. It saves to the two paths and with no
  -- further failure than the saves': the first document shows the pages before that page, the second
  -- that page and those after it, each with its size and rotation, in order.
  pub run_split-writes :
      (args : SplitArgs) (w : W) (source empty : PdfDocument O)
      → path_eq args.out_a_path args.out_b_path ≡ false
      → (args.force ≡ true) ⊎ (io.exists args.out_a_path w ≡ false)
      → (args.force ≡ true) ⊎ (io.exists args.out_b_path w ≡ false)
      → io.open_file args.input_path w ≡ ok source
      → io.empty w ≡ ok empty
      → Valid (shown source)
      → (shown empty).pages ≡ []
      → 2 ≤ args.at_page
      → args.at_page ≤ page_count source
      → ((head : PdfDocument O) × (tail : PdfDocument O) × (run_split
              (pdf_document objects)
              io
              args
              w
            ≡ save_halves (pdf_document objects) io args (head, tail) w)
          × (contents (shown head) ≡ take (args.at_page - 1) (contents (shown source)))
          × (contents (shown tail) ≡ drop (args.at_page - 1) (contents (shown source))))
        ⊎ (Any (Uncopyable objects source) (drop (args.at_page - 1) (page_ids source))
            × (run_split (pdf_document objects) io args w ≡ (failure (operation malformed), w)))
  unfolding run_split split_head ◌>>=◌ guard_output open_document
  run_split-writes args w source empty differ free_a free_b o m v n low high =
      let first : (not args.force && io.exists args.out_a_path w) ≡ false = ground arith in
      let second : (not args.force && io.exists args.out_b_path w) ≡ false = ground arith in
      let inside : (ltb args.at_page 2 || ltb (page_count source) args.at_page) ≡ false =
        ground arith in
      elim (split_documents-cases source empty (args.at_page - 1) v n (omega arith)) [
        | inl (head, tail, e, a, b) ↦
            inl (head, tail, rw (differ, first, second, o, inside, m, e) refl, a, b)
        | inr (u, e) ↦ inr (u, rw (differ, first, second, o, inside, m, e) refl)
      ]
