-- ===== src/Cli/Running/Documents.antt =====
-- The commands of the subcommands over a PDF document (opdf-pdf/src/document.rs), by what the
-- document shows.
use open_pdf_editor.Base.{
  Any, subst, ℕ, ◌-◌, ◌≤◌, ◌≡◌, refl, sym, ap, ◌∙◌, arith, ◌⊎◌, inl, inr, List, [], ◌∷◌, map,
  length, take, drop,
}
use open_pdf_editor.Error.{
  rollback_failed, unsupported, Result-cases, Error, malformed, Outcome-cases, done, failed,
}
use open_pdf_editor.Page.{PageId, PageInfo}
use open_pdf_editor.VecDocument
use open_pdf_editor.PdfDocument
use open_pdf_editor.Document.{Document}
use open_pdf_editor.Command.{Label, Command, PageCommand, page_command, remove_page}
use open_pdf_editor.Command.Composite.{sequence, bound_inverse, roll_back, apply_all, removals}
use open_pdf_editor.VecDocument.{new_ids, VecDocument, vec_document}
use open_pdf_editor.VecDocument.Valid.{Valid}
use open_pdf_editor.VecDocument.Reading.{ids_of, pages-Reads, Reads, All-take, All-drop}
use open_pdf_editor.VecDocument.Importing.{after_append}
use open_pdf_editor.Undo.Runs.{Runs}
use open_pdf_editor.Transfer.{Extraction, extract_range}
use open_pdf_editor.Transfer.Extracting.{length-map, slice, take-map, drop-map}
use open_pdf_editor.PdfDocument.{PdfDocument, Objects, pdf_document, index_of, page_count, page_ids}
use open_pdf_editor.PdfDocument.Refinement.{
  shown, shown_outcome, page_ids-shown, index_of-shown, refines_reference,
}
use open_pdf_editor.PdfDocument.Importing.{Uncopyable, import_pages-cases}

-- rolling back ends in an error, whatever it undoes
pub roll_back-failed :
    {D C : Type 0} (doc : Document D) (cmd : Command D C) (applied : List C) (e : Error) (d : D)
    → (e' : Error) × (d' : D) × (roll_back doc cmd applied e d ≡ failed e' d')
unfolding roll_back
roll_back-failed doc cmd [] e d = (e, d, refl)
roll_back-failed doc cmd (c ∷ cs) e d = elim (Outcome-cases (cmd.apply c d)) [
  | inl (i, d', h) ↦
      let (e', d'', f) = roll_back-failed doc cmd cs e d' in (e', d'', rw (roll_back, h) f)
  | inr (x, d', h) ↦ (rollback_failed e unsupported, d', rw (roll_back, h) refl)
]

apply_all-step :
    {D C : Type 0} (doc : Document D) (cmd : Command D C) (cs applied : List C) {c i : C} {d d' : D}
    → cmd.apply c d ≡ done i d'
    → apply_all doc cmd (c ∷ cs) applied d ≡ apply_all doc cmd cs (i ∷ applied) d'
unfolding apply_all
apply_all-step doc cmd cs applied h = rw (apply_all, h) refl

module _ {O : Type 0} (objects : Objects O) where
  abbrev pdf_commands : Command (PdfDocument O) PageCommand
  pdf_commands = page_command (pdf_document objects)

  -- removing a page does to what is shown what it does to the reference document
  removal-shown :
      (id : PageId) (d : PdfDocument O)
      → (page_command vec_document).apply (remove_page id) (shown d)
        ≡ shown_outcome (pdf_commands.apply (remove_page id) d)
  unfolding page_command
  removal-shown id d =
      let (_, _, _, _, removing, _, _, _, _) = refines_reference objects d in
      elim (Result-cases (index_of d id)) [
        | inl (i, e) ↦ elim (Outcome-cases (PdfDocument.remove_page id d)) [
          | inl (_, d', f) ↦ ground (arith, e, f, index_of-shown d id, removing id)
          | inr (x, d', f) ↦ ground (arith, e, f, index_of-shown d id, removing id)
        ]
        | inr (x, e) ↦ ground (arith, e, index_of-shown d id)
      ]

  -- removals that run on what a document shows run on it
  pub removals-done :
      (ids : List PageId) (applied : List PageCommand) (d : PdfDocument O) {e : VecDocument}
      → Runs (page_command vec_document) (map remove_page ids) (shown d) e
      → (applied' : List PageCommand) × (d' : PdfDocument O) × (apply_all
            (pdf_document objects)
            pdf_commands
            (map remove_page ids)
            applied
            d
          ≡ done applied' d')
        × (shown d' ≡ e)
  unfolding apply_all
  removals-done [] applied d r = (applied, d, refl, sym r)
  removals-done (id ∷ ids) applied d {e} (i, d1, h, r) =
      elim (Outcome-cases (pdf_commands.apply (remove_page id) d)) [
        | inl (j, d', f) ↦
            let both : done j (shown d') ≡ done i d1 =
              ap shown_outcome (sym f) ∙ sym (removal-shown id d) ∙ h in
            let same : shown d' ≡ d1 = cc both in
            let rest =
              subst (λ v. Runs (page_command vec_document) (map remove_page ids) v e) (sym same)
                r in
            let (applied', d'', g, k) = removals-done ids (j ∷ applied) d' rest in
            (applied', d'', apply_all-step (pdf_document objects) pdf_commands _ applied f ∙ g, k)
        | inr (x, d', f) ↦ absurd (cc (ap shown_outcome (sym f) ∙ sym (removal-shown id d) ∙ h))
      ]

  -- A range of a document that shows a valid one is appended, or one of its
  -- pages cannot be copied.
  pub extract_range-cases :
      (source target : PdfDocument O) (start end : ℕ)
      → Valid (shown source)
      → start ≤ end
      → end ≤ length (shown source).pages
      → ((x : Extraction (PdfDocument O) PageCommand) × (d : PdfDocument O) × (extract_range
              (pdf_document objects)
              (page_command (pdf_document objects))
              source
              start
              end
              target
            ≡ done x d)
          × (shown d ≡ after_append (shown target) (slice (shown source) start end)))
        ⊎ (Any (Uncopyable objects source) (ids_of (slice (shown source) start end))
            × ((d : PdfDocument O) × (extract_range
                    (pdf_document objects)
                    (page_command (pdf_document objects))
                    source
                    start
                    end
                    target
                  ≡ failed malformed d)))
  unfolding extract_range removals VecDocument.page_ids
  extract_range-cases source target start end v h k =
      let ps = slice (shown source) start end in
      let reads = All-take (Reads (shown source)) (end - start) (drop start (shown source).pages) (
        All-drop (Reads (shown source)) start (shown source).pages
          (pages-Reads (shown source) v)) in
      let ids : take (end - start) (drop start (page_ids source)) ≡ ids_of ps =
        ap (λ l. take (end - start) (drop start l)) (sym (page_ids-shown source))
        ∙ ap (take (end - start)) (drop-map (λ p. p.id) start (shown source).pages)
        ∙ take-map (λ p. p.id) (end - start) (drop start (shown source).pages) in
      let counted =
        ap length (sym (page_ids-shown source))
        ∙ length-map (λ (p : PageInfo). p.id) (shown source).pages in
      elim (import_pages-cases objects source target ps reads) [
        | inl (d, e, same) ↦ inl (
          record {
            page_ids = new_ids target.pages.allocator.next ps;
            inverse = bound_inverse d.id (
                sequence Label.undo_extraction (
                  removals (pdf_document objects) pdf_commands
                    (new_ids target.pages.allocator.next ps)));
          },
          d,
          ground (arith, ids, counted, e),
          same,
        )
        | inr (u, (d, e)) ↦ inr (u, (d, ground (arith, ids, counted, e)))
      ]
