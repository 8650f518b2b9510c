-- ===== src/Transfer/Splitting.antt =====
-- Splitting a document at a page boundary.
use open_pdf_editor.Base.{
  append-nil, ℕ, ◌≤◌, ◌≡◌, refl, ◌∙◌, List, [], ◌∷◌, ◌++◌, arith, length, erase_idx, take, drop,
  take-append-drop, sym, ap,
}
use open_pdf_editor.Error.{done}
use open_pdf_editor.Page.{PageInfo}
use open_pdf_editor.Command.{Label, Command}
use open_pdf_editor.Command.Composite.{Composite, sequence, bound_inverse, removals}
use open_pdf_editor.VecDocument.{VecDocument, vec_document, page_ids}
use open_pdf_editor.VecDocument.Valid.{Valid, Extends-refl}
use open_pdf_editor.VecDocument.Preserve.{after_remove, remove_page-done, after_remove-Valid}
use open_pdf_editor.VecDocument.Reading.{Reads, ids_of, pages-Reads, All-drop, Located-append_cons}
use open_pdf_editor.VecDocument.Importing.{
  copies, insert_copies-at_end, after_append, import_pages-done,
}
use open_pdf_editor.Undo.Lawful.{Lawful}
use open_pdf_editor.Undo.Runs.{Runs, apply_all-Runs}
use open_pdf_editor.Undo.Sequences.{apply_all-TakesBack}
use open_pdf_editor.Transfer.{split_at}
use open_pdf_editor.Transfer.Extracting.{length-map, drop-map, bound-TakesOut, TakesOut}

erase_idx-append_cons :
    (pre ps : List PageInfo) (p : PageInfo) → erase_idx (pre ++ p ∷ ps) (length pre) ≡ pre ++ ps
erase_idx-append_cons [] ps p = refl
erase_idx-append_cons (q ∷ pre) ps p = ap (q ∷◌) (erase_idx-append_cons pre ps p)

module _ {C : Type 0} (cmd : Command VecDocument C) (Replays : C → Type 0)
    (l : Lawful cmd Replays) where
  -- Removing the pages behind `pre`, one by one from the front, leaves `pre`.
  pub removals-Runs :
      (pre ps : List PageInfo) (d : VecDocument)
      → Valid d
      → d.pages ≡ pre ++ ps
      → (e : VecDocument) × Runs cmd (removals vec_document cmd (ids_of ps)) d e × (e.pages ≡ pre)
  unfolding removals
  removals-Runs pre [] d v h = (d, refl, h ∙ append-nil pre)
  removals-Runs pre (p ∷ ps) d v h =
      let m = Located-append_cons d pre ps p v h in
      let (i, a) = l.removal p.id d (remove_page-done d m) in
      let shorter : erase_idx d.pages (length pre) ≡ pre ++ ps =
        ap (λ qs. erase_idx qs (length pre)) h ∙ erase_idx-append_cons pre ps p in
      let (e, r, q) =
        removals-Runs pre ps (after_remove d (length pre) p) (after_remove-Valid v m) shorter in
      (e, (i, after_remove d (length pre) p, a, r), q)

  -- On two valid documents and a boundary within the first, the split succeeds: the pages from the
  -- boundary on are appended to the target as copies under new identities, and the document keeps
  -- those before it. The inverse gives the document its pages back, and refuses every document with
  -- another identity, leaving it as it was.
  pub split_at-TakesOut :
      (document target : VecDocument) (boundary : ℕ)
      → Valid document
      → Valid target
      → boundary ≤ length document.pages
      → (inverse : Composite VecDocument (Composite VecDocument C)) × (document' : VecDocument)
        × (target' : VecDocument) × (split_at vec_document cmd boundary document target
            ≡ done inverse (document', target'))
        × (document'.pages ≡ take boundary document.pages)
        × (target'.pages
            ≡ target.pages ++ copies target.allocator.next (drop boundary document.pages))
        × TakesOut cmd Replays l inverse document' document.pages
  unfolding split_at page_ids
  split_at-TakesOut document target boundary v w h =
      let tail = drop boundary document.pages in
      let reads = All-drop (Reads document) boundary document.pages (pages-Reads document v) in
      let ids = drop-map (λ (p : PageInfo). p.id) boundary document.pages in
      let imported = import_pages-done document tail target reads in
      let counted = length-map (λ (p : PageInfo). p.id) document.pages in
      let parts = sym (take-append-drop boundary document.pages) in
      let (d', r, kept) = removals-Runs (take boundary document.pages) tail document v parts in
      let (applied, f) =
        apply_all-Runs cmd (removals vec_document cmd (ids_of tail)) [] document r in
      let (_, _, t) =
        apply_all-TakesBack cmd Replays l (removals vec_document cmd (ids_of tail)) [] document
          document v tt (document, refl, Extends-refl document) f in
      (
        bound_inverse d'.id (sequence (Label.undo_of Label.split_off_tail) applied),
        d',
        after_append target tail,
        ground (arith, ids, imported, counted, f),
        kept,
        insert_copies-at_end (length target.pages) tail target refl,
        bound-TakesOut cmd Replays l (Label.undo_of Label.split_off_tail) applied d' document d'.id
            refl t,
      )
