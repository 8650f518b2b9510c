-- ===== src/VecDocument/Importing.antt =====
-- What an import leaves: the pages with the copies among them, under new identities.
use open_pdf_editor.Base.{
  ℕ, zero, suc, ◌+◌, ◌≡◌, refl, ◌∙◌, List, [], ◌∷◌, ◌++◌, All, arith, length, length-append,
  insert_idx, append_assoc, append-nil, sym, ap,
}
use open_pdf_editor.Error.{done}
use open_pdf_editor.Page.{PageId, PageInfo}
use open_pdf_editor.VecDocument.{
  VecDocument, insert_copy, insert_copies, new_ids, import_pages, advance_revision,
}
use open_pdf_editor.VecDocument.Reading.{Reads, ids_of, collect_pages-ids_of}

-- The copies: size and rotation as they are, identities from the allocator's next on.
unfoldable pub copies : PageId → List PageInfo → List PageInfo
copies next [] = []
copies next (p ∷ ps) = record p { id = next } ∷ copies (next + 1) ps

insert_idx-length :
    {A : Type 0} (xs : List A) (i : ℕ) (x : A) → i ≡ length xs → insert_idx xs i x ≡ xs ++ x ∷ []
insert_idx-length [] zero x h = refl
insert_idx-length [] (suc i) x h = absurd (omega arith)
insert_idx-length (y ∷ ys) zero x h = absurd (omega arith)
insert_idx-length (y ∷ ys) (suc i) x h = ap (y ∷◌) (insert_idx-length ys i x (omega arith))

pub insert_copies-at_end :
    (i : ℕ) (ps : List PageInfo) (d : VecDocument)
    → i ≡ length d.pages
    → (insert_copies i ps d).pages ≡ d.pages ++ copies d.allocator.next ps
unfolding insert_copies copies
insert_copies-at_end i [] d h = sym (append-nil d.pages)
insert_copies-at_end i (p ∷ ps) d h =
    let q = record p { id = d.allocator.next } in
    let e = insert_idx-length d.pages i q h in
    let longer : i + 1 ≡ length (insert_idx d.pages i q) =
      omega (arith, h, ap length e, length-append d.pages (q ∷ [])) in
    insert_copies-at_end (i + 1) ps (insert_copy i p d) longer
    ∙ ap (λ l. l ++ copies (d.allocator.next + 1) ps) e
    ∙ append_assoc d.pages (q ∷ []) (copies (d.allocator.next + 1) ps)

pub new_ids-copies :
    (next : PageId) (ps : List PageInfo) → new_ids next ps ≡ ids_of (copies next ps)
unfolding new_ids copies
new_ids-copies next [] = refl
new_ids-copies next (p ∷ ps) = ap (next ∷◌) (new_ids-copies (next + 1) ps)

abbrev pub after_append : VecDocument → List PageInfo → VecDocument
after_append d ps = record (insert_copies (length d.pages) ps d) {
  revision = advance_revision d.revision;
}

-- Pages that the source reads are appended.
pub import_pages-done :
    (source : VecDocument) (ps : List PageInfo) (d : VecDocument)
    → All (Reads source) ps
    → import_pages source (ids_of ps) (length d.pages) d
      ≡ done (new_ids d.allocator.next ps) (after_append d ps)
unfolding import_pages
import_pages-done source ps d h = ground (arith, collect_pages-ids_of source ps h)
