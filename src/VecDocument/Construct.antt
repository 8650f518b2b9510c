-- ===== src/VecDocument/Construct.antt =====
-- The documents that `with_pages` builds.
use open_pdf_editor.Base.{
  ℕ, zero, suc, ◌+◌, ◌≡◌, refl, ◌∙◌, [], ◌∷◌, ◌++◌, length, length-append, arith,
}
use open_pdf_editor.Page.{PageInfo, PageSize, Rotation, allocate}
use open_pdf_editor.Document.{DocumentId}
use open_pdf_editor.VecDocument.{VecDocument, new, push_pages, with_pages}
use open_pdf_editor.VecDocument.Search.{count, count-append}
use open_pdf_editor.VecDocument.Valid.{Valid}

abbrev unrotated : VecDocument → PageSize → PageInfo
unrotated d size = record { id = d.allocator.next; size = size; rotation = Rotation.none }

abbrev pushed : VecDocument → PageSize → VecDocument
pushed d size = record d {
  pages = d.pages ++ unrotated d size ∷ [];
  allocator = (allocate d.allocator).1;
}

pushed-Valid : (d : VecDocument) (size : PageSize) → Valid d → Valid (pushed d size)
unfolding count
pushed-Valid d size v = record {
  distinct =
      λ x. ground (arith, v.distinct x, v.fresh x, count-append x d.pages (unrotated d size ∷ []));
  fresh = λ x h. ground (arith, v.fresh x, count-append x d.pages (unrotated d size ∷ []));
}

push_pages-Valid :
    (n : ℕ) (size : PageSize) (d : VecDocument) → Valid d → Valid (push_pages n size d)
unfolding push_pages
push_pages-Valid zero size d v = v
push_pages-Valid (suc n) size d v = push_pages-Valid n size (pushed d size) (pushed-Valid d size v)

length-push_pages :
    (n : ℕ) (size : PageSize) (d : VecDocument)
    → length (push_pages n size d).pages ≡ length d.pages + n
unfolding push_pages
length-push_pages zero size d = omega arith
length-push_pages (suc n) size d =
    omega (
      arith,
      length-push_pages n size (pushed d size),
      length-append d.pages (unrotated d size ∷ []),
    )

-- `with_pages` builds a valid document of that many pages with an empty history.
pub with_pages-Valid :
    (id : DocumentId) (n : ℕ) (size : PageSize)
    → Valid (with_pages id n size) × (length (with_pages id n size).pages ≡ n)
unfolding with_pages count
with_pages-Valid id n size = (
  push_pages-Valid n size (new id) (record { distinct = λ x. omega arith; fresh = λ x h. refl }),
  length-push_pages n size (new id) ∙ omega arith,
)
