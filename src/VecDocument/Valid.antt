-- ===== src/VecDocument/Valid.antt =====
-- The invariant of `VecDocument`, and the order in which an undone document stands over the one
-- before: the same pages, and at least the same trash.
use open_pdf_editor.Base.{◌+◌, ◌≤◌, ◌≡◌, refl, ◌∙◌, some}
use open_pdf_editor.Page.{PageId, PageInfo}
use open_pdf_editor.VecDocument.{VecDocument}
use open_pdf_editor.VecDocument.Search.{count, find}

-- Every identity stands once, on a page or in the trash, and the allocator's next one nowhere.
pub record Valid (d : VecDocument) : Type 0 where
  pub distinct : (id : PageId) → count id d.pages + count id d.removed ≤ 1
  pub fresh : (id : PageId) → d.allocator.next ≤ id → count id d.pages + count id d.removed ≡ 0

pub record Extends (d e : VecDocument) : Type 0 where
  pub same_document : e.id ≡ d.id
  pub same_pages : e.pages ≡ d.pages
  pub kept : (id : PageId) (p : PageInfo) → find id d.removed ≡ some p → find id e.removed ≡ some p

pub Extends-refl : (d : VecDocument) → Extends d d
Extends-refl d = record { same_document = refl; same_pages = refl; kept = λ id p h. h }

pub Extends-trans : {d e f : VecDocument} → Extends d e → Extends e f → Extends d f
Extends-trans x y = record {
  same_document = y.same_document ∙ x.same_document;
  same_pages = y.same_pages ∙ x.same_pages;
  kept = λ id p h. y.kept id p (x.kept id p h);
}
