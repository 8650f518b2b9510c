-- ===== src/Tests/Mapping.antt =====
-- A page map with two pages and one in the trash.
use open_pdf_editor.Base.{ℕ, ◌≡◌, ◌≢◌, false, true, List, [], ◌∷◌, All, length}
use open_pdf_editor.Error.{done, failed, malformed}
use open_pdf_editor.Page.{PageId, PageSize, Rotation}
use open_pdf_editor.Document.{DocumentId}
use open_pdf_editor.VecDocument
use open_pdf_editor.VecDocument.{VecDocument, find_index}
use open_pdf_editor.PageMap.{
  PageSlot, PageMap, ObjectId, insert_slot, remove_slot, restore_slot, relocate_slot,
  rebind_objects, collect_object_ids,
}
use open_pdf_editor.PageMap.View.{view, view_outcome}
use open_pdf_editor.PageMap.Refinement.{refines}
use open_pdf_editor.PageMap.Rebinding.{rebind_objects_lem}
use open_pdf_editor.PdfDocument
use open_pdf_editor.PdfDocument.{PdfDocument}
use open_pdf_editor.Tests.Objects.{numbered}
use open_pdf_editor.PdfDocument.Refinement.{refines_reference, shown, shown_outcome}

abbrev slot : ℕ → PageSlot
slot i = record {
  id = i;
  object_id = (i, 0);
  size = record { width_pt = 595; height_pt = 842 };
  rotation = Rotation.none;
  rotation_changed = false;
}

abbrev page_map : PageMap
page_map = record {
  slots = slot 0 ∷ slot 2 ∷ [];
  removed = slot 1 ∷ [];
  allocator = record { next = 3 };
}

refines_example :
    ((id : PageId)
      → VecDocument.remove_page id (view 5 9 page_map) ≡ view_outcome 5 9 (remove_slot id page_map))
    × ((id : PageId) (at_index : ℕ)
        → VecDocument.restore_page id at_index (view 5 9 page_map)
          ≡ view_outcome 5 9 (restore_slot id at_index page_map))
    × ((id : PageId) (to_index : ℕ)
        → VecDocument.move_page id to_index (view 5 9 page_map)
          ≡ view_outcome 5 9 (relocate_slot id to_index page_map))
    × ((at_index : ℕ) (object : ObjectId) (size : PageSize)
        → VecDocument.insert_page at_index size (view 5 9 page_map)
          ≡ view_outcome 5 9 (insert_slot at_index object size Rotation.none page_map))
refines_example = refines 5 9 page_map

abbrev objects : List ObjectId
objects = (7, 0) ∷ (8, 0) ∷ []

rebind_objects_lem_example :
    (length objects ≡ length page_map.slots
      → (m' : PageMap) × (rebind_objects objects page_map ≡ done tt m')
        × (collect_object_ids m' ≡ objects)
        × All (λ s. s.rotation_changed ≡ false) m'.slots
        × ((document : DocumentId) (revision : ℕ)
            → view document revision m' ≡ view document revision page_map))
    × (length objects ≢ length page_map.slots
        → rebind_objects objects page_map ≡ failed malformed page_map)
rebind_objects_lem_example = rebind_objects_lem objects page_map

abbrev pdf : PdfDocument ℕ
pdf = record {
  id = 5;
  incremental = 20;
  root_pages_id = (2, 0);
  pages = page_map;
  revision = 9;
  dirty = record { structure = true; rotations = false };
}

refines_reference_example :
    (length (shown pdf).pages ≡ PdfDocument.page_count pdf)
    × (VecDocument.page_ids (shown pdf) ≡ PdfDocument.page_ids pdf)
    × ((id : PageId) → find_index (shown pdf) id ≡ PdfDocument.index_of pdf id)
    × ((id : PageId) → VecDocument.page (shown pdf) id ≡ PdfDocument.page pdf id)
    × ((id : PageId)
        → VecDocument.remove_page id (shown pdf) ≡ shown_outcome (PdfDocument.remove_page id pdf))
    × ((id : PageId) (at_index : ℕ)
        → VecDocument.restore_page id at_index (shown pdf)
          ≡ shown_outcome (PdfDocument.restore_page id at_index pdf))
    × ((id : PageId) (to_index : ℕ)
        → VecDocument.move_page id to_index (shown pdf)
          ≡ shown_outcome (PdfDocument.move_page id to_index pdf))
    × ((id : PageId) (r : Rotation)
        → VecDocument.set_rotation id r (shown pdf)
          ≡ shown_outcome (PdfDocument.set_rotation id r pdf))
    × ((at_index : ℕ) (size : PageSize)
        → VecDocument.insert_page at_index size (shown pdf)
          ≡ shown_outcome (PdfDocument.insert_page numbered at_index size pdf))
refines_reference_example = refines_reference numbered pdf
