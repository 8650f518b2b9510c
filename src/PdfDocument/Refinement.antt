-- ===== src/PdfDocument/Refinement.antt =====
-- The PDF document behaves as the reference document does.
use open_pdf_editor.Base.{
  ℕ, zero, suc, ◌≡◌, refl, ap, ◌∙◌, sym, length, List, [], ◌∷◌, map, get_elem?, modify, arith,
  Option-cases, inl, inr,
}
use open_pdf_editor.Error.{Outcome, done, failed}
use open_pdf_editor.Page.{PageId, PageSize, Rotation}
use open_pdf_editor.VecDocument
use open_pdf_editor.VecDocument.{VecDocument, position, find_index}
use open_pdf_editor.PageMap.{
  PageSlot, PageMap, slot_position, collect_ids, find_slot, find_slot_index, remove_slot,
  restore_slot, relocate_slot, insert_slot, fresh_slot,
}
use open_pdf_editor.PageMap.View.{
  info, view, view_outcome, position-map, get_elem?-map, insert_idx-map,
}
use open_pdf_editor.PageMap.Refinement.{refines}
use open_pdf_editor.Transfer.Extracting.{length-map}
use open_pdf_editor.PdfDocument
use open_pdf_editor.PdfDocument.{PdfDocument, Objects, structural, rotate_slot}

-- The reference document with the same identity, revision, pages and trash.
abbrev pub shown : {O : Type 0} → PdfDocument O → VecDocument
shown d = view d.id d.revision d.pages

abbrev pub shown_outcome : {O A : Type 0} → Outcome (PdfDocument O) A → Outcome VecDocument A
shown_outcome (done a d) = done a (shown d)
shown_outcome (failed e d) = failed e (shown d)

structural-shown :
    {O : Type 0} {A : Type 0} (d : PdfDocument O) (o : Outcome PageMap A)
    → shown_outcome (structural d o) ≡ view_outcome d.id d.revision o
structural-shown d (done a m) = refl
structural-shown d (failed e m) = refl

modify-map :
    (r : Rotation) (ss : List PageSlot) (i : ℕ)
    → modify (VecDocument.rotate_to r) (map info ss) i ≡ map info (modify (rotate_slot r) ss i)
modify-map r [] i = refl
modify-map r (s ∷ ss) zero = refl
modify-map r (s ∷ ss) (suc i) = ap (info s ∷◌) (modify-map r ss i)

set_rotation-shown :
    {O : Type 0} (d : PdfDocument O) (id : PageId) (r : Rotation)
    → VecDocument.set_rotation id r (shown d) ≡ shown_outcome (PdfDocument.set_rotation id r d)
unfolding VecDocument.set_rotation PdfDocument.set_rotation
set_rotation-shown d id r = elim (Option-cases (slot_position id d.pages.slots)) [
  | inl e ↦ ground (arith, e, position-map id d.pages.slots)
  | inr (i, e) ↦ ground (arith, e, position-map id d.pages.slots, modify-map r d.pages.slots i)
]

pub page-shown :
    {O : Type 0} (d : PdfDocument O) (id : PageId)
    → VecDocument.page (shown d) id ≡ PdfDocument.page d id
unfolding VecDocument.page PdfDocument.page find_slot find_slot_index
page-shown d id = elim (Option-cases (slot_position id d.pages.slots)) [
  | inl e ↦ ground (arith, e, position-map id d.pages.slots)
  | inr (i, e) ↦ elim (Option-cases (get_elem? d.pages.slots i)) [
    | inl f ↦
        ground (arith, e, f, position-map id d.pages.slots, get_elem?-map info d.pages.slots i)
    | inr (s, f) ↦
        ground (arith, e, f, position-map id d.pages.slots, get_elem?-map info d.pages.slots i)
  ]
]

map-map_id : (ss : List PageSlot) → map (λ p. p.id) (map info ss) ≡ map (λ s. s.id) ss
map-map_id [] = refl
map-map_id (s ∷ ss) = ap (s.id ∷◌) (map-map_id ss)

pub page_ids-shown :
    {O : Type 0} (d : PdfDocument O) → VecDocument.page_ids (shown d) ≡ PdfDocument.page_ids d
unfolding VecDocument.page_ids collect_ids
page_ids-shown d = map-map_id d.pages.slots

pub page_count-shown :
    {O : Type 0} (d : PdfDocument O) → length (shown d).pages ≡ PdfDocument.page_count d
page_count-shown d = length-map info d.pages.slots

pub index_of-shown :
    {O : Type 0} (d : PdfDocument O) (id : PageId)
    → find_index (shown d) id ≡ PdfDocument.index_of d id
unfolding find_slot_index
index_of-shown d id = ground (arith, position-map id d.pages.slots)

insert_page-shown :
    {O : Type 0} (objects : Objects O) (d : PdfDocument O) (at_index : ℕ) (size : PageSize)
    → VecDocument.insert_page at_index size (shown d)
      ≡ shown_outcome (PdfDocument.insert_page objects at_index size d)
unfolding VecDocument.insert_page PdfDocument.insert_page insert_slot
insert_page-shown objects d at_index size = ground (
  arith,
  length-map info d.pages.slots,
  insert_idx-map info d.pages.slots at_index (
      fresh_slot d.pages (objects.build_blank_page d.root_pages_id size d.incremental).0 size
        Rotation.none),
)

-- A PDF document answers its page queries, removes, restores, moves, rotates and inserts blank pages as the reference
-- document with its pages does: the same count, identities, pages and indices, and the same errors
-- and revision on every branch.
pub refines_reference :
    {O : Type 0} (objects : Objects O) (d : PdfDocument O)
    → (length (shown d).pages ≡ PdfDocument.page_count d)
      × (VecDocument.page_ids (shown d) ≡ PdfDocument.page_ids d)
      × ((id : PageId) → find_index (shown d) id ≡ PdfDocument.index_of d id)
      × ((id : PageId) → VecDocument.page (shown d) id ≡ PdfDocument.page d id)
      × ((id : PageId)
          → VecDocument.remove_page id (shown d) ≡ shown_outcome (PdfDocument.remove_page id d))
      × ((id : PageId) (at_index : ℕ)
          → VecDocument.restore_page id at_index (shown d)
            ≡ shown_outcome (PdfDocument.restore_page id at_index d))
      × ((id : PageId) (to_index : ℕ)
          → VecDocument.move_page id to_index (shown d)
            ≡ shown_outcome (PdfDocument.move_page id to_index d))
      × ((id : PageId) (r : Rotation)
          → VecDocument.set_rotation id r (shown d)
            ≡ shown_outcome (PdfDocument.set_rotation id r d))
      × ((at_index : ℕ) (size : PageSize)
          → VecDocument.insert_page at_index size (shown d)
            ≡ shown_outcome (PdfDocument.insert_page objects at_index size d))
unfolding PdfDocument.remove_page PdfDocument.restore_page PdfDocument.move_page
refines_reference objects d =
    let (removing, restoring, moving, _) = refines d.id d.revision d.pages in
    (
      page_count-shown d,
      page_ids-shown d,
      index_of-shown d,
      page-shown d,
      λ id. removing id ∙ sym (structural-shown d (remove_slot id d.pages)),
      λ id at_index.
          restoring id at_index ∙ sym (structural-shown d (restore_slot id at_index d.pages)),
      λ id to_index.
          moving id to_index ∙ sym (structural-shown d (relocate_slot id to_index d.pages)),
      set_rotation-shown d,
      insert_page-shown objects d,
    )
