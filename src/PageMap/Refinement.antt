-- ===== src/PageMap/Refinement.antt =====
-- The page map behaves as the reference document does.
use open_pdf_editor.Base.{
  ℕ, ◌≡◌, [], ◌∷◌, map-append, get_elem?, erase_idx, arith, Option-cases, inl, inr,
}
use open_pdf_editor.Page.{PageId, PageSize, Rotation}
use open_pdf_editor.Document.{DocumentId}
use open_pdf_editor.VecDocument
use open_pdf_editor.VecDocument.{VecDocument, position, advance_revision}
use open_pdf_editor.PageMap.{
  PageMap, ObjectId, slot_position, insert_slot, remove_slot, restore_slot, relocate_slot,
  fresh_slot,
}
use open_pdf_editor.PageMap.View.{
  info, view, view_outcome, position-map, get_elem?-map, erase_idx-map, insert_idx-map,
}
use open_pdf_editor.Transfer.Extracting.{length-map}

module _ (document : DocumentId) (revision : ℕ) (m : PageMap) where
  remove_slot-view :
      (id : PageId)
      → VecDocument.remove_page id (view document revision m)
        ≡ view_outcome document revision (remove_slot id m)
  unfolding VecDocument.remove_page remove_slot
  remove_slot-view id = elim (Option-cases (slot_position id m.slots)) [
    | inl e ↦ ground (arith, e, position-map id m.slots)
    | inr (i, e) ↦ elim (Option-cases (get_elem? m.slots i)) [
      | inl f ↦ ground (arith, e, f, position-map id m.slots, get_elem?-map info m.slots i)
      | inr (s, f) ↦ ground (
        arith,
        e,
        f,
        position-map id m.slots,
        get_elem?-map info m.slots i,
        erase_idx-map info m.slots i,
        map-append info m.removed (s ∷ []),
      )
    ]
  ]

  insert_slot-view :
      (at_index : ℕ) (object : ObjectId) (size : PageSize)
      → VecDocument.insert_page at_index size (view document revision m)
        ≡ view_outcome document revision (insert_slot at_index object size Rotation.none m)
  unfolding VecDocument.insert_page insert_slot
  insert_slot-view at_index object size = ground (
    arith,
    length-map info m.slots,
    insert_idx-map info m.slots at_index (fresh_slot m object size Rotation.none),
  )

  restore_slot-view :
      (id : PageId) (at_index : ℕ)
      → VecDocument.restore_page id at_index (view document revision m)
        ≡ view_outcome document revision (restore_slot id at_index m)
  unfolding VecDocument.restore_page restore_slot
  restore_slot-view id at_index = elim (Option-cases (slot_position id m.slots)) [
    | inr (i, e) ↦ ground (arith, e, position-map id m.slots)
    | inl e ↦ elim (Option-cases (slot_position id m.removed)) [
      | inl f ↦ ground (arith, e, f, position-map id m.slots, position-map id m.removed)
      | inr (i, f) ↦ elim (Option-cases (get_elem? m.removed i)) [
        | inl g ↦ ground (
          arith,
          e,
          f,
          g,
          position-map id m.slots,
          position-map id m.removed,
          length-map info m.slots,
          get_elem?-map info m.removed i,
        )
        | inr (s, g) ↦ ground (
          arith,
          e,
          f,
          g,
          position-map id m.slots,
          position-map id m.removed,
          length-map info m.slots,
          get_elem?-map info m.removed i,
          erase_idx-map info m.removed i,
          insert_idx-map info m.slots at_index s,
        )
      ]
    ]
  ]

  relocate_slot-view :
      (id : PageId) (to_index : ℕ)
      → VecDocument.move_page id to_index (view document revision m)
        ≡ view_outcome document revision (relocate_slot id to_index m)
  unfolding VecDocument.move_page relocate_slot
  relocate_slot-view id to_index = elim (Option-cases (slot_position id m.slots)) [
    | inl e ↦ ground (arith, e, position-map id m.slots)
    | inr (i, e) ↦ elim (Option-cases (get_elem? m.slots i)) [
      | inl f ↦ ground (arith, e, f, position-map id m.slots, get_elem?-map info m.slots i)
      | inr (s, f) ↦ ground (
        arith,
        e,
        f,
        position-map id m.slots,
        get_elem?-map info m.slots i,
        erase_idx-map info m.slots i,
        length-map info m.slots,
        length-map info (erase_idx m.slots i),
        insert_idx-map info (erase_idx m.slots i) i s,
        insert_idx-map info (erase_idx m.slots i) to_index s,
      )
    ]
  ]

  -- Removing, restoring, moving and inserting a blank page do to the pages that the map shows what
  -- the reference document does, with the same result or error on every branch.
  pub refines :
      ((id : PageId)
        → VecDocument.remove_page id (view document revision m)
          ≡ view_outcome document revision (remove_slot id m))
      × ((id : PageId) (at_index : ℕ)
          → VecDocument.restore_page id at_index (view document revision m)
            ≡ view_outcome document revision (restore_slot id at_index m))
      × ((id : PageId) (to_index : ℕ)
          → VecDocument.move_page id to_index (view document revision m)
            ≡ view_outcome document revision (relocate_slot id to_index m))
      × ((at_index : ℕ) (object : ObjectId) (size : PageSize)
          → VecDocument.insert_page at_index size (view document revision m)
            ≡ view_outcome document revision (insert_slot at_index object size Rotation.none m))
  refines = (remove_slot-view, restore_slot-view, relocate_slot-view, insert_slot-view)
