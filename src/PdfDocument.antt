-- ===== src/PdfDocument.antt =====
-- The PDF document (opdf-pdf/src/document.rs) as an implementation of the contract `Document`. The
-- objects of the file, `incremental`, are a parameter `O`: what reads and writes them is the two
-- functions of opdf-pdf/src/objects.rs that the operations call, and those are parameters as well.
pub mod Refinement
pub mod Importing
use open_pdf_editor.Base.{
  ℕ, ◌+◌, Bool, true, false, ◌&&◌, not, List, [], ◌∷◌, length, Option, none, some, modify, ltb,
  if◌then◌else◌,
}
use open_pdf_editor.Error.{
  Error, Result, ok, err, Outcome, done, failed, page_not_found, index_out_of_bounds, malformed,
  ◌>>=◌,
}
use open_pdf_editor.Page.{PageId, PageInfo, PageSize, Rotation}
use open_pdf_editor.Document.{DocumentId, Document}
use open_pdf_editor.VecDocument.{advance_revision}
use open_pdf_editor.PageMap.{
  ObjectId, PageSlot, PageMap, slot_position, collect_ids, find_slot_index, find_slot, insert_slot,
  remove_slot, restore_slot, relocate_slot,
}

pub record DirtyState : Type 0 where
  pub structure : Bool
  pub rotations : Bool

abbrev pub is_clean : DirtyState → Bool
is_clean s = not s.structure && not s.rotations

pub record PdfDocument (O : Type 0) : Type 0 where
  pub id : DocumentId
  pub incremental : O
  pub root_pages_id : ObjectId
  pub pages : PageMap
  pub revision : ℕ
  pub dirty : DirtyState

-- What the operations call of opdf-pdf/src/objects.rs: `build_blank_page` adds a page under a
-- parent; `copy_page_into` copies a page of the source's objects, or finds none to copy, and either
-- way says what the target's objects are then.
pub record Objects (O : Type 0) : Type 0 where
  pub build_blank_page : ObjectId → PageSize → O → ObjectId × O
  pub copy_page_into : O → ObjectId → O → Option ObjectId × O

abbrev pub page_count : {O : Type 0} → PdfDocument O → ℕ
page_count d = length d.pages.slots

abbrev pub page_ids : {O : Type 0} → PdfDocument O → List PageId
page_ids d = collect_ids d.pages

unfoldable pub page : {O : Type 0} → PdfDocument O → PageId → Result PageInfo
page d id = do
  slot ← find_slot d.pages id
  ok (record { id = slot.id; size = slot.size; rotation = slot.rotation })

abbrev pub index_of : {O : Type 0} → PdfDocument O → PageId → Result ℕ
index_of d id = find_slot_index d.pages id

-- the end of the operations that change the structure
abbrev pub structural :
    {O A : Type 0} → PdfDocument O → Outcome PageMap A → Outcome (PdfDocument O) A
structural d (failed e m) = failed e (record d { pages = m })
structural d (done a m) = done a (record d {
  pages = m;
  dirty = record d.dirty { structure = true };
  revision = advance_revision d.revision;
})

-- what `set_rotation` does through `find_slot_mut`
abbrev pub rotate_slot : Rotation → PageSlot → PageSlot
rotate_slot r s = record s { rotation = r; rotation_changed = true }

-- what `import_pages` does through `find_slot_mut`
abbrev pub mark_slot : PageSlot → PageSlot
mark_slot s = record s { rotation_changed = true }

-- the first loop of `import_pages`: the source's pages, or the first error
unfoldable pub resolve_slots : PageMap → List PageId → Result (List PageSlot)
resolve_slots m [] = ok []
resolve_slots m (id ∷ ids) = do s ← find_slot m id; ss ← resolve_slots m ids; ok (s ∷ ss)

abbrev pub imported_dirty : List PageId → DirtyState → DirtyState
imported_dirty [] s = s
imported_dirty (id ∷ ids) s = record { structure = true; rotations = true }

module _ {O : Type 0} where
  unfoldable pub remove_page : PageId → PdfDocument O → Outcome (PdfDocument O) (Unit {0})
  remove_page id d = structural d (remove_slot id d.pages)

  unfoldable pub restore_page : PageId → ℕ → PdfDocument O → Outcome (PdfDocument O) (Unit {0})
  restore_page id at_index d = structural d (restore_slot id at_index d.pages)

  unfoldable pub move_page : PageId → ℕ → PdfDocument O → Outcome (PdfDocument O) (Unit {0})
  move_page id to_index d = structural d (relocate_slot id to_index d.pages)

  unfoldable pub set_rotation :
      PageId → Rotation → PdfDocument O → Outcome (PdfDocument O) (Unit {0})
  set_rotation id r d = elim (slot_position id d.pages.slots) [
    | none ↦ failed (page_not_found id) d
    | some i ↦ done tt (record d {
      pages = record d.pages { slots = modify (rotate_slot r) d.pages.slots i };
      dirty = record d.dirty { rotations = true };
      revision = advance_revision d.revision;
    })
  ]

  -- the end of a round of the second loop of `import_pages`, with the copy's slot in the map
  unfoldable pub mark_rotation : PageId → PdfDocument O → Outcome (PdfDocument O) (Unit {0})
  mark_rotation id d = elim (slot_position id d.pages.slots) [
    | none ↦ failed (page_not_found id) d
    | some i ↦
        done tt (record d { pages = record d.pages { slots = modify mark_slot d.pages.slots i } })
  ]

  -- a round of it, once the page is copied
  unfoldable pub insert_copied :
      ℕ → ObjectId → PageSlot → PdfDocument O → Outcome (PdfDocument O) PageId
  unfolding mark_rotation
  insert_copied at_index copied s d = elim (insert_slot at_index copied s.size s.rotation d.pages) [
    | failed e m ↦ failed e (record d { pages = m })
    | done id m ↦ elim (mark_rotation id (record d { pages = m })) [
      | failed e d' ↦ failed e d'
      | done _ d' ↦ done id d'
    ]
  ]

  -- the end of `import_pages`
  abbrev pub finish_import :
      Outcome (PdfDocument O) (List PageId) → Outcome (PdfDocument O) (List PageId)
  finish_import (failed e d) = failed e d
  finish_import (done ids d) =
      done ids
        (record d { dirty = imported_dirty ids d.dirty; revision = advance_revision d.revision })

module _ {O : Type 0} (objects : Objects O) where
  unfoldable pub insert_page : ℕ → PageSize → PdfDocument O → Outcome (PdfDocument O) PageId
  insert_page at_index size d =
      if ltb (length d.pages.slots) at_index
      then failed (index_out_of_bounds at_index (length d.pages.slots)) d
      else let (object, incremental) =
          objects.build_blank_page d.root_pages_id size d.incremental in
        structural (record d { incremental = incremental })
          (insert_slot at_index object size Rotation.none d.pages)

  -- the second loop of `import_pages`
  unfoldable pub copy_slots :
      PdfDocument O → List PageSlot → ℕ → PdfDocument O → Outcome (PdfDocument O) (List PageId)
  unfolding insert_copied
  copy_slots source [] at_index d = done [] d
  copy_slots source (s ∷ ss) at_index d =
      let (copy, incremental) =
        objects.copy_page_into source.incremental s.object_id d.incremental in
      elim copy [
        | none ↦ failed malformed (record d { incremental = incremental })
        | some copied ↦
            elim (insert_copied at_index copied s (record d { incremental = incremental })) [
              | failed e d' ↦ failed e d'
              | done id d' ↦ elim (copy_slots source ss (at_index + 1) d') [
                | failed e d'' ↦ failed e d''
                | done ids d'' ↦ done (id ∷ ids) d''
              ]
            ]
      ]

  unfoldable pub import_pages :
      PdfDocument O → List PageId → ℕ → PdfDocument O → Outcome (PdfDocument O) (List PageId)
  unfolding resolve_slots copy_slots
  import_pages source ids at_index d =
      if ltb (length d.pages.slots) at_index
      then failed (index_out_of_bounds at_index (length d.pages.slots)) d
      else elim (resolve_slots source.pages ids) [
        | err e ↦ failed e d
        | ok ss ↦ finish_import (copy_slots source ss at_index d)
      ]

  -- `impl Document for PdfDocument`
  abbrev pub pdf_document : Document (PdfDocument O)
  pdf_document = record {
    id = λ d. d.id;
    revision = λ d. d.revision;
    page_count = page_count;
    page_ids = page_ids;
    page = page;
    index_of = index_of;
    remove_page = remove_page;
    restore_page = restore_page;
    move_page = move_page;
    set_rotation = set_rotation;
    insert_page = insert_page;
    import_pages = import_pages;
  }
