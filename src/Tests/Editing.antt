-- ===== src/Tests/Editing.antt =====
-- Documents, commands and the undo stack.
use open_pdf_editor.Base.{ℕ, ◌≡◌, refl, ◌+◌, ◌≤◌, length, true, false, [], ◌∷◌, arith}
use open_pdf_editor.Error.{done, failed, page_not_found}
use open_pdf_editor.Page.{PageInfo, PageSize, Rotation}
use open_pdf_editor.Command.{Label, remove_page, restore_page, apply_page_command, page_command}
use open_pdf_editor.Command.Composite.{
  Boxed, sequence, boxed_command, delete_selection, rotate_selection, apply_composite, apply_all,
  roll_back, composite_command,
}
use open_pdf_editor.VecDocument
use open_pdf_editor.VecDocument.{VecDocument, vec_document, with_pages, position, insert_page}
use open_pdf_editor.VecDocument.Valid.{Valid}
use open_pdf_editor.VecDocument.Construct.{with_pages-Valid}
use open_pdf_editor.UndoStack.{UndoStack, apply, undo, redo, push_undo}
use open_pdf_editor.UndoStack.Sessions.{Session, start, applied, undone}
use open_pdf_editor.UndoStack.Guarantees

model : Unit {0}
unfolding apply_page_command page_command boxed_command delete_selection rotate_selection
    apply_composite apply_all roll_back composite_command VecDocument.remove_page
    VecDocument.restore_page VecDocument.move_page VecDocument.set_rotation VecDocument.page
    VecDocument.page_ids insert_page VecDocument.import_pages VecDocument.insert_copies
    VecDocument.new_ids position with_pages apply undo redo push_undo
model = tt

abbrev a4 : PageSize
a4 = record { width_pt = 595; height_pt = 842 }

abbrev sheet : ℕ → PageInfo
sheet i = record { id = i; size = a4; rotation = Rotation.none }

abbrev three : VecDocument
three = record {
  id = 7;
  pages = sheet 0 ∷ sheet 1 ∷ sheet 2 ∷ [];
  removed = [];
  allocator = record { next = 3 };
  revision = 0;
}

three_lem : with_pages 7 3 a4 ≡ three
unfolding model
three_lem = refl

three-Valid : Valid three
three-Valid = rw three_lem at ((with_pages-Valid 7 3 a4).0)

abbrev Shallow : Type 0
Shallow = Boxed VecDocument 1

abbrev deletion : Shallow
deletion = sequence (Label.delete_many 2) (remove_page 0 ∷ remove_page 2 ∷ [])

deletion_lem : delete_selection (page_command vec_document) (0 ∷ 2 ∷ []) ≡ deletion
unfolding model
deletion_lem = refl

abbrev deleted : VecDocument
deleted = record three { pages = sheet 1 ∷ []; removed = sheet 0 ∷ sheet 2 ∷ []; revision = 2 }

abbrev restoration : Shallow
restoration =
    sequence (Label.undo_of (Label.delete_many 2)) (restore_page 2 1 ∷ restore_page 0 0 ∷ [])

deletion-done : (boxed_command vec_document 1).apply deletion three ≡ done restoration deleted
unfolding model
deletion-done = refl

apply-inverse_example :
    (c' : Shallow) × (i' : Shallow) × (d1 : VecDocument) × (d2 : VecDocument) × ((boxed_command
          vec_document 1).apply
        restoration deleted
      ≡ done c' d1)
    × (d1.pages ≡ three.pages)
    × ((boxed_command vec_document 1).apply c' d1 ≡ done i' d2)
    × (d2.pages ≡ deleted.pages)
apply-inverse_example = Guarantees.apply-inverse 1 deletion three three-Valid deletion-done

-- A selection with a page that is not there: the first removal is rolled back.
abbrev bad_deletion : Shallow
bad_deletion = sequence (Label.delete_many 2) (remove_page 0 ∷ remove_page 9 ∷ [])

bad_deletion-failed :
    (boxed_command vec_document 1).apply bad_deletion three
    ≡ failed (page_not_found 9) (record three { revision = 2 })
unfolding model
bad_deletion-failed = refl

apply-failed_example : Unit {0} × (three.pages ≡ three.pages)
apply-failed_example = Guarantees.apply-failed 1 bad_deletion three three-Valid bad_deletion-failed

abbrev after : UndoStack Shallow
after = record { undo = restoration ∷ []; redo = []; limit = 100 }

session : Session (boxed_command vec_document 1) 100 three 1 after deleted
unfolding model
session = applied start deletion (λ i d' h r. absurd (ground arith)) refl

undo-redo_example :
    (s1 : UndoStack Shallow) × (s2 : UndoStack Shallow) × (d1 : VecDocument) × (d2 : VecDocument)
    × (undo vec_document (boxed_command vec_document 1) after deleted ≡ done true (s1, d1))
    × (redo vec_document (boxed_command vec_document 1) s1 d1 ≡ done true (s2, d2))
    × (d2.pages ≡ deleted.pages)
    × (s2.redo ≡ [])
undo-redo_example = Guarantees.undo-redo 1 100 three three-Valid session refl

abbrev undone_stack : UndoStack Shallow
undone_stack = record {
  undo = [];
  redo =
      sequence (Label.undo_of (Label.undo_of (Label.delete_many 2)))
        (remove_page 0 ∷ remove_page 2 ∷ [])
      ∷ [];
  limit = 100;
}

abbrev restored : VecDocument
restored = record three { revision = 4 }

undone-Session : Session (boxed_command vec_document 1) 100 three 1 undone_stack restored
unfolding model
undone-Session = undone {b = true} session refl

redo-succeeds_example :
    (s1 : UndoStack Shallow) × (d1 : VecDocument) × (redo vec_document
        (boxed_command vec_document 1)
        undone_stack
        restored
      ≡ done true (s1, d1))
redo-succeeds_example = Guarantees.redo-succeeds 1 100 three three-Valid undone-Session refl

length-le-limit_example : length undone_stack.undo + length undone_stack.redo ≤ 100
length-le-limit_example = Guarantees.length-le-limit 1 100 three three-Valid undone-Session

undo_all_example :
    (s' : UndoStack Shallow) × (d' : VecDocument) × (Guarantees.undo_times 1 1 after deleted
      ≡ done false (s', d'))
    × (s'.undo ≡ [])
    × (d'.pages ≡ three.pages)
undo_all_example = Guarantees.undo_all 1 100 three three-Valid session (omega arith)
