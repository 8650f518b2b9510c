-- ===== src/PageMap/Rebinding.antt =====
-- After a compacting save: the slots point at the objects of the new file.
use open_pdf_editor.Base.{ℕ, ◌≡◌, ◌≢◌, refl, ap, false, List, [], ◌∷◌, All, map, length, arith}
use open_pdf_editor.Error.{done, failed, malformed}
use open_pdf_editor.Document.{DocumentId}
use open_pdf_editor.PageMap.{
  PageSlot, PageMap, ObjectId, collect_object_ids, rebind_each, rebind_objects,
}
use open_pdf_editor.PageMap.View.{info, view}

rebind_each-objects :
    (os : List ObjectId) (ss : List PageSlot)
    → length os ≡ length ss
    → map (λ s. s.object_id) (rebind_each os ss) ≡ os
unfolding rebind_each
rebind_each-objects [] [] h = refl
rebind_each-objects [] (s ∷ ss) h = absurd (omega arith)
rebind_each-objects (o ∷ os) [] h = absurd (omega arith)
rebind_each-objects (o ∷ os) (s ∷ ss) h = ap (o ∷◌) (rebind_each-objects os ss (omega arith))

rebind_each-info :
    (os : List ObjectId) (ss : List PageSlot) → map info (rebind_each os ss) ≡ map info ss
unfolding rebind_each
rebind_each-info [] ss = refl
rebind_each-info (o ∷ os) [] = refl
rebind_each-info (o ∷ os) (s ∷ ss) = ap (info s ∷◌) (rebind_each-info os ss)

rebind_each-rotation :
    (os : List ObjectId) (ss : List PageSlot)
    → length os ≡ length ss
    → All (λ s. s.rotation_changed ≡ false) (rebind_each os ss)
unfolding rebind_each
rebind_each-rotation [] [] h = tt
rebind_each-rotation [] (s ∷ ss) h = absurd (omega arith)
rebind_each-rotation (o ∷ os) [] h = absurd (omega arith)
rebind_each-rotation (o ∷ os) (s ∷ ss) h = (refl, rebind_each-rotation os ss (omega arith))

-- With one object for each page, rebinding succeeds: the slots then name those objects in order,
-- none carries a rotation that the file does not record, and the document shown is the same. With
-- any other number of objects it fails as malformed and changes nothing.
pub rebind_objects_lem :
    (os : List ObjectId) (m : PageMap)
    → (length os ≡ length m.slots
        → (m' : PageMap) × (rebind_objects os m ≡ done tt m')
          × (collect_object_ids m' ≡ os)
          × All (λ s. s.rotation_changed ≡ false) m'.slots
          × ((document : DocumentId) (revision : ℕ)
              → view document revision m' ≡ view document revision m))
      × (length os ≢ length m.slots → rebind_objects os m ≡ failed malformed m)
unfolding rebind_objects collect_object_ids
rebind_objects_lem os m = (
  λ h. (
    record m { slots = rebind_each os m.slots },
    ground (arith, h),
    rebind_each-objects os m.slots h,
    rebind_each-rotation os m.slots h,
    λ document revision.
        ap (λ ps. record (view document revision m) { pages = ps }) (rebind_each-info os m.slots),
  ),
  λ h. ground (arith, h),
)
