-- ===== src/Undo/PageInverse.antt =====
-- The inverse of a command on one page takes the pages back, and its trash loses nothing.
use native.Mathlib.Decide.{ℕ_discrete}
use open_pdf_editor.Base.{
  ℕ, ◌≤◌, ◌<◌, ◌≡◌, refl, ◌∙◌, some, List, [], ◌∷◌, ◌++◌, arith, length, insert_idx, erase_idx,
  insert_idx-erase_idx, erase_idx-insert_idx, length-erase_idx, length-insert_idx,
}
use open_pdf_editor.Error.{done}
use open_pdf_editor.Page.{PageId, PageInfo, PageSize, Rotation, allocate}
use open_pdf_editor.Command.{
  PageCommand, set_rotation, move_page, remove_page, restore_page, apply_page_command,
}
use open_pdf_editor.VecDocument.{VecDocument, advance_revision, vec_document}
use open_pdf_editor.VecDocument.Search.{
  hits, count, find, Located, count-insert_idx, count-erase_idx, find_of_count_zero,
  Located-of_find, find-erase_idx, find-append, find-append_right, Located-of_element,
  Located-insert_idx, position-modify, get_elem?-modify, modify-modify,
}
use open_pdf_editor.VecDocument.Valid.{Valid, Extends}
use open_pdf_editor.VecDocument.Preserve.{after_remove, after_restore, after_move, after_rotate}
use open_pdf_editor.Undo.PageCommands.{
  apply-remove-done, apply-move-done, apply-rotate-done, apply-restore-done,
}

-- What undoing comes to: the inverse succeeds, and gives a document over the one before.
abbrev pub Undone : VecDocument → VecDocument → PageCommand → Type 0
Undone d d' inverse =
    (c' : PageCommand) × (d'' : VecDocument) × (apply_page_command vec_document inverse d'
      ≡ done c' d'')
    × Extends d d''

pub find-last :
    {id : PageId} {p : PageInfo} (ps : List PageInfo)
    → count id ps ≡ 0
    → p.id ≡ id
    → find id (ps ++ p ∷ []) ≡ some p
unfolding find
find-last {id} {p} ps c e = find-append_right id ps (p ∷ []) c ∙ ground arith

module _ {id : PageId} (d : VecDocument) (v : Valid d) {i : ℕ} {p : PageInfo} where
  -- An identity that is on a page is nowhere else.
  pub Located-unique :
      Located id d.pages i p → (count id (erase_idx d.pages i) ≡ 0) × (count id d.removed ≡ 0)
  Located-unique l =
      let c = count-erase_idx id d.pages i l.element in
      let h : hits id p ≡ 1 = ground (arith, l.same_id) in
      (omega (arith, v.distinct id, l.counted), omega (arith, v.distinct id, l.counted))

  pub Located-unique_removed :
      Located id d.removed i p → (count id (erase_idx d.removed i) ≡ 0) × (count id d.pages ≡ 0)
  Located-unique_removed l =
      let c = count-erase_idx id d.removed i l.element in
      let h : hits id p ≡ 1 = ground (arith, l.same_id) in
      (omega (arith, v.distinct id, l.counted), omega (arith, v.distinct id, l.counted))

  remove-kept :
      (l : Located id d.pages i p) (j : ℕ)
      → Located id (d.removed ++ p ∷ []) j p
      → (x : PageId) (q : PageInfo) → find x d.removed ≡ some q
      → find x (erase_idx (d.removed ++ p ∷ []) j) ≡ some q
  remove-kept l j m x q h = elim (ℕ_discrete x id) [
    | yes same ↦ absurd (cc (find_of_count_zero x d.removed (rw same (Located-unique l).1)))
    | no other ↦
        find-erase_idx id x (d.removed ++ p ∷ []) j m.at_position other
        ∙ find-append x d.removed (p ∷ []) h
  ]

  pub remove-Undone : Located id d.pages i p → Undone d (after_remove d i p) (restore_page id i)
  remove-Undone l =
      let (erased, absent) = Located-unique l in
      let inside : i ≤ length (erase_idx d.pages i) =
        omega (arith, l.in_range, length-erase_idx d.pages i) in
      let (j, m) = Located-of_find id _ (find-last d.removed absent l.same_id) in
      (
        remove_page id,
        after_restore (after_remove d i p) j i p,
        apply-restore-done (after_remove d i p) i erased m inside,
        record {
          same_document = refl;
          same_pages = insert_idx-erase_idx d.pages i p l.element;
          kept = remove-kept l j m;
        },
      )

  restore-kept :
      (l : Located id d.removed i p) (x : PageId) (q : PageInfo)
      → find x d.removed ≡ some q
      → find x (erase_idx d.removed i ++ p ∷ []) ≡ some q
  restore-kept l x q h = elim (ℕ_discrete x id) [
    | yes same ↦
        let last = find-last (erase_idx d.removed i) (Located-unique_removed l).0 l.same_id in
        rw same (last ∙ cc (l.found))
    | no other ↦
        find-append x (erase_idx d.removed i) (p ∷ [])
          (find-erase_idx id x d.removed i l.at_position other ∙ h)
  ]

  pub restore-Undone :
      (at_index : ℕ)
      → Located id d.removed i p
      → at_index ≤ length d.pages
      → Undone d (after_restore d i at_index p) (remove_page id)
  restore-Undone at_index l h =
      let absent = (Located-unique_removed l).1 in
      let m = Located-insert_idx id d.pages at_index p l.same_id h absent in
      (
        restore_page id at_index,
        after_remove (after_restore d i at_index p) at_index p,
        apply-remove-done (after_restore d i at_index p) m,
        record {
          same_document = refl;
          same_pages = erase_idx-insert_idx d.pages at_index p h;
          kept = restore-kept l;
        },
      )

  pub move-Undone :
      (to_index : ℕ)
      → Located id d.pages i p
      → to_index < length d.pages
      → Undone d (after_move d i to_index p) (move_page id i)
  move-Undone to_index l h =
      let rest = erase_idx d.pages i in
      let shorter = length-erase_idx d.pages i l.in_range in
      let inside : to_index ≤ length rest = omega arith in
      let m = Located-insert_idx id rest to_index p l.same_id inside (Located-unique l).0 in
      let there : i < length (insert_idx rest to_index p) =
        omega (arith, l.in_range, length-insert_idx rest to_index p) in
      (
        move_page id to_index,
        after_move (after_move d i to_index p) to_index i p,
        apply-move-done (after_move d i to_index p) i m there,
        record {
          same_document = refl;
          same_pages =
              rw (erase_idx-insert_idx rest to_index p inside)
                (insert_idx-erase_idx d.pages i p l.element);
          kept = λ x q k. k;
        },
      )

  pub rotate-Undone :
      (r : Rotation)
      → Located id d.pages i p
      → Undone d (after_rotate d i r) (set_rotation id p.rotation)
  rotate-Undone r l =
      let m =
        Located-of_element id _ i (position-modify id r d.pages i ∙ l.at_position)
          (get_elem?-modify r d.pages i l.element) in
      (
        set_rotation id r,
        after_rotate (after_rotate d i r) i p.rotation,
        apply-rotate-done (after_rotate d i r) p.rotation m,
        record {
          same_document = refl;
          same_pages = modify-modify r d.pages i l.element;
          kept = λ x q k. k;
        },
      )

-- A blank page, and what `insert_page` leaves.
abbrev pub blank : VecDocument → PageSize → PageInfo
blank d size = record { id = d.allocator.next; size = size; rotation = Rotation.none }

abbrev pub after_insert : VecDocument → ℕ → PageInfo → VecDocument
after_insert d at_index p = record d {
  pages = insert_idx d.pages at_index p;
  allocator = (allocate d.allocator).1;
  revision = advance_revision d.revision;
}

pub after_insert-Valid :
    (d : VecDocument) (at_index : ℕ) (p : PageInfo)
    → Valid d
    → p.id ≡ d.allocator.next
    → Valid (after_insert d at_index p)
after_insert-Valid d at_index p v e = record {
  distinct = λ x. ground (arith, v.distinct x, v.fresh x, count-insert_idx x d.pages at_index p);
  fresh = λ x h. ground (arith, v.fresh x, count-insert_idx x d.pages at_index p);
}

pub insert-Undone :
    (d : VecDocument) (at_index : ℕ) (size : PageSize)
    → Valid d
    → at_index ≤ length d.pages
    → Undone d (after_insert d at_index (blank d size)) (remove_page d.allocator.next)
insert-Undone d at_index size v h =
    let p = blank d size in
    let absent : count p.id d.pages ≡ 0 = omega (arith, v.fresh p.id) in
    let m = Located-insert_idx p.id d.pages at_index p refl h absent in
    (
      restore_page p.id at_index,
      after_remove (after_insert d at_index p) at_index p,
      apply-remove-done (after_insert d at_index p) m,
      record {
        same_document = refl;
        same_pages = erase_idx-insert_idx d.pages at_index p h;
        kept = λ x q k. find-append x d.removed (p ∷ []) k;
      },
    )
