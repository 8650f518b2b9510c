-- ===== src/Undo/PageLaws.antt =====
-- The commands on one page are lawful.
use native.Mathlib.Decide.{ℕ_discrete}
use open_pdf_editor.Base.{
  ℕ, ◌≤◌, ◌≡◌, refl, ◌∙◌, [], ◌∷◌, arith, length, insert_idx, erase_idx, modify, inl, inr, sym,
  subst, ap, insert_idx-erase_idx, Option-cases,
}
use open_pdf_editor.Error.{Error, done, failed}
use open_pdf_editor.Page.{PageId, PageInfo, PageSize}
use open_pdf_editor.Command.{
  PageCommand, set_rotation, move_page, remove_page, restore_page, insert_blank_page,
  apply_page_command, page_command,
}
use open_pdf_editor.VecDocument
use open_pdf_editor.VecDocument.{VecDocument, vec_document, rotate_to, insert_page, position, page}
use open_pdf_editor.VecDocument.Search.{
  Located, find_of_count_zero, Located-of_find, find-erase_idx, find-append, find-append_one,
  position-Located,
}
use open_pdf_editor.VecDocument.Valid.{Valid, Extends, Extends-refl}
use open_pdf_editor.VecDocument.Preserve.{
  after_remove, after_restore, after_move, after_rotate, after_remove-Valid, after_restore-Valid,
  after_move-Valid, after_rotate-Valid, remove_page-done, set_rotation-done, remove_page-inverted,
}
use open_pdf_editor.Undo.PageCommands.{
  page-Located, apply-remove-done, apply-move-done, apply-rotate-done, apply-restore-done,
  apply-remove-inverted, apply-move-inverted, apply-rotate-inverted, apply-restore-inverted,
}
use open_pdf_editor.Undo.PageInverse.{
  Undone, Located-unique, Located-unique_removed, remove-Undone, restore-Undone, move-Undone,
  rotate-Undone, blank, after_insert, after_insert-Valid, insert-Undone, find-last,
}
use open_pdf_editor.Undo.Lawful.{IsClean, Lawful}

-- All but the insertion of a blank page, which allocates.
abbrev pub PageReplays : PageCommand → Type 0
PageReplays (insert_blank_page _ _) = ⊥
PageReplays _ = Unit

abbrev Inverted : VecDocument → VecDocument → PageCommand → Type 0
Inverted d d' i = Valid d' × PageReplays i × Undone d d' i

insert-inverted :
    (at_index : ℕ) (size : PageSize) (d : VecDocument) {i : PageCommand} {d' : VecDocument}
    → apply_page_command vec_document (insert_blank_page at_index size) d ≡ done i d'
    → (at_index ≤ length d.pages)
      × (i ≡ remove_page d.allocator.next)
      × (d' ≡ after_insert d at_index (blank d size))
unfolding apply_page_command insert_page
insert-inverted at_index size d h = (ground arith, ground arith, ground arith)

page-inverse :
    (c : PageCommand) (d : VecDocument) {i : PageCommand} {d' : VecDocument}
    → Valid d
    → apply_page_command vec_document c d ≡ done i d'
    → Inverted d d' i
page-inverse (set_rotation id r) d v h =
    let (k, p, l, e, f) = apply-rotate-inverted id d r h in
    rw (e, f) (after_rotate-Valid v k r, tt, rotate-Undone d v r l)
page-inverse (move_page id to_index) d v h =
    let (k, p, l, b, e, f) = apply-move-inverted id d to_index h in
    rw (e, f) (after_move-Valid v to_index l, tt, move-Undone d v to_index l b)
page-inverse (remove_page id) d v h =
    let (k, p, l, e, f) = apply-remove-inverted id d h in
    rw (e, f) (after_remove-Valid v l, tt, remove-Undone d v l)
page-inverse (restore_page id at_index) d v h =
    let (k, p, l, c, b, e, f) = apply-restore-inverted id d at_index h in
    rw (e, f) (after_restore-Valid v at_index l, tt, restore-Undone d v at_index l b)
page-inverse (insert_blank_page at_index size) d v h =
    let (b, e, f) = insert-inverted at_index size d h in
    rw (e, f)
      (after_insert-Valid d at_index (blank d size) v refl, tt, insert-Undone d at_index size v b)

-- A failing command on a page changes nothing at all.
page-failed :
    (c : PageCommand) (d : VecDocument) {e : Error} {d' : VecDocument}
    → apply_page_command vec_document c d ≡ failed e d'
    → IsClean e × (d' ≡ d)
unfolding apply_page_command
page-failed (set_rotation id r) d h = elim (Option-cases (position id d.pages)) [
  | inl absent ↦ unfold page in ground arith
  | inr (i, at_position) ↦
      let (p, l) = position-Located id d.pages i at_position in
      absurd (ground (arith, page-Located d l, set_rotation-done d r l))
]
page-failed (move_page id to_index) d h = elim (Option-cases (position id d.pages)) [
  | inl absent ↦ ground arith
  | inr (i, at_position) ↦
      let (p, l) = position-Located id d.pages i at_position in
      unfold VecDocument.move_page in
      ground (arith, l.element, insert_idx-erase_idx d.pages i p l.element)
]
page-failed (remove_page id) d h = elim (Option-cases (position id d.pages)) [
  | inl absent ↦ ground arith
  | inr (i, at_position) ↦
      let (p, l) = position-Located id d.pages i at_position in
      absurd (ground (arith, remove_page-done d l))
]
page-failed (restore_page id at_index) d h = elim (Option-cases (position id d.removed)) [
  | inl absent ↦ unfold VecDocument.restore_page in ground arith
  | inr (j, at_position) ↦
      let (p, l) = position-Located id d.removed j at_position in
      unfold VecDocument.restore_page in ground (arith, l.element)
]
page-failed (insert_blank_page at_index size) d h = unfold insert_page in ground arith

module _ (d e : VecDocument) (v : Valid d) (w : Valid e) (x : Extends d e) where
  moved_Located :
      {id : PageId} {i : ℕ} {p : PageInfo} → Located id d.pages i p → Located id e.pages i p
  moved_Located {id} {i} {p} l = subst (λ ps. Located id ps i p) (sym x.same_pages) l

  remove-Extends :
      {id : PageId} {i : ℕ} {p : PageInfo}
      → Located id d.pages i p
      → Extends (after_remove d i p) (after_remove e i p)
  remove-Extends {id} {i} {p} l = record {
    same_document = x.same_document;
    same_pages = ap (λ ps. erase_idx ps i) x.same_pages;
    kept = λ j q h. elim (find-append_one j d.removed p h) [
      | inl old ↦ find-append j e.removed (p ∷ []) (x.kept j q old)
      | inr (same, new) ↦ rw new (
          find-last e.removed (rw (← same, l.same_id) (Located-unique e w (moved_Located l)).1)
            same)
    ];
  }

  restore-Extends :
      {id : PageId} {j k : ℕ} {p : PageInfo} (at_index : ℕ)
      → Located id d.removed j p
      → Located id e.removed k p
      → Extends (after_restore d j at_index p) (after_restore e k at_index p)
  restore-Extends {id} {j} {k} {p} at_index l m = record {
    same_document = x.same_document;
    same_pages = ap (λ ps. insert_idx ps at_index p) x.same_pages;
    kept = λ y q h. elim (ℕ_discrete y id) [
      | yes same ↦ absurd (
          cc (
            find_of_count_zero y (erase_idx d.removed j)
              (rw same (Located-unique_removed d v l).0)))
      | no other ↦
          find-erase_idx id y e.removed k m.at_position other
          ∙ x.kept y q (sym (find-erase_idx id y d.removed j l.at_position other) ∙ h)
    ];
  }

page-replay :
    (c : PageCommand) (d e : VecDocument) {i : PageCommand} {d' : VecDocument}
    → PageReplays c
    → Valid d
    → Valid e
    → Extends d e
    → apply_page_command vec_document c d ≡ done i d'
    → (e' : VecDocument) × (apply_page_command vec_document c e ≡ done i e') × Extends d' e'
page-replay (set_rotation id r) d e _ v w x h =
    let (k, p, l, f, g) = apply-rotate-inverted id d r h in
    (
      after_rotate e k r,
      rw f (apply-rotate-done e r (moved_Located d e v w x l)),
      rw g (record {
        same_document = x.same_document;
        same_pages = ap (λ ps. modify (rotate_to r) ps k) x.same_pages;
        kept = x.kept;
      }),
    )
page-replay (move_page id to_index) d e _ v w x h =
    let (k, p, l, b, f, g) = apply-move-inverted id d to_index h in
    (
      after_move e k to_index p,
      rw f (apply-move-done e to_index (moved_Located d e v w x l) (rw x.same_pages b)),
      rw g (record {
        same_document = x.same_document;
        same_pages = ap (λ ps. insert_idx (erase_idx ps k) to_index p) x.same_pages;
        kept = x.kept;
      }),
    )
page-replay (remove_page id) d e _ v w x h =
    let (k, p, l, f, g) = apply-remove-inverted id d h in
    (
      after_remove e k p,
      rw f (apply-remove-done e (moved_Located d e v w x l)),
      rw g (remove-Extends d e v w x l),
    )
page-replay (restore_page id at_index) d e _ v w x h =
    let (k, p, l, c, b, f, g) = apply-restore-inverted id d at_index h in
    let (k', m) = Located-of_find id e.removed (x.kept id p l.found) in
    (
      after_restore e k' at_index p,
      rw f (apply-restore-done e at_index (rw x.same_pages c) m (rw x.same_pages b)),
      rw g (restore-Extends d e v w x at_index l m),
    )
page-replay (insert_blank_page at_index size) d e r v w x h = absurd r

page-identity :
    (c : PageCommand) (d : VecDocument) {i : PageCommand} {d' : VecDocument}
    → apply_page_command vec_document c d ≡ done i d'
    → d'.id ≡ d.id
page-identity (set_rotation id r) d h =
    let (_, _, _, _, f) = apply-rotate-inverted id d r h in ap (λ x. x.id) f
page-identity (move_page id to_index) d h =
    let (_, _, _, _, _, f) = apply-move-inverted id d to_index h in ap (λ x. x.id) f
page-identity (remove_page id) d h =
    let (_, _, _, _, f) = apply-remove-inverted id d h in ap (λ x. x.id) f
page-identity (restore_page id at_index) d h =
    let (_, _, _, _, _, _, f) = apply-restore-inverted id d at_index h in ap (λ x. x.id) f
page-identity (insert_blank_page at_index size) d h =
    let (_, _, f) = insert-inverted at_index size d h in ap (λ x. x.id) f

page-removal :
    (id : PageId) (d : VecDocument) {d' : VecDocument}
    → VecDocument.remove_page id d ≡ done tt d'
    → (i : PageCommand) × (apply_page_command vec_document (remove_page id) d ≡ done i d')
page-removal id d h =
    let (k, p, l, f) = remove_page-inverted id d h in
    (restore_page id k, rw f (apply-remove-done d l))

pub page_command-Lawful : Lawful (page_command vec_document) PageReplays
unfolding page_command
page_command-Lawful = record {
  inverse = λ c d v h. page-inverse c d v h;
  failure = λ c d v h.
      let (clean, same) = page-failed c d h in
      (clean, subst Valid (sym same) v, subst (Extends d) (sym same) (Extends-refl d));
  identity = page-identity;
  replay = page-replay;
  removal = page-removal;
  removal_Replays = λ _. tt;
}
