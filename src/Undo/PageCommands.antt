-- ===== src/Undo/PageCommands.antt =====
-- The commands on one page over `VecDocument`: exactly when each succeeds, the state it leaves, and
-- the inverse it returns.
use open_pdf_editor.Base.{ℕ, ◌≤◌, ◌<◌, ◌≡◌, arith, length, Option-cases, inl, inr}
use open_pdf_editor.Error.{Outcome, done, Outcome-cases, ok}
use open_pdf_editor.Page.{PageId, PageInfo, Rotation}
use open_pdf_editor.Command.{
  PageCommand, set_rotation, move_page, remove_page, restore_page, apply_page_command,
}
use open_pdf_editor.VecDocument
use open_pdf_editor.VecDocument.{
  VecDocument, advance_revision, position, rotate_to, vec_document, page, insert_page,
}
use open_pdf_editor.VecDocument.Search.{count, Located, position-Located}
use open_pdf_editor.VecDocument.Preserve.{
  after_remove, after_restore, after_move, after_rotate, remove_page-done, move_page-done,
  set_rotation-done, restore_page-done, remove_page-inverted, move_page-inverted,
  set_rotation-inverted, restore_page-inverted,
}

abbrev apply : PageCommand → VecDocument → Outcome VecDocument PageCommand
apply = apply_page_command vec_document

module _ (d : VecDocument) {id : PageId} {i : ℕ} {p : PageInfo} where
  pub apply-remove-done :
      Located id d.pages i p
      → apply_page_command vec_document (remove_page id) d
        ≡ done (restore_page id i) (after_remove d i p)
  unfolding apply_page_command
  apply-remove-done l = ground (arith, l.at_position, remove_page-done d l)

  pub apply-move-done :
      (to_index : ℕ)
      → Located id d.pages i p
      → to_index < length d.pages
      → apply_page_command vec_document (move_page id to_index) d
        ≡ done (move_page id i) (after_move d i to_index p)
  unfolding apply_page_command
  apply-move-done to_index l h = ground (arith, l.at_position, move_page-done d to_index l h)

  pub page-Located : Located id d.pages i p → page d id ≡ ok p
  unfolding page
  page-Located l = ground (arith, l.at_position, l.element)

  pub apply-rotate-done :
      (r : Rotation)
      → Located id d.pages i p
      → apply_page_command vec_document (set_rotation id r) d
        ≡ done (set_rotation id p.rotation) (after_rotate d i r)
  unfolding apply_page_command
  apply-rotate-done r l = ground (arith, page-Located l, set_rotation-done d r l)

  pub apply-restore-done :
      (at_index : ℕ)
      → count id d.pages ≡ 0
      → Located id d.removed i p
      → at_index ≤ length d.pages
      → apply_page_command vec_document (restore_page id at_index) d
        ≡ done (remove_page id) (after_restore d i at_index p)
  unfolding apply_page_command
  apply-restore-done at_index c l h = ground (arith, restore_page-done d at_index c l h)

module _ (id : PageId) (d : VecDocument) {inverse : PageCommand} {d' : VecDocument} where
  pub apply-remove-inverted :
      apply_page_command vec_document (remove_page id) d ≡ done inverse d'
      → (i : ℕ) × (p : PageInfo) × Located id d.pages i p
        × (inverse ≡ restore_page id i)
        × (d' ≡ after_remove d i p)
  apply-remove-inverted h = elim (Outcome-cases (VecDocument.remove_page id d)) [
    | inl (u, d1, e) ↦
        let (i, p, l, _) = remove_page-inverted id d e in
        let s = apply-remove-done d l in (i, p, l, cc s, cc s)
    | inr (x, d1, e) ↦ elim (Option-cases (position id d.pages)) [
      | inl absent ↦ absurd (unfold apply_page_command in ground arith)
      | inr (i, f) ↦
          let (p, l) = position-Located id d.pages i f in absurd (cc (remove_page-done d l))
    ]
  ]

  pub apply-move-inverted :
      (to_index : ℕ)
      → apply_page_command vec_document (move_page id to_index) d ≡ done inverse d'
      → (i : ℕ) × (p : PageInfo) × Located id d.pages i p
        × (to_index < length d.pages)
        × (inverse ≡ move_page id i)
        × (d' ≡ after_move d i to_index p)
  unfolding apply_page_command
  apply-move-inverted to_index h = elim (Outcome-cases (VecDocument.move_page id to_index d)) [
    | inl (u, d1, e) ↦
        let (i, p, l, b, _) = move_page-inverted id d to_index e in
        let s = apply-move-done d to_index l b in (i, p, l, b, cc s, cc s)
    | inr (x, d1, e) ↦ absurd (ground arith)
  ]

  pub apply-rotate-inverted :
      (r : Rotation)
      → apply_page_command vec_document (set_rotation id r) d ≡ done inverse d'
      → (i : ℕ) × (p : PageInfo) × Located id d.pages i p
        × (inverse ≡ set_rotation id p.rotation)
        × (d' ≡ after_rotate d i r)
  unfolding apply_page_command
  apply-rotate-inverted r h = elim (Outcome-cases (VecDocument.set_rotation id r d)) [
    | inl (u, d1, e) ↦
        let (i, p, l, _) = set_rotation-inverted id d r e in
        let s = apply-rotate-done d r l in (i, p, l, cc s, cc s)
    | inr (x, d1, e) ↦ absurd (ground arith)
  ]

  pub apply-restore-inverted :
      (at_index : ℕ)
      → apply_page_command vec_document (restore_page id at_index) d ≡ done inverse d'
      → (j : ℕ) × (p : PageInfo) × Located id d.removed j p
        × (count id d.pages ≡ 0)
        × (at_index ≤ length d.pages)
        × (inverse ≡ remove_page id)
        × (d' ≡ after_restore d j at_index p)
  unfolding apply_page_command
  apply-restore-inverted at_index h =
      elim (Outcome-cases (VecDocument.restore_page id at_index d)) [
        | inl (u, d1, e) ↦
            let (j, p, l, c, b, _) = restore_page-inverted id d at_index e in
            let s = apply-restore-done d at_index c l b in (j, p, l, c, b, cc s, cc s)
        | inr (x, d1, e) ↦ absurd (ground arith)
      ]
