-- ===== src/VecDocument/Preserve.antt =====
-- What each mutation of `VecDocument` leaves behind on success: it succeeds exactly then, and keeps
-- the invariant. On failure the document is the one before.
use open_pdf_editor.Base.{
  ℕ, ◌≤◌, ◌<◌, ◌≡◌, [], ◌∷◌, ◌++◌, arith, length, insert_idx, erase_idx, modify, Option-cases, inl,
  inr, length-erase_idx,
}
use open_pdf_editor.Error.{done}
use open_pdf_editor.Page.{PageId, PageInfo, Rotation}
use open_pdf_editor.VecDocument.{
  VecDocument, advance_revision, position, rotate_to, remove_page, restore_page, move_page,
  set_rotation,
}
use open_pdf_editor.VecDocument.Search.{
  count, count-append, count-insert_idx, count-erase_idx, count-modify, Located, position-Located,
  count_of_position_none, position_of_count_zero,
}
use open_pdf_editor.VecDocument.Valid.{Valid}

module _ (d : VecDocument) where
  abbrev pub after_remove : ℕ → PageInfo → VecDocument
  after_remove i p = record d {
    pages = erase_idx d.pages i;
    removed = d.removed ++ p ∷ [];
    revision = advance_revision d.revision;
  }

  abbrev pub after_restore : ℕ → ℕ → PageInfo → VecDocument
  after_restore j at_index p = record d {
    removed = erase_idx d.removed j;
    pages = insert_idx d.pages at_index p;
    revision = advance_revision d.revision;
  }

  abbrev pub after_move : ℕ → ℕ → PageInfo → VecDocument
  after_move i to_index p = record d {
    pages = insert_idx (erase_idx d.pages i) to_index p;
    revision = advance_revision d.revision;
  }

  abbrev pub after_rotate : ℕ → Rotation → VecDocument
  after_rotate i r = record d {
    pages = modify (rotate_to r) d.pages i;
    revision = advance_revision d.revision;
  }

module _ (d : VecDocument) {id : PageId} {i : ℕ} {p : PageInfo} where
  pub remove_page-done : Located id d.pages i p → remove_page id d ≡ done tt (after_remove d i p)
  unfolding remove_page
  remove_page-done l = ground (arith, l.at_position, l.element)

  pub move_page-done :
      (to_index : ℕ)
      → Located id d.pages i p
      → to_index < length d.pages
      → move_page id to_index d ≡ done tt (after_move d i to_index p)
  unfolding move_page
  move_page-done to_index l h =
      ground (arith, l.at_position, l.element, l.in_range, length-erase_idx d.pages i)

  pub set_rotation-done :
      (r : Rotation) → Located id d.pages i p → set_rotation id r d ≡ done tt (after_rotate d i r)
  unfolding set_rotation
  set_rotation-done r l = ground (arith, l.at_position)

  pub restore_page-done :
      (at_index : ℕ)
      → count id d.pages ≡ 0
      → Located id d.removed i p
      → at_index ≤ length d.pages
      → restore_page id at_index d ≡ done tt (after_restore d i at_index p)
  unfolding restore_page
  restore_page-done at_index c l h =
      ground (arith, l.at_position, l.element, position_of_count_zero id d.pages)

module _ (id : PageId) (d : VecDocument) {d' : VecDocument} where
  pub remove_page-inverted :
      remove_page id d ≡ done tt d'
      → (i : ℕ) × (p : PageInfo) × Located id d.pages i p × (d' ≡ after_remove d i p)
  remove_page-inverted h = elim (Option-cases (position id d.pages)) [
    | inl absent ↦ absurd (unfold remove_page in ground arith)
    | inr (i, e) ↦
        let (p, l) = position-Located id d.pages i e in (i, p, l, cc (remove_page-done d l))
  ]

  pub move_page-inverted :
      (to_index : ℕ)
      → move_page id to_index d ≡ done tt d'
      → (i : ℕ) × (p : PageInfo) × Located id d.pages i p
        × (to_index < length d.pages)
        × (d' ≡ after_move d i to_index p)
  unfolding move_page
  move_page-inverted to_index h = elim (Option-cases (position id d.pages)) [
    | inl absent ↦ absurd (ground arith)
    | inr (i, e) ↦
        let (p, l) = position-Located id d.pages i e in
        (
          i,
          p,
          l,
          ground (arith, l.element, l.in_range, length-erase_idx d.pages i),
          ground (arith, l.element),
        )
  ]

  pub set_rotation-inverted :
      (r : Rotation)
      → set_rotation id r d ≡ done tt d'
      → (i : ℕ) × (p : PageInfo) × Located id d.pages i p × (d' ≡ after_rotate d i r)
  unfolding set_rotation
  set_rotation-inverted r h = elim (Option-cases (position id d.pages)) [
    | inl absent ↦ absurd (ground arith)
    | inr (i, e) ↦ let (p, l) = position-Located id d.pages i e in (i, p, l, ground arith)
  ]

  pub restore_page-inverted :
      (at_index : ℕ)
      → restore_page id at_index d ≡ done tt d'
      → (j : ℕ) × (p : PageInfo) × Located id d.removed j p
        × (count id d.pages ≡ 0)
        × (at_index ≤ length d.pages)
        × (d' ≡ after_restore d j at_index p)
  unfolding restore_page
  restore_page-inverted at_index h = elim (Option-cases (position id d.removed)) [
    | inl absent ↦ absurd (ground arith)
    | inr (j, e) ↦
        let (p, l) = position-Located id d.removed j e in
        (
          j,
          p,
          l,
          ground (arith, count_of_position_none id d.pages),
          ground (arith, l.element),
          ground (arith, l.element),
        )
  ]

module _ {d : VecDocument} (v : Valid d) where
  pub after_remove-Valid :
      {id : PageId} {i : ℕ} {p : PageInfo} → Located id d.pages i p → Valid (after_remove d i p)
  unfolding count
  after_remove-Valid {i} {p} l = record {
    distinct = λ j. omega (
      arith,
      v.distinct j,
      count-append j d.removed (p ∷ []),
      count-erase_idx j d.pages i l.element,
    );
    fresh = λ j h. omega (
      arith,
      v.fresh j h,
      count-append j d.removed (p ∷ []),
      count-erase_idx j d.pages i l.element,
    );
  }

  pub after_restore-Valid :
      {id : PageId} {i : ℕ} {p : PageInfo} (at_index : ℕ)
      → Located id d.removed i p
      → Valid (after_restore d i at_index p)
  after_restore-Valid {i} {p} at_index l = record {
    distinct = λ j. omega (
      arith,
      v.distinct j,
      count-insert_idx j d.pages at_index p,
      count-erase_idx j d.removed i l.element,
    );
    fresh = λ j h. omega (
      arith,
      v.fresh j h,
      count-insert_idx j d.pages at_index p,
      count-erase_idx j d.removed i l.element,
    );
  }

  pub after_move-Valid :
      {id : PageId} {i : ℕ} {p : PageInfo} (to_index : ℕ)
      → Located id d.pages i p
      → Valid (after_move d i to_index p)
  after_move-Valid {i} {p} to_index l = record {
    distinct = λ j. omega (
      arith,
      v.distinct j,
      count-insert_idx j (erase_idx d.pages i) to_index p,
      count-erase_idx j d.pages i l.element,
    );
    fresh = λ j h. omega (
      arith,
      v.fresh j h,
      count-insert_idx j (erase_idx d.pages i) to_index p,
      count-erase_idx j d.pages i l.element,
    );
  }

  pub after_rotate-Valid : (i : ℕ) (r : Rotation) → Valid (after_rotate d i r)
  after_rotate-Valid i r = record {
    distinct = λ j. omega (arith, v.distinct j, count-modify j r d.pages i);
    fresh = λ j h. omega (arith, v.fresh j h, count-modify j r d.pages i);
  }
