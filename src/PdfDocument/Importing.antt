-- ===== src/PdfDocument/Importing.antt =====
-- Importing pages into a PDF document (`import_pages` of opdf-pdf/src/document.rs): what it comes
-- to in what the document shows, and the one way in which it fails half-way.
use open_pdf_editor.Base.{
  Bool-cases, ltb, false, ◌==◌, ℕ, zero, suc, ◌+◌, ◌≤◌, ◌≡◌, refl, sym, ap, ◌∙◌, arith, ◌⊎◌, inl,
  inr, List, [], ◌∷◌, map, All, Any, none, some, Option-cases, length, insert_idx, modify,
  length-insert_idx,
}
use open_pdf_editor.Error.{malformed, ok, done, failed, Result-cases}
use open_pdf_editor.Page.{PageId, PageInfo, allocate}
use open_pdf_editor.VecDocument.{VecDocument, advance_revision, new_ids, insert_copy, insert_copies}
use open_pdf_editor.VecDocument.Reading.{Reads, ids_of}
use open_pdf_editor.VecDocument.Importing.{after_append}
use open_pdf_editor.Transfer.Extracting.{length-map}
use open_pdf_editor.PageMap.{ObjectId, PageSlot, slot_position, find_slot, insert_slot, fresh_slot}
use open_pdf_editor.PageMap.View.{info, insert_idx-map}
use open_pdf_editor.PdfDocument.{
  PdfDocument, Objects, page_count, mark_slot, mark_rotation, insert_copied, copy_slots,
  resolve_slots, import_pages, imported_dirty,
}
use open_pdf_editor.PdfDocument
use open_pdf_editor.PdfDocument.Refinement.{shown, page-shown}

map-modify : (ss : List PageSlot) (i : ℕ) → map info (modify mark_slot ss i) ≡ map info ss
map-modify [] i = refl
map-modify (s ∷ ss) zero = refl
map-modify (s ∷ ss) (suc i) = ap (info s ∷◌) (map-modify ss i)

insert_copies-revision :
    (at_index : ℕ) (ps : List PageInfo) (d : VecDocument)
    → (insert_copies at_index ps d).revision ≡ d.revision
unfolding insert_copies
insert_copies-revision at_index [] d = refl
insert_copies-revision at_index (p ∷ ps) d =
    insert_copies-revision (at_index + 1) ps (insert_copy at_index p d)

abbrev revise : ℕ → VecDocument → VecDocument
revise r d = record d { revision = advance_revision r }

-- a slot that was inserted is found, if not always at its index
slot_position-insert_idx :
    (ss : List PageSlot) (i : ℕ) (s : PageSlot)
    → (j : ℕ) × (slot_position s.id (insert_idx ss i s) ≡ some j)
unfolding slot_position
slot_position-insert_idx ss zero s = (0, ground arith)
slot_position-insert_idx [] (suc i) s = (0, ground arith)
slot_position-insert_idx (t ∷ ss) (suc i) s =
    let (j, e) = slot_position-insert_idx ss i s in
    elim (Bool-cases (t.id == s.id)) [
      | inl y ↦ (0, rw (slot_position, y) refl)
      | inr n ↦ (suc j, rw (slot_position, n, e) refl)
    ]

-- A page of the source that `copy_page_into` does not find to copy, for some target.
abbrev pub Uncopyable : {O : Type 0} → Objects O → PdfDocument O → PageId → Type 0
Uncopyable {O} objects source id =
    (s : PageSlot) × (target after : O) × (find_slot source.pages id ≡ ok s)
    × (objects.copy_page_into source.incremental s.object_id target ≡ (none, after))

-- The slots are those of the pages, in order.
abbrev Found : {O : Type 0} → PdfDocument O → List PageId → List PageSlot → Type 0
Found source [] [] = Unit
Found source [] (s ∷ ss) = ⊥
Found source (id ∷ ids) [] = ⊥
Found source (id ∷ ids) (s ∷ ss) = (find_slot source.pages id ≡ ok s) × Found source ids ss

module _ {O : Type 0} (objects : Objects O) where
  insert_copied-done :
      (at_index : ℕ) (copied : ObjectId) (s : PageSlot) (d : PdfDocument O)
      → at_index ≤ length d.pages.slots
      → (d' : PdfDocument O) × (insert_copied at_index copied s d
          ≡ done (allocate d.pages.allocator).0 d')
        × (shown d' ≡ insert_copy at_index (info s) (shown d))
  unfolding insert_copied insert_slot mark_rotation
  insert_copied-done at_index copied s d h =
      let t = fresh_slot d.pages copied s.size s.rotation in
      let slots = insert_idx d.pages.slots at_index t in
      let (j, e) = slot_position-insert_idx d.pages.slots at_index t in
      let inside : ltb (length d.pages.slots) at_index ≡ false = ground arith in
      (
        record d {
          pages = record d.pages {
            slots = modify mark_slot slots j;
            allocator = (allocate d.pages.allocator).1;
          };
        },
        rw (insert_copied, insert_slot, inside, mark_rotation, e) refl,
        ap (λ pages. record (shown d) { pages = pages; allocator = (allocate d.pages.allocator).1 })
            (map-modify slots j ∙ sym (insert_idx-map info d.pages.slots at_index t)),
      )

  -- The loop over the slots of pages: it copies them all, or it meets a page that cannot be copied.
  copy_slots-cases :
      (source : PdfDocument O) (ids : List PageId) (ss : List PageSlot) (at_index : ℕ)
      (d : PdfDocument O)
      → Found source ids ss
      → at_index ≤ length d.pages.slots
      → ((d' : PdfDocument O) × (copy_slots objects source ss at_index d
            ≡ done (new_ids d.pages.allocator.next (map info ss)) d')
          × (shown d' ≡ insert_copies at_index (map info ss) (shown d)))
        ⊎ (Any (Uncopyable objects source) ids
            × ((d' : PdfDocument O) × (copy_slots objects source ss at_index d
                  ≡ failed malformed d')))
  unfolding copy_slots insert_copies new_ids
  copy_slots-cases source [] [] at_index d a h = inl (d, refl, refl)
  copy_slots-cases source [] (s ∷ ss) at_index d a h = elim a [ ]
  copy_slots-cases source (id ∷ ids) [] at_index d a h = elim a [ ]
  copy_slots-cases source (id ∷ ids) (s ∷ ss) at_index d (held, a) h =
      let (copy, after) = objects.copy_page_into source.incremental s.object_id d.incremental in
      elim (Option-cases (objects.copy_page_into source.incremental s.object_id d.incremental).0) [
        | inl none_left ↦ inr (
          inl (s, d.incremental, after, held, ap (λ c. (c, after)) none_left),
          (record d { incremental = after }, rw (copy_slots, none_left) refl),
        )
        | inr (copied, e) ↦
            let next = record d { incremental = after } in
            let (d1, one, same) = insert_copied-done at_index copied s next h in
            let longer : at_index + 1 ≤ length d1.pages.slots = omega (
              arith,
              ap (λ v. length v.pages) same,
              length-map info d1.pages.slots,
              length-map info d.pages.slots,
              length-insert_idx (map info d.pages.slots) at_index
                  (record (info s) { id = d.pages.allocator.next }),
            ) in
            let next_ids = ap (λ v. v.allocator.next) same in
            elim (copy_slots-cases source ids ss (at_index + 1) d1 a longer) [
              | inl (d2, rest, more) ↦ inl (
                d2,
                rw (copy_slots, e, one, rest, next_ids) refl,
                more ∙ ap (insert_copies (at_index + 1) (map info ss)) same,
              )
              | inr (u, (d2, rest)) ↦ inr (inr u, (d2, rw (copy_slots, e, one, rest) refl))
            ]
      ]

  -- a page that is read is in a slot
  find_slot-page :
      (source : PdfDocument O) (id : PageId) (p : PageInfo)
      → PdfDocument.page source id ≡ ok p
      → (s : PageSlot) × (find_slot source.pages id ≡ ok s) × (info s ≡ p)
  unfolding PdfDocument.page
  find_slot-page source id p h = elim (Result-cases (find_slot source.pages id)) [
    | inl (s, f) ↦ (s, f, ground (arith, f))
    | inr (x, f) ↦ absurd (ground (arith, f))
  ]

  -- the first loop finds the slots of pages that the source reads
  resolve_slots-Reads :
      (source : PdfDocument O) (ps : List PageInfo)
      → All (Reads (shown source)) ps
      → (ss : List PageSlot) × (resolve_slots source.pages (ids_of ps) ≡ ok ss)
        × (map info ss ≡ ps)
        × Found source (ids_of ps) ss
  unfolding resolve_slots
  resolve_slots-Reads source [] a = ([], refl, refl, tt)
  resolve_slots-Reads source (p ∷ ps) (a, more) =
      let (ss, e, m, held) = resolve_slots-Reads source ps more in
      let (s, f, same) = find_slot-page source p.id p (sym (page-shown source p.id) ∙ a) in
      (s ∷ ss, rw (f, e) refl, cc (same, m), (f, held))

  -- Pages that the source reads are appended, as copies under new identities, or one of
  -- them cannot be copied and that is the error.
  pub import_pages-cases :
      (source d : PdfDocument O) (ps : List PageInfo)
      → All (Reads (shown source)) ps
      → ((d' : PdfDocument O) × (import_pages objects source (ids_of ps) (page_count d) d
            ≡ done (new_ids d.pages.allocator.next ps) d')
          × (shown d' ≡ after_append (shown d) ps))
        ⊎ (Any (Uncopyable objects source) (ids_of ps)
            × ((d' : PdfDocument O) × (import_pages objects source (ids_of ps) (page_count d) d
                  ≡ failed malformed d')))
  unfolding import_pages
  import_pages-cases source d ps a =
      let (ss, e, m, held) = resolve_slots-Reads source ps a in
      let n = page_count d in
      let counted = length-map info d.pages.slots in
      elim (copy_slots-cases source (ids_of ps) ss (page_count d) d held (omega arith)) [
        | inl (d', f, same) ↦ inl (
          record d' {
            dirty = imported_dirty (new_ids d.pages.allocator.next (map info ss)) d'.dirty;
            revision = advance_revision d'.revision;
          },
          ground (arith, e, f, m),
          ap (λ v. revise v.revision v) same
              ∙ ap
                  (λ qs.
                    revise (insert_copies n qs (shown d)).revision (insert_copies n qs (shown d)))
                  m
              ∙ ap (λ r. revise r (insert_copies n ps (shown d)))
                  (insert_copies-revision n ps (shown d))
              ∙ ap (λ at_index. revise d.revision (insert_copies at_index ps (shown d)))
                  (sym counted),
        )
        | inr (u, (d', f)) ↦ inr (u, (d', ground (arith, e, f)))
      ]
