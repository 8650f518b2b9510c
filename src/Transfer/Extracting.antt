-- ===== src/Transfer/Extracting.antt =====
-- Extraction and splitting: where the pages go, and that the inverse takes them back out of the one
-- document that it is bound to.
use open_pdf_editor.Base.{
  ℕ, zero, suc, ◌-◌, ◌≤◌, ◌≡◌, ◌≢◌, refl, ◌∙◌, List, [], ◌∷◌, ◌++◌, map, arith, length, take, drop,
  ap,
}
use open_pdf_editor.Error.{unsupported, done, failed}
use open_pdf_editor.Page.{PageId, PageInfo}
use open_pdf_editor.Command.{Label, Command}
use open_pdf_editor.Command.Composite.{Composite, sequence, bound_inverse, removals}
use open_pdf_editor.VecDocument.{VecDocument, vec_document, insert_copies, new_ids, page_ids}
use open_pdf_editor.VecDocument.Valid.{Valid}
use open_pdf_editor.VecDocument.Reading.{Reads, ids_of, pages-Reads, All-take, All-drop}
use open_pdf_editor.VecDocument.Importing.{
  copies, insert_copies-at_end, new_ids-copies, after_append, import_pages-done,
}
use open_pdf_editor.Undo.Lawful.{Lawful}
use open_pdf_editor.Undo.Runs.{TakesBack, apply_all-Runs}
use open_pdf_editor.Undo.Copies.{removals-TakesBack, insert_copies-Valid}
use open_pdf_editor.Undo.Merges.{revised-TakesBack}
use open_pdf_editor.Transfer.{Extraction, apply_bound, extract_range}

pub length-map : {A B : Type 0} (f : A → B) (xs : List A) → length (map f xs) ≡ length xs
length-map f [] = refl
length-map f (x ∷ xs) = ap suc (length-map f xs)

pub take-map :
    {A B : Type 0} (f : A → B) (n : ℕ) (xs : List A) → take n (map f xs) ≡ map f (take n xs)
take-map f zero xs = refl
take-map f (suc n) [] = refl
take-map f (suc n) (x ∷ xs) = ap (f x ∷◌) (take-map f n xs)

pub drop-map :
    {A B : Type 0} (f : A → B) (n : ℕ) (xs : List A) → drop n (map f xs) ≡ map f (drop n xs)
drop-map f zero xs = refl
drop-map f (suc n) [] = refl
drop-map f (suc n) (x ∷ xs) = drop-map f n xs

-- The pages `start..end`.
abbrev pub slice : VecDocument → ℕ → ℕ → List PageInfo
slice d start end = take (end - start) (drop start d.pages)

abbrev extraction_of :
    {C : Type 0} → Command VecDocument C → List PageId → VecDocument → Extraction VecDocument C
extraction_of cmd new d = record {
  page_ids = new;
  inverse = bound_inverse d.id (sequence Label.undo_extraction (removals vec_document cmd new));
}

-- A range of a valid document is appended.
pub extract_range-done :
    {C : Type 0} (cmd : Command VecDocument C) (source target : VecDocument) (start end : ℕ)
    → Valid source
    → start ≤ end
    → end ≤ length source.pages
    → extract_range vec_document cmd source start end target
      ≡ done
          (extraction_of cmd
            (new_ids target.allocator.next (slice source start end))
            (insert_copies (length target.pages) (slice source start end) target))
          (after_append target (slice source start end))
unfolding extract_range page_ids removals
extract_range-done cmd source target start end v h k =
    let ps = slice source start end in
    let reads =
      All-take (Reads source) (end - start) (drop start source.pages)
        (All-drop (Reads source) start source.pages (pages-Reads source v)) in
    let ids : take (end - start) (drop start (ids_of source.pages)) ≡ ids_of ps =
      ap (take (end - start)) (drop-map (λ p. p.id) start source.pages)
      ∙ take-map (λ p. p.id) (end - start) (drop start source.pages) in
    let imported = import_pages-done source ps target reads in
    let counted = length-map (λ (p : PageInfo). p.id) source.pages in
    ground (arith, ids, imported, counted)

module _ {C : Type 0} (cmd : Command VecDocument C) (Replays : C → Type 0)
    (l : Lawful cmd Replays) where
  abbrev Bound : Type 0
  Bound = Composite VecDocument (Composite VecDocument C)

  -- A bound sequence that runs on its own document, and on no other.
  abbrev pub TakesOut : Bound → VecDocument → List PageInfo → Type 0
  TakesOut inverse d pages =
      ((redo : Bound) × (d' : VecDocument) × (apply_bound vec_document cmd inverse d ≡ done redo d')
        × (d'.pages ≡ pages))
      × ((other : VecDocument)
          → other.id ≢ d.id
          → apply_bound vec_document cmd inverse other ≡ failed unsupported other)

  pub bound-TakesOut :
      (label : Label) (cs : List C) (d b : VecDocument) (id : ℕ)
      → id ≡ d.id
      → TakesBack cmd cs d b
      → TakesOut (bound_inverse id (sequence label cs)) d b.pages
  unfolding apply_bound
  bound-TakesOut label cs d b id same (e, r, x) =
      let (applied, f) = apply_all-Runs cmd cs [] d r in
      (
        (
          bound_inverse id (sequence (Label.undo_of label) applied),
          e,
          ground (arith, f),
          x.same_pages,
        ),
        λ other ne. ground arith,
      )

  -- On two valid documents and a range within the source, extraction succeeds: it appends copies of
  -- the range to the target, under new identities that it returns in order. Undoing it takes the
  -- target's pages back, and refuses every document with another identity, leaving it as it was.
  pub extract_range-TakesOut :
      (source target : VecDocument) (start end : ℕ)
      → Valid source
      → Valid target
      → start ≤ end
      → end ≤ length source.pages
      → (x : Extraction VecDocument C) × (target' : VecDocument) × (extract_range vec_document cmd
            source start end target
          ≡ done x target')
        × (target'.pages ≡ target.pages ++ copies target.allocator.next (slice source start end))
        × (x.page_ids ≡ ids_of (copies target.allocator.next (slice source start end)))
        × TakesOut x.inverse target' target.pages
  unfolding extract_range removals
  extract_range-TakesOut source target start end v w h k =
      let ps = slice source start end in
      let new = new_ids target.allocator.next ps in
      let n = length target.pages in
      let inside : n ≤ n = omega arith in
      let (q, t) = removals-TakesBack cmd Replays l n ps target w inside in
      let added = insert_copies n ps target in
      let added_Valid = insert_copies-Valid n ps target w in
      (
        extraction_of cmd new added,
        after_append target ps,
        extract_range-done cmd source target start end v h k,
        insert_copies-at_end n ps target refl,
        new_ids-copies target.allocator.next ps,
        bound-TakesOut Label.undo_extraction (removals vec_document cmd new)
            (after_append target ps) target added.id refl
            (revised-TakesBack cmd Replays l _ added target _ q added_Valid t),
      )
