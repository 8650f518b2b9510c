-- ===== src/Undo/CompositeInverse.antt =====
-- Every composite of lawful commands returns an inverse that takes the pages back.
use open_pdf_editor.Base.{
  ==_iff, true, ◌==◌, ◌≡◌, refl, ◌∙◌, List, [], All, subst, inl, inr, arith, length,
}
use mathlib.Core.Path.{sym}
use open_pdf_editor.Error.{done, Outcome-cases}
use open_pdf_editor.Command.{page_command, ◌>>=◌, Label, Command}
use open_pdf_editor.Command.Composite.{
  apply_all, removals, Composite, basic, import_pages, merge, sequence, bound_inverse,
  apply_composite, merge_all,
}
use open_pdf_editor.VecDocument
use open_pdf_editor.VecDocument.{
  VecDocument, vec_document, insert_copies, new_ids, advance_revision, page, page_ids,
}
use open_pdf_editor.VecDocument.Valid.{Extends-refl, Valid, Extends}
use open_pdf_editor.Undo.Lawful.{Lawful}
use open_pdf_editor.Undo.PageLaws.{page_command-Lawful, PageReplays}
use open_pdf_editor.Undo.Runs.{TakesBack, apply_all-Runs}
use open_pdf_editor.Undo.Sequences.{apply_all-TakesBack}
use open_pdf_editor.Undo.Copies.{removals-TakesBack, insert_copies-Valid}
use open_pdf_editor.Undo.Merges.{
  import_pages-inverted, revised-Valid, revised-TakesBack, merge_all-TakesBack,
}

-- All but the commands that allocate.
abbrev pub CompositeReplays : {C : Type 0} → (C → Type 0) → Composite VecDocument C → Type 0
CompositeReplays Replays (basic c) = PageReplays c
CompositeReplays Replays (import_pages _ _ _) = ⊥
CompositeReplays Replays (merge _) = ⊥
CompositeReplays Replays (sequence _ cs) = All Replays cs
CompositeReplays Replays (bound_inverse _ c) = Replays c

module _ {C : Type 0} (cmd : Command VecDocument C) (Replays : C → Type 0)
    (l : Lawful cmd Replays) where
  -- What undoing comes to, for a composite.
  abbrev Undone : VecDocument → VecDocument → Composite VecDocument C → Type 0
  Undone d d' i =
      Valid d'
      × CompositeReplays Replays i
      × ((c' : Composite VecDocument C) × (d'' : VecDocument) × (apply_composite vec_document cmd i
              d'
            ≡ done c' d'')
          × Extends d d'')

  sequence-Undone :
      (label : Label) (applied : List C) (d d' : VecDocument)
      → Valid d'
      → All Replays applied
      → TakesBack cmd applied d' d
      → Undone d d' (sequence label applied)
  sequence-Undone label applied d d' w q (e, r, x) =
      let (applied', f) = apply_all-Runs cmd applied [] d' r in
      (
        w,
        q,
        (sequence (Label.undo_of label) applied', e, unfold apply_composite in rw (f, ◌>>=◌), x),
      )

  finish :
      (c : Composite VecDocument C) (d d1 : VecDocument) (i1 : Composite VecDocument C)
      {i : Composite VecDocument C} {d' : VecDocument}
      → apply_composite vec_document cmd c d ≡ done i d'
      → apply_composite vec_document cmd c d ≡ done i1 d1
      → Undone d d1 i1
      → Undone d d' i
  finish c d d1 i1 {i} {d'} h k u =
      subst (λ y. Undone d d' y) {x = i1} {y = i} (cc)
        (subst (λ y. Undone d y i1) {x = d1} {y = d'} (cc) u)

  pub composite-inverse :
      (c : Composite VecDocument C) (d : VecDocument) {i : Composite VecDocument C}
      {d' : VecDocument}
      → Valid d
      → apply_composite vec_document cmd c d ≡ done i d'
      → Undone d d' i
  unfolding apply_composite
  composite-inverse (basic c) d v h = elim (Outcome-cases ((page_command vec_document).apply c d)) [
    | inl (i, d1, e) ↦
        let (w, q, (c', d2, f, x)) = page_command-Lawful.inverse c d v e in
        finish (basic c) d d1 (basic i) h (ground (arith, e))
          (w, q, (basic c', d2, rw (f, ◌>>=◌), x))
    | inr (y, d1, e) ↦ absurd (ground arith)
  ]
  composite-inverse (import_pages source ids at_index) d v h =
      elim (Outcome-cases (VecDocument.import_pages source ids at_index d)) [
        | inl (new, d1, e) ↦
            let (ps, inside, f, g) = import_pages-inverted source ids at_index d e in
            let (q, u) = removals-TakesBack cmd Replays l at_index ps d v inside in
            let copies = insert_copies at_index ps d in
            let w = insert_copies-Valid at_index ps d v in
            let r = advance_revision d.revision in
            finish (import_pages source ids at_index) d d1
              (sequence Label.undo_import (removals vec_document cmd new)) h (ground (arith, e))
              (sequence-Undone Label.undo_import (removals vec_document cmd new) d d1
                (rw g (revised-Valid cmd Replays l copies r w)) (rw f q)
                (rw (f, g) (revised-TakesBack cmd Replays l _ copies d r q w u)))
        | inr (y, d1, e) ↦ absurd (ground arith)
      ]
  composite-inverse (merge sources) d v h =
      elim (Outcome-cases (merge_all vec_document cmd sources [] d)) [
        | inl (applied, d1, e) ↦
            let (w, q, t) =
              merge_all-TakesBack cmd Replays l sources [] d d v tt (d, refl, Extends-refl d) e in
            finish (merge sources) d d1 (sequence (Label.undo_merge (length sources)) applied) h
              (ground (arith, e))
              (sequence-Undone (Label.undo_merge (length sources)) applied d d1 w q t)
        | inr (y, d1, e) ↦ absurd (ground arith)
      ]
  composite-inverse (sequence label cs) d v h =
      elim (Outcome-cases (apply_all vec_document cmd cs [] d)) [
        | inl (applied, d1, e) ↦
            let (w, q, t) =
              apply_all-TakesBack cmd Replays l cs [] d d v tt (d, refl, Extends-refl d) e in
            finish (sequence label cs) d d1 (sequence (Label.undo_of label) applied) h
              (ground (arith, e)) (sequence-Undone (Label.undo_of label) applied d d1 w q t)
        | inr (y, d1, e) ↦ absurd (ground arith)
      ]
  composite-inverse (bound_inverse binding c) d v h = elim (Outcome-cases (cmd.apply c d)) [
    | inl (i, d1, e) ↦
        let (w, q, (c', d2, f, x)) = l.inverse c d v e in
        let here : binding ≡ d.id = ground arith in
        let there : (binding == d1.id) ≡ true =
          (==_iff binding d1.id).1 (here ∙ sym (l.identity c d e)) in
        finish (bound_inverse binding c) d d1 (bound_inverse binding i) h (ground (arith, e))
          (w, q, (bound_inverse binding c', d2, ground arith, x))
    | inr (y, d1, e) ↦ absurd (ground arith)
  ]
