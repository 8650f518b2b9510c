-- ===== src/Undo/CompositeLaws.antt =====
-- Every command of the crate is lawful, at every depth of nesting.
use open_pdf_editor.Page.{PageId}
use open_pdf_editor.Base.{zero, suc, Bool-cases, ℕ, ◌==◌, ◌≡◌, refl, [], subst, inl, inr, arith}
use open_pdf_editor.Error.{unsupported, failed, Error, done, Outcome-cases}
use open_pdf_editor.Command.{remove_page, apply_page_command, Command}
use open_pdf_editor.Command.Composite.{
  Boxed, composite_command, boxed_command, apply_all, Composite, basic, import_pages, merge,
  sequence, bound_inverse, apply_composite, merge_all,
}
use open_pdf_editor.VecDocument
use open_pdf_editor.VecDocument.{
  VecDocument, vec_document, insert_copies, new_ids, advance_revision, page, page_ids,
}
use open_pdf_editor.VecDocument.Valid.{Extends-refl, Valid, Extends}
use open_pdf_editor.Undo.Lawful.{IsClean, Lawful}
use open_pdf_editor.Undo.PageLaws.{page_command-Lawful, PageReplays}
use open_pdf_editor.Undo.Sequences.{apply_all-failure, apply_all-identity, apply_all-Extends}
use open_pdf_editor.Undo.Copies.{insert_copies-identity}
use open_pdf_editor.Undo.Merges.{
  merge_all-failure, import_pages-failed, merge_all-identity, import_pages-inverted,
}
use open_pdf_editor.Undo.CompositeInverse.{CompositeReplays, composite-inverse}

module _ {C : Type 0} (cmd : Command VecDocument C) (Replays : C → Type 0)
    (l : Lawful cmd Replays) where
  composite-identity :
      (c : Composite VecDocument C) (d : VecDocument) {i : Composite VecDocument C}
      {d' : VecDocument}
      → apply_composite vec_document cmd c d ≡ done i d'
      → d'.id ≡ d.id
  unfolding apply_composite
  composite-identity (basic c) d h = elim (Outcome-cases (apply_page_command vec_document c d)) [
    | inl (i, d1, e) ↦ let f = page_command-Lawful.identity c d e in ground (arith, f)
    | inr (y, d1, e) ↦ absurd (ground arith)
  ]
  composite-identity (import_pages source ids at_index) d h =
      elim (Outcome-cases (VecDocument.import_pages source ids at_index d)) [
        | inl (new, d1, e) ↦
            let (ps, _, _, g) = import_pages-inverted source ids at_index d e in
            ground (arith, g, insert_copies-identity at_index ps d)
        | inr (y, d1, e) ↦ absurd (ground arith)
      ]
  composite-identity (merge sources) d h =
      elim (Outcome-cases (merge_all vec_document cmd sources [] d)) [
        | inl (applied, d1, e) ↦ ground (arith, merge_all-identity cmd Replays l sources [] d e)
        | inr (y, d1, e) ↦ absurd (ground arith)
      ]
  composite-identity (sequence label cs) d h =
      elim (Outcome-cases (apply_all vec_document cmd cs [] d)) [
        | inl (applied, d1, e) ↦ ground (arith, apply_all-identity cmd Replays l cs [] d e)
        | inr (y, d1, e) ↦ absurd (ground arith)
      ]
  composite-identity (bound_inverse binding c) d h = elim (Outcome-cases (cmd.apply c d)) [
    | inl (i, d1, e) ↦ ground (arith, l.identity c d e)
    | inr (y, d1, e) ↦ absurd (ground arith)
  ]

  -- What a failure comes to.
  abbrev Restored : VecDocument → Error → VecDocument → Type 0
  Restored d e d' = IsClean e × Valid d' × Extends d d'

  fail :
      (c : Composite VecDocument C) (d d1 : VecDocument) (e1 : Error) {e : Error} {d' : VecDocument}
      → apply_composite vec_document cmd c d ≡ failed e d'
      → apply_composite vec_document cmd c d ≡ failed e1 d1
      → Restored d e1 d1
      → Restored d e d'
  fail c d d1 e1 {e} {d'} h k u =
      subst (λ y. Restored d y d') {x = e1} {y = e} (cc)
        (subst (λ y. Restored d e1 y) {x = d1} {y = d'} (cc) u)

  composite-failure :
      (c : Composite VecDocument C) (d : VecDocument) {e : Error} {d' : VecDocument}
      → Valid d
      → apply_composite vec_document cmd c d ≡ failed e d'
      → Restored d e d'
  unfolding apply_composite
  composite-failure (basic c) d v h = elim (Outcome-cases (apply_page_command vec_document c d)) [
    | inl (i, d1, e) ↦ absurd (ground arith)
    | inr (y, d1, e) ↦
        fail (basic c) d d1 y h (ground (arith, e)) (page_command-Lawful.failure c d v e)
  ]
  composite-failure (import_pages source ids at_index) d v h =
      elim (Outcome-cases (VecDocument.import_pages source ids at_index d)) [
        | inl (new, d1, e) ↦ absurd (ground arith)
        | inr (y, d1, e) ↦
            let (clean, same) = import_pages-failed source ids at_index d e in
            fail (import_pages source ids at_index) d d1 y h (ground (arith, e))
              (clean, rw same v, rw same (Extends-refl d))
      ]
  composite-failure (merge sources) d v h =
      elim (Outcome-cases (merge_all vec_document cmd sources [] d)) [
        | inl (applied, d1, e) ↦ absurd (ground arith)
        | inr (y, d1, e) ↦
            fail (merge sources) d d1 y h (ground (arith, e))
              (merge_all-failure cmd Replays l sources [] d d v tt (d, refl, Extends-refl d) e)
      ]
  composite-failure (sequence label cs) d v h =
      elim (Outcome-cases (apply_all vec_document cmd cs [] d)) [
        | inl (applied, d1, e) ↦ absurd (ground arith)
        | inr (y, d1, e) ↦
            fail (sequence label cs) d d1 y h (ground (arith, e))
              (apply_all-failure cmd Replays l cs [] d d v tt (d, refl, Extends-refl d) e)
      ]
  composite-failure (bound_inverse binding c) d v h = elim (Bool-cases (binding == d.id)) [
    | inl here ↦ elim (Outcome-cases (cmd.apply c d)) [
      | inl (i, d1, e) ↦ absurd (ground arith)
      | inr (y, d1, e) ↦
          fail (bound_inverse binding c) d d1 y h (ground (arith, here, e)) (l.failure c d v e)
    ]
    | inr there ↦
        fail (bound_inverse binding c) d d unsupported h (ground (arith, there))
          (tt, v, Extends-refl d)
  ]

  composite-replay :
      (c : Composite VecDocument C) (d e : VecDocument) {i : Composite VecDocument C}
      {d' : VecDocument}
      → CompositeReplays Replays c
      → Valid d
      → Valid e
      → Extends d e
      → apply_composite vec_document cmd c d ≡ done i d'
      → (e' : VecDocument) × (apply_composite vec_document cmd c e ≡ done i e') × Extends d' e'
  unfolding apply_composite
  composite-replay (basic c) d e p v w x h =
      elim (Outcome-cases (apply_page_command vec_document c d)) [
        | inl (i, d1, f) ↦
            let (e', g, y) = page_command-Lawful.replay c d e p v w x f in
            (e', ground (arith, g), ground arith)
        | inr (y, d1, f) ↦ absurd (ground arith)
      ]
  composite-replay (sequence label cs) d e {d'} p v w x h =
      elim (Outcome-cases (apply_all vec_document cmd cs [] d)) [
        | inl (applied, d1, f) ↦
            let (e', g, y) = apply_all-Extends cmd Replays l cs [] d e p v w x f in
            (e', ground (arith, g), subst (λ z. Extends z e') {x = d1} {y = d'} (ground arith) y)
        | inr (y, d1, f) ↦ absurd (ground arith)
      ]
  composite-replay (bound_inverse binding c) d e {d'} p v w x h =
      elim (Outcome-cases (cmd.apply c d)) [
        | inl (i, d1, f) ↦
            let (e', g, y) = l.replay c d e p v w x f in
            let same = x.same_document in
            (e', ground (arith, g), subst (λ z. Extends z e') {x = d1} {y = d'} (ground arith) y)
        | inr (y, d1, f) ↦ absurd (ground arith)
      ]
  composite-replay _ d e p v w x h = absurd p

  composite-removal :
      (id : PageId) (d : VecDocument) {d' : VecDocument}
      → VecDocument.remove_page id d ≡ done tt d'
      → (i : Composite VecDocument C) × (apply_composite vec_document cmd (basic (remove_page id)) d
          ≡ done i d')
  unfolding apply_composite
  composite-removal id d h =
      let (i, e) = page_command-Lawful.removal id d h in (basic i, ground (arith, e))

  pub composite_command-Lawful :
      Lawful (composite_command vec_document cmd) (CompositeReplays Replays)
  unfolding composite_command
  composite_command-Lawful = record {
    inverse = λ c d v h. composite-inverse cmd Replays l c d v h;
    identity = composite-identity;
    failure = composite-failure;
    replay = composite-replay;
    removal = composite-removal;
    removal_Replays = λ _. tt;
  }

-- The commands that may be applied again, at a depth of nesting.
abbrev pub BoxedReplays : (n : ℕ) → Boxed VecDocument n → Type 0
BoxedReplays zero = PageReplays
BoxedReplays (suc n) = CompositeReplays (BoxedReplays n)

pub boxed_command-Lawful : (n : ℕ) → Lawful (boxed_command vec_document n) (BoxedReplays n)
unfolding boxed_command
boxed_command-Lawful zero = page_command-Lawful
boxed_command-Lawful (suc n) =
    composite_command-Lawful (boxed_command vec_document n) (BoxedReplays n)
      (boxed_command-Lawful n)
