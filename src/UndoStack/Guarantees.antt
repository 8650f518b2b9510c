-- ===== src/UndoStack/Guarantees.antt =====
-- What the undo stack guarantees for the commands of the crate, nested to any depth.
use open_pdf_editor.Base.{
  ℕ, zero, suc, ◌+◌, ◌≤◌, ◌≡◌, refl, ◌∙◌, Bool, true, false, List, [], ◌∷◌, length, arith, sym, ap,
}
use open_pdf_editor.Error.{Error, Outcome, done, failed}
use open_pdf_editor.Command.{Command}
use open_pdf_editor.Command.Composite.{Boxed, boxed_command}
use open_pdf_editor.VecDocument.{VecDocument, vec_document}
use open_pdf_editor.VecDocument.Valid.{Valid}
use open_pdf_editor.UndoStack.{UndoStack, undo, redo, can_undo, can_redo}
use open_pdf_editor.UndoStack.Sessions.{Session, Ready}
use open_pdf_editor.UndoStack.Undoing.{stacks, undo_top, redo_top, Session-Ready}
use open_pdf_editor.Undo.Lawful.{IsClean}
use open_pdf_editor.Undo.CompositeLaws.{BoxedReplays, boxed_command-Lawful}

-- A command that fails, whatever it is composed of, leaves the pages in order and as they were, and
-- its error never says that a rollback failed.
pub apply-failed :
    (depth : ℕ) (c : Boxed VecDocument depth) (d : VecDocument) {e : Error} {d' : VecDocument}
    → Valid d
    → (boxed_command vec_document depth).apply c d ≡ failed e d'
    → IsClean e × (d'.pages ≡ d.pages)
apply-failed depth c d v h =
    let (clean, w, x) = (boxed_command-Lawful depth).failure c d v h in (clean, x.same_pages)

-- The inverse that a successful command returns applies to the changed document, and gives back its
-- pages; so does the inverse of the inverse on the way forward.
pub apply-inverse :
    (depth : ℕ) (c : Boxed VecDocument depth) (d : VecDocument) {i : Boxed VecDocument depth}
    {d' : VecDocument}
    → Valid d
    → (boxed_command vec_document depth).apply c d ≡ done i d'
    → (c' : Boxed VecDocument depth) × (i' : Boxed VecDocument depth) × (d1 : VecDocument)
      × (d2 : VecDocument) × ((boxed_command vec_document depth).apply i d' ≡ done c' d1)
      × (d1.pages ≡ d.pages)
      × ((boxed_command vec_document depth).apply c' d1 ≡ done i' d2)
      × (d2.pages ≡ d'.pages)
apply-inverse depth c d {i} {d'} v h =
    let l = boxed_command-Lawful depth in
    let (w, _, (c', d1, f, x)) = l.inverse c d v h in
    let (_, _, (i', d2, g, y)) = l.inverse i d' w f in
    (c', i', d1, d2, f, x.same_pages, g, y.same_pages)

abbrev pub commands : (depth : ℕ) → Command VecDocument (Boxed VecDocument depth)
commands depth = boxed_command vec_document depth

module _ (depth limit : ℕ) (base : VecDocument) {n : ℕ} {d : VecDocument} where
  undo-redo_stacks :
      (m : ℕ) (us rs : List (Boxed VecDocument depth))
      → Ready (commands depth) (BoxedReplays depth) limit base n (stacks m us rs) d
      → can_undo (stacks m us rs) ≡ true
      → (s1 : UndoStack (Boxed VecDocument depth)) × (s2 : UndoStack (Boxed VecDocument depth))
        × (d1 : VecDocument) × (d2 : VecDocument) × (undo vec_document
              (commands depth)
              (stacks m us rs)
              d
            ≡ done true (s1, d1))
        × (redo vec_document (commands depth) s1 d1 ≡ done true (s2, d2))
        × (d2.pages ≡ d.pages)
        × (s2.redo ≡ rs)
  unfolding undo redo
  undo-redo_stacks m [] rs k h = absurd (cc)
  undo-redo_stacks m (c ∷ us) rs k h =
      let (i, d1, e, _, (c', d2, f, x)) =
        undo_top (commands depth) (BoxedReplays depth) (boxed_command-Lawful depth) limit base m c
          us rs d k in
      (
        stacks m us (i ∷ rs),
        stacks m (c' ∷ us) rs,
        d1,
        d2,
        ground (arith, e),
        ground (arith, f),
        x.same_pages,
        refl,
      )

  -- In a session over a valid document, where no command applied changes the document without
  -- advancing its revision: undo, when there is something to undo, does not fail, and redo after it
  -- does not fail and gives back the pages and the rest of the redo stack.
  pub undo-redo :
      {s : UndoStack (Boxed VecDocument depth)}
      → Valid base
      → Session (commands depth) limit base n s d
      → can_undo s ≡ true
      → (s1 : UndoStack (Boxed VecDocument depth)) × (s2 : UndoStack (Boxed VecDocument depth))
        × (d1 : VecDocument) × (d2 : VecDocument) × (undo vec_document (commands depth) s d
            ≡ done true (s1, d1))
        × (redo vec_document (commands depth) s1 d1 ≡ done true (s2, d2))
        × (d2.pages ≡ d.pages)
        × (s2.redo ≡ s.redo)
  undo-redo {s} v q h =
      undo-redo_stacks s.limit s.undo s.redo
        (Session-Ready (commands depth) (BoxedReplays depth) (boxed_command-Lawful depth) limit base
          v q)
        h

  redo_stacks :
      (m : ℕ) (us rs : List (Boxed VecDocument depth))
      → Ready (commands depth) (BoxedReplays depth) limit base n (stacks m us rs) d
      → can_redo (stacks m us rs) ≡ true
      → (s1 : UndoStack (Boxed VecDocument depth)) × (d1 : VecDocument) × (redo vec_document
            (commands depth)
            (stacks m us rs)
            d
          ≡ done true (s1, d1))
  unfolding redo
  redo_stacks m us [] k h = absurd (cc)
  redo_stacks m us (c ∷ rs) k h =
      let (i, d1, e, _) =
        redo_top (commands depth) (BoxedReplays depth) (boxed_command-Lawful depth) limit base m c
          us rs d k in
      (stacks m (i ∷ us) rs, d1, ground (arith, e))

  -- In a session over a valid document, where no command applied changes the document without
  -- advancing its revision: redo, when there is something to redo, does not fail.
  pub redo-succeeds :
      {s : UndoStack (Boxed VecDocument depth)}
      → Valid base
      → Session (commands depth) limit base n s d
      → can_redo s ≡ true
      → (s1 : UndoStack (Boxed VecDocument depth)) × (d1 : VecDocument) × (redo vec_document
            (commands depth)
            s
            d
          ≡ done true (s1, d1))
  redo-succeeds {s} v q h =
      redo_stacks s.limit s.undo s.redo
        (Session-Ready (commands depth) (BoxedReplays depth) (boxed_command-Lawful depth) limit base
          v q)
        h

  -- In a session over a valid document, where no command applied changes the document without
  -- advancing its revision: the two stacks together never hold more than the limit.
  pub length-le-limit :
      {s : UndoStack (Boxed VecDocument depth)}
      → Valid base
      → Session (commands depth) limit base n s d
      → length s.undo + length s.redo ≤ limit
  length-le-limit {s} v q =
      (Session-Ready (commands depth) (BoxedReplays depth) (boxed_command-Lawful depth) limit base v
        q).capped

-- `undo`, a number of times
pub undo_times :
    (depth : ℕ)
    → ℕ
    → UndoStack (Boxed VecDocument depth)
    → VecDocument
    → Outcome (UndoStack (Boxed VecDocument depth) × VecDocument) Bool
undo_times depth zero s d = done false (s, d)
undo_times depth (suc n) s d = elim (undo vec_document (boxed_command vec_document depth) s d) [
  | done _ (s', d') ↦ undo_times depth n s' d'
  | failed e (s', d') ↦ failed e (s', d')
]

undo_times-suc :
    (depth k m : ℕ) (c : Boxed VecDocument depth) (us rs : List (Boxed VecDocument depth))
    (d : VecDocument) {i : Boxed VecDocument depth} {d1 : VecDocument}
    → (boxed_command vec_document depth).apply c d ≡ done i d1
    → undo_times depth (suc k) (stacks m (c ∷ us) rs) d
      ≡ undo_times depth k (stacks m us (i ∷ rs)) d1
unfolding undo_times undo
undo_times-suc depth k m c us rs d e = ground (arith, e)

undo_times-stacks :
    (depth limit : ℕ) (base : VecDocument) {n : ℕ} (m : ℕ) (us rs : List (Boxed VecDocument depth))
    (d : VecDocument)
    → Ready (boxed_command vec_document depth) (BoxedReplays depth) limit base n (stacks m us rs) d
    → n ≤ limit
    → (s' : UndoStack (Boxed VecDocument depth)) × (d' : VecDocument) × (undo_times depth
          (length us)
          (stacks m us rs)
          d
        ≡ done false (s', d'))
      × (s'.undo ≡ [])
      × (d'.pages ≡ base.pages)
unfolding undo_times undo
undo_times-stacks depth limit base m [] rs d k h =
    let (e, r, x) = k.complete h in
    (stacks m [] rs, d, refl, refl, ap (λ y. y.pages) (sym r) ∙ x.same_pages)
undo_times-stacks depth limit base m (c ∷ us) rs d k h =
    let (i, d1, e, k', _) =
      undo_top (boxed_command vec_document depth) (BoxedReplays depth) (boxed_command-Lawful depth)
        limit base m c us rs d k in
    let (s', d', f, g, p) = undo_times-stacks depth limit base m us (i ∷ rs) d1 k' h in
    (s', d', undo_times-suc depth (length us) m c us rs d e ∙ f, g, p)

-- After any session of at most `limit` commands given to `apply`, with undos and redos between
-- them, over a valid document, where no command applied changes the document without advancing its
-- revision: undoing everything gives back the pages of the beginning and empties the undo stack,
-- with no failure on the way.
pub undo_all :
    (depth limit : ℕ) (base : VecDocument) {n : ℕ} {s : UndoStack (Boxed VecDocument depth)}
    {d : VecDocument}
    → Valid base
    → Session (boxed_command vec_document depth) limit base n s d
    → n ≤ limit
    → (s' : UndoStack (Boxed VecDocument depth)) × (d' : VecDocument) × (undo_times depth
          (length s.undo)
          s
          d
        ≡ done false (s', d'))
      × (s'.undo ≡ [])
      × (d'.pages ≡ base.pages)
undo_all depth limit base {s = s} {d = d} v q h =
    undo_times-stacks depth limit base s.limit s.undo s.redo d
      (Session-Ready (boxed_command vec_document depth) (BoxedReplays depth)
        (boxed_command-Lawful depth) limit base v q)
      h
