-- ===== src/UndoStack/Undoing.antt =====
-- Undo and redo in a session: they never fail, and give back the pages.
use mathlib.Core.Path.{subst₂}
use open_pdf_editor.Base.{
  ℕ, suc, ◌≡◌, refl, Bool, List, [], ◌∷◌, arith, inl, inr, subst, Bool-cases, ◌==◌,
}
use open_pdf_editor.Error.{Error, done, failed, Outcome-cases}
use open_pdf_editor.Command.{Command}
use open_pdf_editor.VecDocument.{VecDocument, vec_document}
use open_pdf_editor.VecDocument.Valid.{Valid, Extends, Extends-refl}
use open_pdf_editor.UndoStack.{UndoStack, apply, undo, redo}
use open_pdf_editor.UndoStack.Sessions.{
  Advances, Session, start, applied, refused, undone, redone, Ready,
}
use open_pdf_editor.UndoStack.History.{recorded-Ready, extended-Ready}
use open_pdf_editor.Undo.Lawful.{Lawful}
use open_pdf_editor.Undo.Runs.{Runs, TakesBack-cons}

abbrev pub stacks : {C : Type 0} → ℕ → List C → List C → UndoStack C
stacks m us rs = record { undo = us; redo = rs; limit = m }

module _ {C : Type 0} (cmd : Command VecDocument C) (Replays : C → Type 0) (l : Lawful cmd Replays)
    (limit : ℕ) (base : VecDocument) where
  abbrev IsReady : ℕ → UndoStack C → VecDocument → Type 0
  IsReady = Ready cmd Replays limit base

  -- The top of the undo stack applies, its inverse goes on the redo stack, and applying that gives
  -- back the pages.
  pub undo_top :
      {n : ℕ} (m : ℕ) (c : C) (us rs : List C) (d : VecDocument)
      → IsReady n (stacks m (c ∷ us) rs) d
      → (i : C) × (d' : VecDocument) × (cmd.apply c d ≡ done i d')
        × IsReady n (stacks m us (i ∷ rs)) d'
        × ((c' : C) × (d'' : VecDocument) × (cmd.apply i d' ≡ done c' d'') × Extends d d'')
  undo_top {n} m c us rs d k =
      let (e, (i, d', h, r)) = k.undo_Runs in
      let (w, q, back) = l.inverse c d k.valid h in
      let (f, t) = k.redo_Runs in
      let (f2, t2, _) =
        TakesBack-cons cmd Replays l c rs d f k.redo_Replays k.valid h (f, t, Extends-refl f) in
      (
        i,
        d',
        h,
        record {
          valid = w;
          undo_Replays = k.undo_Replays.1;
          redo_Replays = (q, k.redo_Replays);
          undo_Runs = (e, r);
          redo_Runs = (f2, t2);
          complete = λ b.
              let (e3, (i3, d3, h3, r3), y) = k.complete b in
              (e3, subst (λ z. Runs cmd us z e3) {x = d3} {y = d'} (cc) r3, y);
          counted = omega (arith, k.counted);
          capped = omega (arith, k.capped);
          same_limit = k.same_limit;
        },
        back,
      )

  pub redo_top :
      {n : ℕ} (m : ℕ) (c : C) (us rs : List C) (d : VecDocument)
      → IsReady n (stacks m us (c ∷ rs)) d
      → (i : C) × (d' : VecDocument) × (cmd.apply c d ≡ done i d')
        × IsReady n (stacks m (i ∷ us) rs) d'
  redo_top {n} m c us rs d k =
      let (e, (i, d', h, r)) = k.redo_Runs in
      let (w, q, back) = l.inverse c d k.valid h in
      let (f, t) = k.undo_Runs in
      let (f2, t2, _) =
        TakesBack-cons cmd Replays l c us d f k.undo_Replays k.valid h (f, t, Extends-refl f) in
      (
        i,
        d',
        h,
        record {
          valid = w;
          undo_Replays = (q, k.undo_Replays);
          redo_Replays = k.redo_Replays.1;
          undo_Runs = (f2, t2);
          redo_Runs = (e, r);
          complete =
              λ b. TakesBack-cons cmd Replays l c us d base k.undo_Replays k.valid h (k.complete b);
          counted = omega (arith, k.counted);
          capped = omega (arith, k.capped);
          same_limit = k.same_limit;
        },
      )

  undone-Ready :
      {n : ℕ} (m : ℕ) (us rs : List C) (d : VecDocument) {b : Bool} {s' : UndoStack C}
      {d' : VecDocument}
      → IsReady n (stacks m us rs) d
      → undo vec_document cmd (stacks m us rs) d ≡ done b (s', d')
      → IsReady n s' d'
  unfolding undo
  undone-Ready {n} m [] rs d k h = subst₂ (IsReady n) (cc) (cc) k
  undone-Ready {n} m (c ∷ us) rs d k h =
      let (i, d1, e, k', _) = undo_top m c us rs d k in
      subst₂ (IsReady n) (ground (arith, e)) (ground (arith, e)) k'

  redone-Ready :
      {n : ℕ} (m : ℕ) (us rs : List C) (d : VecDocument) {b : Bool} {s' : UndoStack C}
      {d' : VecDocument}
      → IsReady n (stacks m us rs) d
      → redo vec_document cmd (stacks m us rs) d ≡ done b (s', d')
      → IsReady n s' d'
  unfolding redo
  redone-Ready {n} m us [] d k h = subst₂ (IsReady n) (cc) (cc) k
  redone-Ready {n} m us (c ∷ rs) d k h =
      let (i, d1, e, k') = redo_top m c us rs d k in
      subst₂ (IsReady n) (ground (arith, e)) (ground (arith, e)) k'

  applied-Ready :
      {n : ℕ} (s : UndoStack C) (d : VecDocument) (c : C) {s' : UndoStack C} {d' : VecDocument}
      → IsReady n s d
      → Advances cmd c d
      → apply vec_document cmd s d c ≡ done tt (s', d')
      → IsReady (suc n) s' d'
  unfolding apply
  applied-Ready {n} s d c k adv h = elim (Outcome-cases (cmd.apply c d)) [
    | inr (x, d1, e) ↦ absurd (ground arith)
    | inl (i, d1, e) ↦ elim (Bool-cases (d1.revision == d.revision)) [
      | inl same ↦
          let unchanged = adv i d1 e (ground arith) in
          subst₂ (IsReady (suc n)) (ground (arith, e, same)) (ground (arith, e, same, unchanged))
            (extended-Ready cmd Replays l limit base k k.valid (Extends-refl d))
      | inr moved ↦
          subst₂ (IsReady (suc n)) (ground (arith, e, moved)) (ground (arith, e, moved))
            (recorded-Ready cmd Replays l limit base c k e)
    ]
  ]

  refused-Ready :
      {n : ℕ} (s : UndoStack C) (d : VecDocument) (c : C) {x : Error} {s' : UndoStack C}
      {d' : VecDocument}
      → IsReady n s d
      → apply vec_document cmd s d c ≡ failed x (s', d')
      → IsReady (suc n) s' d'
  unfolding apply
  refused-Ready {n} s d c k h = elim (Outcome-cases (cmd.apply c d)) [
    | inl (i, d1, e) ↦ absurd (ground arith)
    | inr (x, d1, e) ↦
        let (_, w, y) = l.failure c d k.valid e in
        subst₂ (IsReady (suc n)) (ground (arith, e)) (ground (arith, e))
          (extended-Ready cmd Replays l limit base k w y)
  ]

  pub Session-Ready :
      {n : ℕ} {s : UndoStack C} {d : VecDocument}
      → Valid base
      → Session cmd limit base n s d
      → IsReady n s d
  Session-Ready v start = record {
    valid = v;
    undo_Replays = tt;
    redo_Replays = tt;
    undo_Runs = (base, refl);
    redo_Runs = (base, refl);
    complete = λ b. (base, refl, Extends-refl base);
    counted = omega arith;
    capped = omega arith;
    same_limit = refl;
  }
  Session-Ready v (applied q c adv h) = applied-Ready _ _ c (Session-Ready v q) adv h
  Session-Ready v (refused q c h) = refused-Ready _ _ c (Session-Ready v q) h
  Session-Ready v (undone {s = s} q h) = undone-Ready s.limit s.undo s.redo _ (Session-Ready v q) h
  Session-Ready v (redone {s = s} q h) = redone-Ready s.limit s.undo s.redo _ (Session-Ready v q) h
