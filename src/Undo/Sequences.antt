-- ===== src/Undo/Sequences.antt =====
-- `Sequence` over lawful commands: its inverse takes everything back, and a failing one leaves the
-- pages as they were.
use open_pdf_editor.Base.{◌≡◌, ◌≢◌, ◌∙◌, List, [], ◌∷◌, All, subst, inl, inr, arith}
use mathlib.Core.Path.{subst₂}
use open_pdf_editor.Error.{Error, done, failed, Outcome-cases}
use open_pdf_editor.Command.{Command}
use open_pdf_editor.Command.Composite.{roll_back, apply_all}
use open_pdf_editor.VecDocument.{VecDocument, vec_document}
use open_pdf_editor.VecDocument.Valid.{Valid, Extends}
use open_pdf_editor.Undo.Lawful.{Lawful, IsClean}
use open_pdf_editor.Undo.Runs.{
  TakesBack, TakesBack-cons, TakesBack-Extends, Runs-Valid, roll_back-Runs,
}

module _ {C : Type 0} (cmd : Command VecDocument C) (Replays : C → Type 0)
    (l : Lawful cmd Replays) where
  pub roll_back-ne-done :
      (applied : List C) (x : Error) (d : VecDocument) {r : List C} {d' : VecDocument}
      → roll_back vec_document cmd applied x d ≢ done r d'
  unfolding roll_back
  roll_back-ne-done [] x d h = cc
  roll_back-ne-done (c ∷ cs) x d h = elim (Outcome-cases (cmd.apply c d)) [
    | inl (i, d1, e) ↦ roll_back-ne-done cs x d1 (rw (e, roll_back) at h)
    | inr (y, d1, e) ↦ ground arith
  ]

  -- The inverses collected so far take the document back to `b`; so do those at the end.
  pub apply_all-TakesBack :
      (cs applied : List C) (d b : VecDocument) {applied' : List C} {d' : VecDocument}
      → Valid d
      → All Replays applied
      → TakesBack cmd applied d b
      → apply_all vec_document cmd cs applied d ≡ done applied' d'
      → Valid d' × All Replays applied' × TakesBack cmd applied' d' b
  unfolding apply_all
  apply_all-TakesBack [] applied d b v p t h = (
    subst Valid (cc) v,
    subst (All Replays) (cc) p,
    subst₂ (λ x y. TakesBack cmd x y b) (cc) (cc) t,
  )
  apply_all-TakesBack (c ∷ cs) applied d b v p t h = elim (Outcome-cases (cmd.apply c d)) [
    | inl (i, d1, e) ↦
        let (w, q, _) = l.inverse c d v e in
        apply_all-TakesBack cs (i ∷ applied) d1 b w (q, p)
          (TakesBack-cons cmd Replays l c applied d b p v e t) (rw (e, apply_all) at h)
    | inr (x, d1, e) ↦ absurd (roll_back-ne-done applied x d1 (rw (e, apply_all) at h))
  ]

  -- Where a step fails, rolling back leads over `b`, and the step's own error comes out.
  pub apply_all-failure :
      (cs applied : List C) (d b : VecDocument) {x : Error} {d' : VecDocument}
      → Valid d
      → All Replays applied
      → TakesBack cmd applied d b
      → apply_all vec_document cmd cs applied d ≡ failed x d'
      → IsClean x × Valid d' × Extends b d'
  unfolding apply_all
  apply_all-failure [] applied d b v p t h = absurd (cc)
  apply_all-failure (c ∷ cs) applied d b {x} {d'} v p t h = elim (Outcome-cases (cmd.apply c d)) [
    | inl (i, d1, e) ↦
        let (w, q, _) = l.inverse c d v e in
        apply_all-failure cs (i ∷ applied) d1 b w (q, p)
          (TakesBack-cons cmd Replays l c applied d b p v e t) (rw (e, apply_all) at h)
    | inr (y, d1, e) ↦
        let (clean, w, f) = l.failure c d v e in
        let (d2, r, z) = TakesBack-Extends cmd Replays l applied d d1 b p v w f t in
        let back = roll_back-Runs cmd applied y d1 r in
        let h' : roll_back vec_document cmd applied y d1 ≡ failed x d' = rw (e, apply_all) at h in
        (
          subst IsClean (cc) clean,
          subst Valid (cc) (Runs-Valid cmd Replays l applied d1 w r),
          subst (Extends b) (cc) z,
        )
  ]

  pub apply_all-identity :
      (cs applied : List C) (d : VecDocument) {r : List C} {d' : VecDocument}
      → apply_all vec_document cmd cs applied d ≡ done r d'
      → d'.id ≡ d.id
  unfolding apply_all
  apply_all-identity [] applied d h = ground arith
  apply_all-identity (c ∷ cs) applied d h = elim (Outcome-cases (cmd.apply c d)) [
    | inl (i, d1, e) ↦
        apply_all-identity cs (i ∷ applied) d1 (rw (e, apply_all) at h) ∙ l.identity c d e
    | inr (y, d1, e) ↦ absurd (roll_back-ne-done applied y d1 (rw (e, apply_all) at h))
  ]

  pub apply_all-Extends :
      (cs applied : List C) (d e : VecDocument) {r : List C} {d' : VecDocument}
      → All Replays cs
      → Valid d
      → Valid e
      → Extends d e
      → apply_all vec_document cmd cs applied d ≡ done r d'
      → (e' : VecDocument) × (apply_all vec_document cmd cs applied e ≡ done r e') × Extends d' e'
  unfolding apply_all
  apply_all-Extends [] applied d e {d'} p v w x h =
      (e, ground arith, subst (λ y. Extends y e) (cc) x)
  apply_all-Extends (c ∷ cs) applied d e (p, ps) v w x h = elim (Outcome-cases (cmd.apply c d)) [
    | inl (i, d1, f) ↦
        let (e1, g, y) = l.replay c d e p v w x f in
        let (e', k, z) =
          apply_all-Extends cs (i ∷ applied) d1 e1 ps (l.inverse c d v f).0 (l.inverse c e w g).0 y
            (rw (f, apply_all) at h) in
        (e', rw (g, apply_all) k, z)
    | inr (y, d1, f) ↦ absurd (roll_back-ne-done applied y d1 (rw (f, apply_all) at h))
  ]
