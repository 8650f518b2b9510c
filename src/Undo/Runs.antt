-- ===== src/Undo/Runs.antt =====
-- Several commands applied one after another, each successfully, over lawful commands.
use open_pdf_editor.Base.{◌≡◌, refl, List, [], ◌∷◌, All, subst, sym}
use open_pdf_editor.Error.{Error, done, failed}
use open_pdf_editor.Command.{Command}
use open_pdf_editor.Command.Composite.{roll_back, apply_all}
use open_pdf_editor.VecDocument.{VecDocument, vec_document}
use open_pdf_editor.VecDocument.Valid.{Valid, Extends, Extends-trans}
use open_pdf_editor.Undo.Lawful.{Lawful}

module _ {C : Type 0} (cmd : Command VecDocument C) where
  -- from `d`, all of the list succeed, in order, and lead to `e`
  abbrev pub Runs : List C → VecDocument → VecDocument → Type 0
  Runs [] d e = e ≡ d
  Runs (c ∷ cs) d e = (i : C) × (d' : VecDocument) × (cmd.apply c d ≡ done i d') × Runs cs d' e

  -- from `d` the list takes the document back to `b`
  abbrev pub TakesBack : List C → VecDocument → VecDocument → Type 0
  TakesBack cs d b = (e : VecDocument) × Runs cs d e × Extends b e

  pub apply_all-Runs :
      (cs applied : List C) (d : VecDocument) {e : VecDocument}
      → Runs cs d e
      → (applied' : List C) × (apply_all vec_document cmd cs applied d ≡ done applied' e)
  unfolding apply_all
  apply_all-Runs [] applied d r = (applied, rw r)
  apply_all-Runs (c ∷ cs) applied d (i, d', h, r) =
      rw (h, apply_all) (apply_all-Runs cs (i ∷ applied) d' r)

  -- A rollback that runs reports the original error alone.
  pub roll_back-Runs :
      (applied : List C) (original : Error) (d : VecDocument) {e : VecDocument}
      → Runs applied d e
      → roll_back vec_document cmd applied original d ≡ failed original e
  unfolding roll_back
  roll_back-Runs [] original d r = rw r
  roll_back-Runs (c ∷ cs) original d (i, d', h, r) =
      rw (h, roll_back) (roll_back-Runs cs original d' r)

module _ {C : Type 0} (cmd : Command VecDocument C) (Replays : C → Type 0)
    (l : Lawful cmd Replays) where
  pub Runs-Valid :
      (cs : List C) (d : VecDocument) {e : VecDocument} → Valid d → Runs cmd cs d e → Valid e
  Runs-Valid [] d v r = subst Valid (sym r) v
  Runs-Valid (c ∷ cs) d v (i, d', h, r) = Runs-Valid cs d' (l.inverse c d v h).0 r

  -- What runs on a document runs on each that extends it.
  pub Runs-Extends :
      (cs : List C) (d d2 : VecDocument) {e : VecDocument}
      → All Replays cs
      → Valid d
      → Valid d2
      → Extends d d2
      → Runs cmd cs d e
      → TakesBack cmd cs d2 e
  Runs-Extends [] d d2 p v w x r = (d2, refl, subst (λ y. Extends y d2) (sym r) x)
  Runs-Extends (c ∷ cs) d d2 (p, ps) v w x (i, d', h, r) =
      let (d2', h2, x') = l.replay c d d2 p v w x h in
      let (e2, r2, x2) =
        Runs-Extends cs d' d2' ps (l.inverse c d v h).0 (l.inverse c d2 w h2).0 x' r in
      (e2, (i, d2', h2, r2), x2)

  pub TakesBack-Extends :
      (cs : List C) (d d2 b : VecDocument)
      → All Replays cs
      → Valid d
      → Valid d2
      → Extends d d2
      → TakesBack cmd cs d b
      → TakesBack cmd cs d2 b
  TakesBack-Extends cs d d2 b p v w x (e, r, y) =
      let (e2, r2, x2) = Runs-Extends cs d d2 p v w x r in (e2, r2, Extends-trans y x2)

  -- One more inverse in front.
  pub TakesBack-cons :
      (c : C) (cs : List C) (d b : VecDocument) {i : C} {d' : VecDocument}
      → All Replays cs
      → Valid d
      → cmd.apply c d ≡ done i d'
      → TakesBack cmd cs d b
      → TakesBack cmd (i ∷ cs) d' b
  TakesBack-cons c cs d b {i} {d'} p v h t =
      let (w, q, (c', d2, h2, x)) = l.inverse c d v h in
      let (e, r, y) = TakesBack-Extends cs d d2 b p v (l.inverse i d' w h2).0 x t in
      (e, (c', d2, h2, r), y)
