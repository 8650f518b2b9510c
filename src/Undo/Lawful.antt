-- ===== src/Undo/Lawful.antt =====
-- What a type of commands must satisfy over the reference document for undo to be exact: the
-- promise of the trait `Command` (opdf-core/src/command.rs).
use open_pdf_editor.Base.{◌≡◌}
use open_pdf_editor.Error.{Error, rollback_failed, done, failed}
use open_pdf_editor.Command.{Command, remove_page}
use open_pdf_editor.Page.{PageId}
use open_pdf_editor.VecDocument
use open_pdf_editor.VecDocument.{VecDocument}
use open_pdf_editor.VecDocument.Valid.{Valid, Extends}

-- Any error but the one that says the document is no longer what it was.
abbrev pub IsClean : Error → Type 0
IsClean (rollback_failed _ _) = ⊥
IsClean _ = Unit

-- `Replays c`: `c` may be applied again on any document that extends the one it was made for. The
-- inverses do; a command that allocates an identity does not.
pub record Lawful {C : Type 0} (cmd : Command VecDocument C) (Replays : C → Type 0) : Type 0 where
  pub inverse :
      (c : C) (d : VecDocument) {i : C} {d' : VecDocument}
      → Valid d
      → cmd.apply c d ≡ done i d'
      → Valid d'
        × Replays i
        × ((c' : C) × (d'' : VecDocument) × (cmd.apply i d' ≡ done c' d'') × Extends d d'')
  pub identity :
      (c : C) (d : VecDocument) {i : C} {d' : VecDocument}
      → cmd.apply c d ≡ done i d'
      → d'.id ≡ d.id
  pub failure :
      (c : C) (d : VecDocument) {e : Error} {d' : VecDocument}
      → Valid d
      → cmd.apply c d ≡ failed e d'
      → IsClean e × Valid d' × Extends d d'
  pub replay :
      (c : C) (d e : VecDocument) {i : C} {d' : VecDocument}
      → Replays c
      → Valid d
      → Valid e
      → Extends d e
      → cmd.apply c d ≡ done i d'
      → (e' : VecDocument) × (cmd.apply c e ≡ done i e') × Extends d' e'
  -- a boxed removal removes
  pub removal :
      (id : PageId) (d : VecDocument) {d' : VecDocument}
      → VecDocument.remove_page id d ≡ done tt d'
      → (i : C) × (cmd.apply (cmd.boxed (remove_page id)) d ≡ done i d')
  pub removal_Replays : (id : PageId) → Replays (cmd.boxed (remove_page id))
