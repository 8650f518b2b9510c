-- ===== src/UndoStack.antt =====
-- The undo/redo stack (opdf-ops/src/undo_stack.rs), over any commands. Each stack is a list with
-- its top as head, so the oldest step, which the limit drops, is the last. A method returns the
-- stack beside the document, both of which it borrows mutably.
pub mod Sessions
pub mod History
pub mod Guarantees
pub mod Undoing
use open_pdf_editor.Base.{
  some, none, Option, ℕ, suc, Bool, true, false, List, [], ◌∷◌, length, ltb, ◌==◌, if◌then◌else◌,
}
use open_pdf_editor.Error.{Error, Outcome, done, failed}
use open_pdf_editor.Document.{Document}
use open_pdf_editor.Command.{Label, Command}

pub record UndoStack (C : Type 0) : Type 0 where
  pub undo : List C
  pub redo : List C
  pub limit : ℕ

abbrev pub default_undo_limit : ℕ
default_undo_limit = 100

-- `limit` is a `NonZeroUsize`
abbrev pub with_limit : {C : Type 0} → ℕ → UndoStack C
with_limit limit = record { undo = []; redo = []; limit = limit }

-- `undo.remove(0)`
unfoldable pub remove_oldest : {C : Type 0} → List C → List C
remove_oldest [] = []
remove_oldest (c ∷ []) = []
remove_oldest (c ∷ c' ∷ cs) = c ∷ remove_oldest (c' ∷ cs)

-- `push`, and the cap
unfoldable pub push_undo : {C : Type 0} → ℕ → C → List C → List C
unfolding remove_oldest
push_undo limit c cs = if ltb limit (length (c ∷ cs)) then remove_oldest (c ∷ cs) else c ∷ cs

abbrev pub can_undo : {C : Type 0} → UndoStack C → Bool
can_undo s = elim s.undo [ [] ↦ false | c ∷ cs ↦ true ]

abbrev pub can_redo : {C : Type 0} → UndoStack C → Bool
can_redo s = elim s.redo [ [] ↦ false | c ∷ cs ↦ true ]

abbrev pub clear : {C : Type 0} → UndoStack C → UndoStack C
clear s = record s { undo = []; redo = [] }

abbrev pub undo_depth : {C : Type 0} → UndoStack C → ℕ
undo_depth s = length s.undo

abbrev pub redo_depth : {C : Type 0} → UndoStack C → ℕ
redo_depth s = length s.redo

module _ {D C : Type 0} (doc : Document D) (cmd : Command D C) where
  -- the end of `apply`, once the command has succeeded
  record_inverse : ℕ → UndoStack C → C → D → UndoStack C
  record_inverse revision_before s inverse d' =
      if doc.revision d' == revision_before
      then s
      else record s { undo = push_undo s.limit inverse s.undo; redo = [] }

  unfoldable pub apply : UndoStack C → D → C → Outcome (UndoStack C × D) (Unit {0})
  unfolding record_inverse
  apply s d command = elim (cmd.apply command d) [
    | failed e d' ↦ failed e (s, d')
    | done inverse d' ↦ done tt (record_inverse (doc.revision d) s inverse d', d')
  ]

  undo_command : C → List C → UndoStack C → D → Outcome (UndoStack C × D) Bool
  undo_command command rest s d = elim (cmd.apply command d) [
    | done inverse d' ↦ done true (record s { undo = rest; redo = inverse ∷ s.redo }, d')
    | failed e d' ↦ failed e (record s { undo = command ∷ rest }, d')
  ]

  unfoldable pub undo : UndoStack C → D → Outcome (UndoStack C × D) Bool
  unfolding undo_command
  undo s d = elim s.undo [ [] ↦ done false (s, d) | c ∷ cs ↦ undo_command c cs s d ]

  redo_command : C → List C → UndoStack C → D → Outcome (UndoStack C × D) Bool
  redo_command command rest s d = elim (cmd.apply command d) [
    | done inverse d' ↦ done true (record s { undo = inverse ∷ s.undo; redo = rest }, d')
    | failed e d' ↦ failed e (record s { redo = command ∷ rest }, d')
  ]

  unfoldable pub redo : UndoStack C → D → Outcome (UndoStack C × D) Bool
  unfolding redo_command
  redo s d = elim s.redo [ [] ↦ done false (s, d) | c ∷ cs ↦ redo_command c cs s d ]
