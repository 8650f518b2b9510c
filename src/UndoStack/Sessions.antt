-- ===== src/UndoStack/Sessions.antt =====
-- The sessions of an editor over the reference document: any mix of applied, undone and redone
-- steps, and what holds after each.
use open_pdf_editor.Base.{ℕ, zero, suc, ◌+◌, ◌≤◌, ◌≡◌, Bool, All, length}
use open_pdf_editor.Error.{Error, done, failed}
use open_pdf_editor.Command.{Command}
use open_pdf_editor.VecDocument.{VecDocument, vec_document}
use open_pdf_editor.VecDocument.Valid.{Valid}
use open_pdf_editor.UndoStack.{UndoStack, with_limit, apply, undo, redo}
use open_pdf_editor.Undo.Runs.{Runs, TakesBack}

module _ {C : Type 0} (cmd : Command VecDocument C) where
  -- A success that leaves the revision alone has changed nothing: the promise that `apply` reads
  -- `Document::revision` by. (The counter wraps, so 2^64 mutations in one command would break it.)
  abbrev pub Advances : C → VecDocument → Type 0
  Advances c d =
      (i : C) (d' : VecDocument) → cmd.apply c d ≡ done i d' → d'.revision ≡ d.revision → d' ≡ d

  -- `Session n s d`: from `base` and an empty stack, with `n` calls of `apply`.
  pub data Session (limit : ℕ) (base : VecDocument) : ℕ → UndoStack C → VecDocument → Type 0 where
    start : Session limit base zero (with_limit limit) base
    applied :
        {n : ℕ} {s s' : UndoStack C} {d d' : VecDocument}
        → Session limit base n s d
        → (c : C) → Advances c d
        → apply vec_document cmd s d c ≡ done tt (s', d')
        → Session limit base (suc n) s' d'
    refused :
        {n : ℕ} {s s' : UndoStack C} {d d' : VecDocument} {e : Error}
        → Session limit base n s d
        → (c : C) → apply vec_document cmd s d c ≡ failed e (s', d')
        → Session limit base (suc n) s' d'
    undone :
        {n : ℕ} {s s' : UndoStack C} {d d' : VecDocument} {b : Bool}
        → Session limit base n s d
        → undo vec_document cmd s d ≡ done b (s', d')
        → Session limit base n s' d'
    redone :
        {n : ℕ} {s s' : UndoStack C} {d d' : VecDocument} {b : Bool}
        → Session limit base n s d
        → redo vec_document cmd s d ≡ done b (s', d')
        → Session limit base n s' d'

  -- Both stacks can be run to their ends, and within the limit the undo stack leads to `base`.
  pub record Ready (Replays : C → Type 0) (limit : ℕ) (base : VecDocument) (n : ℕ) (s : UndoStack C)
      (d : VecDocument) : Type 0 where
    pub valid : Valid d
    pub undo_Replays : All Replays s.undo
    pub redo_Replays : All Replays s.redo
    pub undo_Runs : (e : VecDocument) × Runs cmd s.undo d e
    pub redo_Runs : (e : VecDocument) × Runs cmd s.redo d e
    pub complete : n ≤ limit → TakesBack cmd s.undo d base
    pub counted : length s.undo + length s.redo ≤ n
    pub capped : length s.undo + length s.redo ≤ limit
    pub same_limit : s.limit ≡ limit
