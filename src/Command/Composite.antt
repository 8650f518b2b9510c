-- ===== src/Command/Composite.antt =====
-- The commands built from others: `Sequence` with its rollback, `BoundInverse`, `ImportPages` and
-- `Merge` (opdf-ops/src/sequence.rs, binding.rs, import_pages.rs, merge.rs), over any type `C` of
-- commands. A vector that the source pushes to and reads backwards is a list here with the last
-- pushed element as its head, so the source's `reverse` and `rev` of it are the list itself.
use open_pdf_editor.Base.{ℕ, zero, suc, ◌+◌, List, [], ◌∷◌, map, length, ◌==◌, if◌then◌else◌}
use open_pdf_editor.Error.{Error, unsupported, rollback_failed, Outcome, done, failed}
use open_pdf_editor.Page.{PageId, Rotation, degrees}
use open_pdf_editor.Document.{DocumentId, Document}
use open_pdf_editor.Command.{
  Label, PageCommand, remove_page, set_rotation, Command, page_command, ◌>>=◌,
}

pub data Composite (D C : Type 0) : Type 0 where
  basic : PageCommand → Composite D C
  import_pages : D → List PageId → ℕ → Composite D C
  merge : List D → Composite D C
  sequence : Label → List C → Composite D C
  bound_inverse : DocumentId → C → Composite D C

module _ {D C : Type 0} (doc : Document D) (cmd : Command D C) where
  -- `roll_back`: the inverses come most recently applied first
  unfoldable pub roll_back : List C → Error → D → Outcome D (List C)
  roll_back [] original d = failed original d
  roll_back (rollback ∷ rest) original d = elim (cmd.apply rollback d) [
    | done _ d' ↦ roll_back rest original d'
    | failed _ d' ↦ failed (rollback_failed original unsupported) d'
  ]

  -- the loop of `Sequence::apply`; `applied` holds the inverses so far, the last pushed first
  unfoldable pub apply_all : List C → List C → D → Outcome D (List C)
  apply_all [] applied d = done applied d
  apply_all (c ∷ cs) applied d = elim (cmd.apply c d) [
    | done inverse d' ↦ apply_all cs (inverse ∷ applied) d'
    | failed e d' ↦ roll_back applied e d'
  ]

  apply_sequence : Label → List C → D → Outcome D (Composite D C)
  apply_sequence label commands d =
      apply_all commands [] d >>= λ applied d'. done (sequence (Label.undo_of label) applied) d'

  -- `DocumentBinding::matches` is the test
  apply_bound_inverse : DocumentId → C → D → Outcome D (Composite D C)
  apply_bound_inverse binding inverse d =
      if binding == doc.id d
      then (cmd.apply inverse d >>= λ redo d'. done (bound_inverse binding redo) d')
      else failed unsupported d

  unfoldable pub removals : List PageId → List C
  removals = map (λ id. cmd.boxed (remove_page id))

  apply_import_pages : D → List PageId → ℕ → D → Outcome D (Composite D C)
  unfolding removals
  apply_import_pages source ids at_index d =
      doc.import_pages source ids at_index d >>= λ new_ids d'.
      done (sequence Label.undo_import (removals new_ids)) d'

  -- `push` of a removal for each new page
  unfoldable pub push_removals : List PageId → List C → List C
  push_removals [] applied = applied
  push_removals (id ∷ ids) applied = push_removals ids (cmd.boxed (remove_page id) ∷ applied)

  -- the loop of `Merge::apply`
  unfoldable pub merge_all : List D → List C → D → Outcome D (List C)
  unfolding push_removals
  merge_all [] applied d = done applied d
  merge_all (source ∷ sources) applied d =
      elim (doc.import_pages source (doc.page_ids source) (doc.page_count d) d) [
        | done new_ids d' ↦ merge_all sources (push_removals new_ids applied) d'
        | failed e d' ↦ roll_back applied e d'
      ]

  apply_merge : List D → D → Outcome D (Composite D C)
  apply_merge sources d = merge_all sources [] d >>= λ applied d'.
      done (sequence (Label.undo_merge (length sources)) applied) d'

  unfoldable pub apply_composite : Composite D C → D → Outcome D (Composite D C)
  unfolding apply_sequence apply_bound_inverse apply_import_pages apply_merge page_command
  apply_composite (basic c) d = (page_command doc).apply c d >>= λ i d'. done (basic i) d'
  apply_composite (import_pages source ids at_index) d = apply_import_pages source ids at_index d
  apply_composite (merge sources) d = apply_merge sources d
  apply_composite (sequence label commands) d = apply_sequence label commands d
  apply_composite (bound_inverse binding inverse) d = apply_bound_inverse binding inverse d

  unfoldable pub label_composite : Composite D C → Label
  unfolding page_command
  label_composite (basic c) = (page_command doc).label c
  label_composite (import_pages source ids at_index) = Label.import_at (length ids) (at_index + 1)
  label_composite (merge sources) = Label.merge_documents (length sources)
  label_composite (sequence label commands) = label
  label_composite (bound_inverse binding inverse) = cmd.label inverse

  unfoldable pub composite_command : Command D (Composite D C)
  unfolding apply_composite label_composite
  composite_command = record { apply = apply_composite; label = label_composite; boxed = basic }

-- `Box<dyn Command<D>>`, for commands whose composites nest at most `n` deep.
abbrev pub Boxed : Type 0 → ℕ → Type 0
Boxed D zero = PageCommand
Boxed D (suc n) = Composite D (Boxed D n)

unfoldable pub boxed_command : {D : Type 0} → Document D → (n : ℕ) → Command D (Boxed D n)
unfolding page_command composite_command
boxed_command doc zero = page_command doc
boxed_command doc (suc n) = composite_command doc (boxed_command doc n)

module _ {D C : Type 0} (cmd : Command D C) where
  delete_label : ℕ → Label
  delete_label count =
      if count == 0
      then Label.delete_none
      else if count == 1
      then Label.delete_one
      else Label.delete_many count

  unfoldable pub delete_selection : List PageId → Composite D C
  unfolding delete_label
  delete_selection ids =
      sequence (delete_label (length ids)) (map (λ page. cmd.boxed (remove_page page)) ids)

  rotate_label : ℕ → ℕ → Label
  rotate_label turn count =
      if count == 0
      then Label.rotate_none turn
      else if count == 1
      then Label.rotate_one turn
      else Label.rotate_many count turn

  unfoldable pub rotate_selection : List PageId → Rotation → Composite D C
  unfolding rotate_label
  rotate_selection ids rotation =
      sequence (rotate_label (degrees rotation) (length ids))
        (map (λ page. cmd.boxed (set_rotation page rotation)) ids)
