-- ===== src/Command.antt =====
-- Commands (opdf-core/src/command.rs and the files of opdf-ops/src): the trait `Command<D>` as a
-- record of operations over the type of the commands, and the commands on one page. What Rust boxes
-- as `dyn Command<D>` is `Boxed D n` of Command/Composite.antt.
pub mod Composite
use open_pdf_editor.Base.{ℕ, ◌+◌, Bool, true, false}
use open_pdf_editor.Error.{Error, Result, ok, err, Outcome, done, failed}
use open_pdf_editor.Page.{PageId, PageInfo, PageSize, Rotation, degrees}
use open_pdf_editor.Document.{DocumentId, Document}

-- What a label says, with the numbers that its text shows.
pub data Label : Type 0 where
  rotate : PageId → ℕ → Label
  move_to restore_at import_at : ℕ → ℕ → Label
  remove : PageId → Label
  delete_none delete_one undo_import undo_extraction split_off_tail : Label
  insert_blank delete_many rotate_none rotate_one merge_documents undo_merge : ℕ → Label
  rotate_many : ℕ → ℕ → Label
  undo_of : Label → Label

pub data PageCommand : Type 0 where
  set_rotation : PageId → Rotation → PageCommand
  move_page : PageId → ℕ → PageCommand
  remove_page : PageId → PageCommand
  restore_page : PageId → ℕ → PageCommand
  insert_blank_page : ℕ → PageSize → PageCommand

pub record Command (D : Type 0) (C : Type 0) : Type 0 where
  pub apply : C → D → Outcome D C
  pub label : C → Label
  -- `Box::new` of a command on one page
  pub boxed : PageCommand → C

-- `?` after a call with `&mut document`
infixl 5 ◌>>=◌
abbrev pub ◌>>=◌ {ℓ κ μ} :
    {D : Type ℓ} {A : Type κ} {B : Type μ} → Outcome D A → (A → D → Outcome D B) → Outcome D B
done a d >>= f = f a d
failed e d >>= f = failed e d

-- `?` after a call with `&document`
abbrev pub read {ℓ κ μ} :
    {D : Type ℓ} {A : Type κ} {B : Type μ} → D → Result A → (A → Outcome D B) → Outcome D B
read d (ok a) f = f a
read d (err e) f = failed e d

module _ {D : Type 0} (doc : Document D) where
  apply_set_rotation : PageId → Rotation → D → Outcome D PageCommand
  apply_set_rotation page rotation d =
      read d (doc.page d page) λ info.
        doc.set_rotation page rotation d >>= λ _ d'. done (set_rotation page info.rotation) d'

  apply_move_page : PageId → ℕ → D → Outcome D PageCommand
  apply_move_page page to_index d =
      read d (doc.index_of d page)
        λ from_index. doc.move_page page to_index d >>= λ _ d'. done (move_page page from_index) d'

  apply_remove_page : PageId → D → Outcome D PageCommand
  apply_remove_page page d =
      read d (doc.index_of d page)
        λ index. doc.remove_page page d >>= λ _ d'. done (restore_page page index) d'

  apply_restore_page : PageId → ℕ → D → Outcome D PageCommand
  apply_restore_page id at_index d =
      doc.restore_page id at_index d >>= λ _ d'. done (remove_page id) d'

  apply_insert_blank_page : ℕ → PageSize → D → Outcome D PageCommand
  apply_insert_blank_page at_index size d =
      doc.insert_page at_index size d >>= λ id d'. done (remove_page id) d'

  unfoldable pub apply_page_command : PageCommand → D → Outcome D PageCommand
  unfolding apply_set_rotation apply_move_page apply_remove_page apply_restore_page
      apply_insert_blank_page
  apply_page_command (set_rotation page rotation) d = apply_set_rotation page rotation d
  apply_page_command (move_page page to_index) d = apply_move_page page to_index d
  apply_page_command (remove_page page) d = apply_remove_page page d
  apply_page_command (restore_page id at_index) d = apply_restore_page id at_index d
  apply_page_command (insert_blank_page at_index size) d = apply_insert_blank_page at_index size d

-- The labels show positions from 1.
label_page_command : PageCommand → Label
label_page_command (set_rotation page rotation) = Label.rotate page (degrees rotation)
label_page_command (move_page page to_index) = Label.move_to page (to_index + 1)
label_page_command (remove_page page) = Label.remove page
label_page_command (restore_page id at_index) = Label.restore_at id (at_index + 1)
label_page_command (insert_blank_page at_index size) = Label.insert_blank (at_index + 1)

unfoldable pub page_command : {D : Type 0} → Document D → Command D PageCommand
unfolding apply_page_command label_page_command
page_command doc = record {
  apply = apply_page_command doc;
  label = label_page_command;
  boxed = λ c. c;
}
