-- ===== src/Transfer.antt =====
-- Moving pages between two documents (opdf-ops/src/extract.rs, opdf-ops/src/split.rs), over any
-- commands `C` for the removals.
pub mod Extracting
pub mod Splitting
use open_pdf_editor.Base.{ℕ, ◌-◌, List, [], ◌∷◌, map, length, take, drop, ltb, if◌then◌else◌}
use open_pdf_editor.Error.{Error, index_out_of_bounds, invalid_range, Result, Outcome, done, failed}
use open_pdf_editor.Page.{PageId}
use open_pdf_editor.Document.{Document}
use open_pdf_editor.Command.{Label, Command, ◌>>=◌}
use open_pdf_editor.Command.Composite.{
  Composite, sequence, bound_inverse, removals, apply_composite, composite_command,
}

module _ {D C : Type 0} (doc : Document D) (cmd : Command D C) where
  -- a `BoundInverse` around a `Sequence` of removals
  abbrev pub Bound : Type 0
  Bound = Composite D (Composite D C)

  unfoldable pub apply_bound : Bound → D → Outcome D Bound
  unfolding apply_composite composite_command
  apply_bound = apply_composite doc (composite_command doc cmd)

pub record Extraction (D C : Type 0) : Type 0 where
  pub page_ids : List PageId
  pub inverse : Composite D (Composite D C)

module _ {D C : Type 0} (doc : Document D) (cmd : Command D C) where
  -- `Extraction::undo`
  unfoldable pub undo : Extraction D C → D → Outcome D (Unit {0})
  unfolding apply_bound
  undo extraction target = apply_bound doc cmd extraction.inverse target >>= λ _ d. done tt d

  unfoldable pub into_target_command : Extraction D C → Composite D (Composite D C)
  into_target_command extraction = extraction.inverse

  -- the tail of `extract_range`, with the ids of the range
  extract_ids : D → List PageId → D → Outcome D (Extraction D C)
  unfolding removals
  extract_ids source ids target =
      doc.import_pages source ids (doc.page_count target) target >>= λ new_ids target'.
      done
        (record {
          page_ids = new_ids;
          inverse =
              bound_inverse (doc.id target')
                (sequence Label.undo_extraction (removals doc cmd new_ids));
        })
        target'

  unfoldable pub extract_range : D → ℕ → ℕ → D → Outcome D (Extraction D C)
  unfolding extract_ids
  extract_range source start end target =
      let page_ids = doc.page_ids source in
      if ltb (length page_ids) end
      then failed (index_out_of_bounds end (length page_ids)) target
      else if ltb end start
      then failed (invalid_range start end) target
      else extract_ids source (take (end - start) (drop start page_ids)) target

  -- the removal from `document`, once `target` holds the tail
  unfoldable pub split_off : List PageId → D → D → Outcome (D × D) (Composite D (Composite D C))
  unfolding apply_composite removals
  split_off tail_ids document target =
      elim (apply_composite doc cmd (sequence Label.split_off_tail (removals doc cmd tail_ids))
        document) [
          | failed e document' ↦ failed e (document', target)
          | done inverse document' ↦
              done (bound_inverse (doc.id document') inverse) (document', target)
        ]

  unfoldable pub split_at : ℕ → D → D → Outcome (D × D) (Composite D (Composite D C))
  unfolding split_off
  split_at boundary document target =
      let page_ids = doc.page_ids document in
      if ltb (length page_ids) boundary
      then failed (index_out_of_bounds boundary (length page_ids)) (document, target)
      else elim (doc.import_pages document (drop boundary page_ids) (doc.page_count target)
          target) [
            | failed e target' ↦ failed e (document, target')
            | done _ target' ↦ split_off (drop boundary page_ids) document target'
          ]
