-- ===== src/PageMap/View.antt =====
-- What a page map shows of a document: the pages without the objects behind them.
use open_pdf_editor.Base.{
  ℕ, zero, suc, ◌≡◌, refl, ap, List, [], ◌∷◌, map, some, get_elem?, insert_idx, erase_idx, ◌==◌,
  if◌then◌else◌,
}
use mathlib.Core.Option
use open_pdf_editor.Error.{Outcome, done, failed}
use open_pdf_editor.Page.{PageId, PageInfo}
use open_pdf_editor.Document.{DocumentId}
use open_pdf_editor.VecDocument.{VecDocument, position, advance_revision}
use open_pdf_editor.PageMap.{PageSlot, PageMap, slot_position}

module _ {A B : Type 0} (f : A → B) where
  pub get_elem?-map : (xs : List A) (i : ℕ) → get_elem? (map f xs) i ≡ Option.map f (get_elem? xs i)
  get_elem?-map [] i = refl
  get_elem?-map (x ∷ xs) zero = refl
  get_elem?-map (x ∷ xs) (suc i) = get_elem?-map xs i

  pub erase_idx-map : (xs : List A) (i : ℕ) → erase_idx (map f xs) i ≡ map f (erase_idx xs i)
  erase_idx-map [] i = refl
  erase_idx-map (x ∷ xs) zero = refl
  erase_idx-map (x ∷ xs) (suc i) = ap (f x ∷◌) (erase_idx-map xs i)

  pub insert_idx-map :
      (xs : List A) (i : ℕ) (y : A) → insert_idx (map f xs) i (f y) ≡ map f (insert_idx xs i y)
  insert_idx-map xs zero y = refl
  insert_idx-map [] (suc i) y = refl
  insert_idx-map (x ∷ xs) (suc i) y = ap (f x ∷◌) (insert_idx-map xs i y)

abbrev pub info : PageSlot → PageInfo
info s = record { id = s.id; size = s.size; rotation = s.rotation }

-- The reference document with the pages of the map.
abbrev pub view : DocumentId → ℕ → PageMap → VecDocument
view document revision m = record {
  id = document;
  pages = map info m.slots;
  removed = map info m.removed;
  allocator = m.allocator;
  revision = revision;
}

-- The view of an outcome: a success advances the revision.
abbrev pub view_outcome : {A : Type 0} → DocumentId → ℕ → Outcome PageMap A → Outcome VecDocument A
view_outcome document revision (done a m) = done a (view document (advance_revision revision) m)
view_outcome document revision (failed e m) = failed e (view document revision m)

pub position-map :
    (id : PageId) (ss : List PageSlot) → position id (map info ss) ≡ slot_position id ss
unfolding position slot_position
position-map id [] = refl
position-map id (s ∷ ss) =
    ap (λ o. if s.id == id then some 0 else Option.map suc o) (position-map id ss)
