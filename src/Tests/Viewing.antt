-- ===== src/Tests/Viewing.antt =====
-- The viewer's cache with two tiles, one of them used in the current frame.
use open_pdf_editor.Base.{none, ◌==◌, if◌then◌else◌, ℕ, ◌^◌, ◌≡◌, refl, true, false, [], ◌∷◌, arith}
use open_pdf_editor.Page.{Rotation}
use open_pdf_editor.Render.{RenderRequest}
use open_pdf_editor.Render.RequestMap.{lookup, count_key, total, remove, erase}
use open_pdf_editor.FrameCache.{
  TileCache, new, insert, evict_to_budget, wants, mark_pending, note_failed, clear, retain_revision,
}
use open_pdf_editor.FrameCache.Eviction.{Valid, Evicted, evict_to_budget-Evicted}
use open_pdf_editor.FrameCache.Revisions.{retain_revision-Valid}
use open_pdf_editor.FrameCache.Accounting.{insert-Valid, wants_lem}

abbrev page_request : ℕ → RenderRequest
page_request page = record {
  document = 1;
  page = page;
  revision = 7;
  scale = 2 ^ 30;
  rotation = Rotation.none;
}

abbrev empty : TileCache ℕ
empty = new 600

empty-Valid : Valid empty
unfolding count_key total
empty-Valid = record { once = λ r. omega arith; counted = refl }

insert-Valid_example : Valid (insert (page_request 1) 10 400 empty)
insert-Valid_example = insert-Valid (page_request 1) 10 400 empty empty-Valid (omega arith)

abbrev one : TileCache ℕ
one = record {
  entries = (page_request 1, record { value = 10; bytes = 400; last_used = 1 }) ∷ [];
  pending = [];
  failed = [];
  budget_bytes = 600;
  used_bytes = 400;
  clock = 1;
}

one_lem : insert (page_request 1) 10 400 empty ≡ one
unfolding insert remove erase lookup
one_lem = refl

abbrev two : TileCache ℕ
two = insert (page_request 2) 20 300 one

two-Valid : Valid two
two-Valid =
    insert-Valid (page_request 2) 20 300 one
      (rw one_lem at (insert-Valid (page_request 1) 10 400 empty empty-Valid (omega arith)))
      (omega arith)

evict_to_budget-Evicted_example : Evicted 2 two (evict_to_budget 2 two).0
evict_to_budget-Evicted_example = evict_to_budget-Evicted 2 two two-Valid

wants_lem_example :
    ((mark_pending (page_request 3) two).0 ≡ wants (page_request 3) two)
    × (wants (page_request 3) (mark_pending (page_request 3) two).1 ≡ false)
    × (wants (page_request 3) (insert (page_request 3) 30 100 two) ≡ false)
    × (wants (page_request 3) (note_failed (page_request 3) two) ≡ false)
    × (wants (page_request 3) (clear two) ≡ true)
wants_lem_example = wants_lem (page_request 3) 30 100 two

one-Valid : Valid one
one-Valid = rw one_lem at (insert-Valid (page_request 1) 10 400 empty empty-Valid (omega arith))

retain_revision-Valid_example :
    Valid (retain_revision 8 one)
    × ((r : RenderRequest)
        → lookup r (retain_revision 8 one).entries
          ≡ (if r.revision == 8 then lookup r one.entries else none))
retain_revision-Valid_example = retain_revision-Valid 8 one one-Valid (omega arith)
