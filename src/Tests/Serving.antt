-- ===== src/Tests/Serving.antt =====
-- The worker over a library that renders every page blank.
use mathlib.Core.Option
use open_pdf_editor.Base.{
  ℕ, zero, suc, ◌+◌, ◌*◌, ◌^◌, ◌≡◌, refl, true, some, Option, List, [], ◌∷◌, All, length, arith, ap,
}
use open_pdf_editor.Page.{PageId, PageInfo, PageSize, Rotation}
use open_pdf_editor.Document.{DocumentSnapshot}
use open_pdf_editor.Render.{RenderRequest}
use open_pdf_editor.Render.RequestMap.{count, member}
use open_pdf_editor.Geometry.{TileGeometry, compute_tile_geometry}
use open_pdf_editor.Geometry.Bounds.{IsGeometry, compute_tile_geometry-ok}
use open_pdf_editor.Raster.Library.{PdfPageRenderRotation, Pdfium}
use open_pdf_editor.Worker.{WorkerMessage, render, rebind, map_file_indices}
use open_pdf_editor.Worker.Loop.{
  accept_message, supersede, Turn, initial, serve_requests, take_turn,
}
use open_pdf_editor.RenderCache.{retain_revision}
use open_pdf_editor.RenderCache.Backlog.{push}
use open_pdf_editor.Worker.Answers.{answers_to, queues_turns, serve_requests-answers}
use open_pdf_editor.Worker.Revisions.{AllFollow, IsFor, started, take_turn-IsFor}

abbrev blank : ℕ → List ℕ
blank zero = []
blank (suc n) = 255 ∷ blank n

length-blank : (n : ℕ) → length (blank n) ≡ n
length-blank zero = refl
length-blank (suc n) = ap suc (length-blank n)

-- an open page is its index
abbrev library : Pdfium ℕ
library = record {
  page_index = λ position. some position;
  get = λ index. some index;
  rotation = λ page. some PdfPageRenderRotation.none;
  render_with_config = λ page width height rotation. some (blank (width * height * 4));
}

renders :
    (width height : ℕ) (rotation : PdfPageRenderRotation)
    → (bytes : List ℕ) × (library.render_with_config 0 width height rotation ≡ some bytes)
      × (length bytes ≡ width * height * 4)
renders width height rotation =
    (blank (width * height * 4), refl, length-blank (width * height * 4))

-- one point by two, as `f32` patterns, at the scale 1.0
abbrev small : PageSize
small = record { width_pt = 127 * 2 ^ 23; height_pt = 128 * 2 ^ 23 }

abbrev page_info : PageInfo
page_info = record { id = 5; size = small; rotation = Rotation.quarter }

abbrev at_revision : ℕ → RenderRequest
at_revision revision = record {
  document = 1;
  page = 5;
  revision = revision;
  scale = 127 * 2 ^ 23;
  rotation = Rotation.none;
}

abbrev geometry : TileGeometry
geometry = record { width_px = 2; height_px = 1; total_rotation = Rotation.quarter }

geometry_lem : compute_tile_geometry page_info (at_revision 7) ≡ some geometry
unfolding compute_tile_geometry
geometry_lem = refl

compute_tile_geometry-ok_example : IsGeometry page_info (at_revision 7) geometry
compute_tile_geometry-ok_example = compute_tile_geometry-ok page_info (at_revision 7) geometry_lem

abbrev snapshot_at : ℕ → DocumentSnapshot
snapshot_at revision = record { document = 1; pages = page_info ∷ []; revision = revision }

abbrev arriving : List WorkerMessage → Turn
arriving messages = record { arrived = messages; is_received = true }

-- a request, answered in its turn; then two more, a rebind and a request at the new revision
abbrev first_turn : Turn
first_turn = arriving (render (at_revision 7) ∷ [])

abbrev second_turn : Turn
second_turn = arriving (
    render (at_revision 7)
    ∷ render (at_revision 7)
    ∷ rebind (snapshot_at 8)
    ∷ render (at_revision 8)
    ∷ [])

abbrev indices : PageId → Option ℕ
indices = map_file_indices (snapshot_at 7)

serve_requests-answers_example :
    count (at_revision 7) (initial (snapshot_at 7)).backlog.queued
      + count
          (at_revision 7)
          (queues_turns library indices (first_turn ∷ second_turn ∷ []) (initial (snapshot_at 7)))
    ≡ answers_to
        (at_revision 7)
        (serve_requests library indices (first_turn ∷ second_turn ∷ []) (initial (snapshot_at 7))).0
      + count
          (at_revision 7)
          (serve_requests library indices
            (first_turn ∷ second_turn ∷ [])
            (initial (snapshot_at 7))).1.backlog.queued
serve_requests-answers_example =
    serve_requests-answers library indices (at_revision 7) (first_turn ∷ second_turn ∷ [])
      (initial (snapshot_at 7))

second_turn-follows : AllFollow library indices second_turn.arrived (initial (snapshot_at 7))
unfolding accept_message push supersede member retain_revision
second_turn-follows = (refl, (refl, (λ h. omega (arith, h), (refl, tt))))

take_turn-IsFor_example :
    All
      (IsFor library indices
        (take_turn library indices second_turn (initial (snapshot_at 7))).1.snapshot)
      (take_turn library indices second_turn (initial (snapshot_at 7))).0
take_turn-IsFor_example =
    take_turn-IsFor library indices second_turn (initial (snapshot_at 7)) started
      second_turn-follows
