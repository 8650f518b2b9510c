-- ===== src/Worker.antt =====
-- The render worker (opdf-render/src/worker.rs). The request channel is the list of the messages in
-- it, in order; the response channel is the list of the responses sent. Pdfium is a parameter, and
-- the text of a reason is not modelled. The locking is not modelled: it orders the calls into
-- pdfium, which are a function here, among several workers.
pub mod Loop
pub mod Answers
pub mod Revisions
use open_pdf_editor.Base.{
  ℕ, suc, ◌+◌, ◌≡◌, Bool, true, false, ◌&&◌, ◌||◌, not, List, [], ◌∷◌, ◌++◌, Option, none, some,
  ◌==◌, if◌then◌else◌, length, ◌%◌, ◌^◌,
}
use open_pdf_editor.Page.{PageId, PageInfo, Rotation, quarter, half, three_quarter}
use open_pdf_editor.Document.{DocumentSnapshot}
use open_pdf_editor.Render.{RenderRequest, RenderResponse, ready, failed, Tile}
use open_pdf_editor.RenderCache.{
  TileCache, with_budget, default_cache_bytes, get, insert, retain_revision,
}
use open_pdf_editor.RenderCache.Backlog.{Backlog, with_capacity, max_backlog, push, take_newest}
use open_pdf_editor.Geometry.{TileGeometry, compute_tile_geometry}
use open_pdf_editor.Raster.{rasterize_page}
use open_pdf_editor.Raster.Library.{
  PdfPageRenderRotation, degrees90, degrees180, degrees270, Pdfium,
}

pub data WorkerMessage : Type 0 where
  render : RenderRequest → WorkerMessage
  rebind : DocumentSnapshot → WorkerMessage
  shutdown : WorkerMessage

-- `collect` into a `HashMap`: of two pages with one identity the later position stands
unfoldable pub index_pages : ℕ → List PageInfo → PageId → Option ℕ
index_pages position [] id = none
index_pages position (page ∷ pages) id = elim (index_pages (position + 1) pages id) [
  | some later ↦ some later
  | none ↦ if page.id == id then some position else none
]

unfoldable pub map_file_indices : DocumentSnapshot → PageId → Option ℕ
unfolding index_pages
map_file_indices snapshot = index_pages 0 snapshot.pages

unfoldable pub find_id : PageId → List PageInfo → Option PageInfo
find_id id [] = none
find_id id (page ∷ pages) = if page.id == id then some page else find_id id pages

unfoldable pub find_page : DocumentSnapshot → RenderRequest → Option PageInfo
unfolding find_id
find_page snapshot r = find_id r.page snapshot.pages

abbrev pub convert_file_rotation : PdfPageRenderRotation → Rotation
convert_file_rotation PdfPageRenderRotation.none = Rotation.none
convert_file_rotation degrees90 = quarter
convert_file_rotation degrees180 = half
convert_file_rotation degrees270 = three_quarter

module _ {P : Type 0} (pdfium : Pdfium P) (file_indices : PageId → Option ℕ) where
  -- `answer_request` from pdfium's page on
  unfoldable pub rasterize_at : ℕ → TileGeometry → Option Tile
  unfolding rasterize_page
  rasterize_at position geometry = elim (pdfium.page_index position) [
    | none ↦ none
    | some index ↦ elim (pdfium.get index) [
      | none ↦ none
      | some page ↦ elim (pdfium.rotation page) [
        | none ↦ none
        | some file_rotation ↦
            rasterize_page pdfium page geometry (convert_file_rotation file_rotation)
      ]
    ]
  ]

  -- the tile of a request, or an error, for each of which the code has a reason
  unfoldable pub rasterize_request : DocumentSnapshot → RenderRequest → Option Tile
  unfolding rasterize_at find_page compute_tile_geometry
  rasterize_request snapshot r = elim (find_page snapshot r) [
    | none ↦ none
    | some page_info ↦ elim (compute_tile_geometry page_info r) [
      | none ↦ none
      | some geometry ↦ elim (file_indices r.page) [
        | none ↦ none
        | some position ↦ rasterize_at position geometry
      ]
    ]
  ]

  abbrev pub response_of : RenderRequest → Option Tile → RenderResponse
  response_of r none = failed r
  response_of r (some t) = ready r t

  unfoldable pub answer_request : DocumentSnapshot → RenderRequest → RenderResponse
  unfolding rasterize_request
  answer_request snapshot r = response_of r (rasterize_request snapshot r)
