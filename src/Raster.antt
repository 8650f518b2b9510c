-- ===== src/Raster.antt =====
-- Rasterizing a page into a tile (opdf-render/src/raster.rs). The text of a reason is not
-- modelled: `none` is an error.
pub mod Library
pub mod Turning
use open_pdf_editor.Base.{
  ℕ, ◌*◌, ◌^◌, ◌≤◌, ◌≡◌, refl, List, length, Option, none, some, arith, ltb, ◌&&◌, if◌then◌else◌,
  true, false, ◌==◌, ◌||◌,
}
use open_pdf_editor.Base.Int.{difference}
use open_pdf_editor.Error.{Result, ok, err}
use open_pdf_editor.Page.{Rotation, quarter, half, three_quarter, degrees, from_degrees, rotated_by}
use open_pdf_editor.Render.{Tile, tile}
use open_pdf_editor.Geometry.{TileGeometry}
use open_pdf_editor.Raster.Library.{
  PdfPageRenderRotation, degrees90, degrees180, degrees270, Pdfium,
}

abbrev pub convert_rotation : Rotation → PdfPageRenderRotation
convert_rotation Rotation.none = PdfPageRenderRotation.none
convert_rotation quarter = degrees90
convert_rotation half = degrees180
convert_rotation three_quarter = degrees270

abbrev pub to_option : {A : Type 0} → Result A → Option A
to_option (ok a) = some a
to_option (err e) = none

unfoldable pub compute_residual_rotation : Rotation → Rotation → Option Rotation
unfolding from_degrees
compute_residual_rotation total file_rotation =
    to_option (from_degrees (difference (degrees total) (degrees file_rotation)))

-- `try_into` of an edge to pdfium's `Pixels`, an `i32`
abbrev pub in_pixels : ℕ → Option ℕ
in_pixels edge = if ltb edge (2 ^ 31) then some edge else none

unfoldable pub rasterize_page : {P : Type 0} → Pdfium P → P → TileGeometry → Rotation → Option Tile
unfolding compute_residual_rotation
rasterize_page pdfium page geometry file_rotation =
    elim (compute_residual_rotation geometry.total_rotation file_rotation) [
      | none ↦ none
      | some residual ↦ elim (in_pixels geometry.width_px) [
        | none ↦ none
        | some width ↦ elim (in_pixels geometry.height_px) [
          | none ↦ none
          | some height ↦
              elim (pdfium.render_with_config page width height (convert_rotation residual)) [
                | none ↦ none
                | some bytes ↦ to_option (tile geometry.width_px geometry.height_px bytes)
              ]
        ]
      ]
    ]
