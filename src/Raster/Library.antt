-- ===== src/Raster/Library.antt =====
-- What the code calls of pdfium-render, as a parameter: `P` is an open page, and `none` an error.
use open_pdf_editor.Base.{ℕ, List, Option}

-- `PdfPageRenderRotation`
pub data PdfPageRenderRotation : Type 0 where
  none degrees90 degrees180 degrees270 : PdfPageRenderRotation

-- The calls of pdfium-render: a page's position as an index, the page there, the rotation stored in
-- the file, and the RGBA bytes of a rendering at a size and with a further rotation. A size is given
-- in `Pixels`, an `i32`: the code asks for none that it could not convert.
pub record Pdfium (P : Type 0) : Type 0 where
  pub page_index : ℕ → Option ℕ
  pub get : ℕ → Option P
  pub rotation : P → Option PdfPageRenderRotation
  pub render_with_config : P → ℕ → ℕ → PdfPageRenderRotation → Option (List ℕ)
