-- ===== src/Raster/Turning.antt =====
-- What rasterizing a page gives: the rotation that pdfium is asked for, and the tile.
use mathlib.Core.Option
