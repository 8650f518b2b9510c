-- ===== src/Geometry.antt =====
-- The pixels of a tile (opdf-render/src/geometry.rs). The text of a reason is not modelled: `none`
-- is an error. An `f32` is its IEEE-754 pattern. The product of two of them has at most 48
-- significant bits, so the `f64` that the code computes is the product itself: of two finite
-- numbers it is, sign aside, `significand a * significand b * 2 ^ (power a + power b) / 2 ^ 300`.
pub mod Bounds
use open_pdf_editor.Base.{
  ℕ, ◌+◌, ◌*◌, ◌/◌, ◌%◌, ◌^◌, max, Bool, true, false, ◌&&◌, ◌||◌, not, Option, none, some, ltb, leb,
  ◌==◌, if◌then◌else◌,
}
use open_pdf_editor.Page.{Rotation, rotated_by, PageInfo, display_size}
use open_pdf_editor.Render.{RenderRequest, is_finite}

pub record TileGeometry : Type 0 where
  pub width_px : ℕ
  pub height_px : ℕ
  pub total_rotation : Rotation

abbrev pub max_tile_edge : ℕ
max_tile_edge = 32768

abbrev pub max_tile_pixels : ℕ
max_tile_pixels = 64 * 1024 * 1024

-- the biased exponent of an `f32`
abbrev pub exponent : ℕ → ℕ
exponent bits = (bits / 2 ^ 23) % 2 ^ 8

abbrev pub is_negative : ℕ → Bool
is_negative bits = leb (2 ^ 31) bits

-- with the bit that a normal number leaves out
unfoldable pub significand : ℕ → ℕ
significand bits = if exponent bits == 0 then bits % 2 ^ 23 else bits % 2 ^ 23 + 2 ^ 23

-- the power of two of the significand's last bit, 150 more than it is
unfoldable pub power : ℕ → ℕ
power bits = max (exponent bits) 1

-- 2 ^ 300 times the size of the product
unfoldable pub magnitude : ℕ → ℕ → ℕ
unfolding significand power
magnitude a b = significand a * significand b * 2 ^ (power a + power b)

-- whether the product's sign bit is set
unfoldable pub product_is_negative : ℕ → ℕ → Bool
product_is_negative a b = if is_negative a then not (is_negative b) else is_negative b

-- `round`, which takes a half away from zero, and `max(1.0)`: a negative product rounds to zero or
-- less
unfoldable pub rounded : ℕ → ℕ → ℕ
unfolding magnitude product_is_negative
rounded a b = if product_is_negative a b then 1 else max ((2 * magnitude a b + 2 ^ 300) / 2 ^ 301) 1

unfoldable pub scale_edge : ℕ → ℕ → Option ℕ
unfolding is_finite rounded
scale_edge size_pt scale =
    if not (is_finite size_pt && is_finite scale)
    then none
    else if ltb max_tile_edge (rounded size_pt scale)
    then none
    else some (rounded size_pt scale)

-- the end of `compute_tile_geometry`
abbrev pub within_pixels : ℕ → ℕ → Rotation → Option TileGeometry
within_pixels width height rotation =
    if ltb max_tile_pixels (width * height)
    then none
    else some (record { width_px = width; height_px = height; total_rotation = rotation })

unfoldable pub compute_tile_geometry : PageInfo → RenderRequest → Option TileGeometry
unfolding scale_edge display_size rotated_by
compute_tile_geometry page r =
    let total = rotated_by page.rotation r.rotation in
    let display = display_size (record page { rotation = total }) in
    elim (scale_edge display.width_pt r.scale) [
      | none ↦ none
      | some width ↦ elim (scale_edge display.height_pt r.scale) [
        | none ↦ none
        | some height ↦ within_pixels width height total
      ]
    ]
