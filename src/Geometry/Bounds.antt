-- ===== src/Geometry/Bounds.antt =====
-- What the pixels of a tile are bounded by, and that an edge is the nearest whole number of pixels.
use open_pdf_editor.Base.{
  ℕ, ◌+◌, ◌*◌, ◌/◌, ◌^◌, ◌≤◌, ◌<◌, ◌≡◌, refl, subst, max, true, some, arith, ◌⊎◌, inl, inr,
  Bool-cases, Option-cases,
}
use open_pdf_editor.Page.{rotated_by, PageInfo, PageSize, display_size}
use open_pdf_editor.Render.{RenderRequest}
use open_pdf_editor.Geometry.{
  TileGeometry, max_tile_edge, max_tile_pixels, magnitude, product_is_negative, rounded, scale_edge,
  compute_tile_geometry,
}

-- `n` pixels for a product of `a` and `b`: one, where the product is negative or less than half a
-- pixel, and otherwise the nearest whole number, the larger one of two that are as near.
abbrev pub IsNearest : ℕ → ℕ → ℕ → Type 0
IsNearest a b n =
    ((n ≡ 1) × ((product_is_negative a b ≡ true) ⊎ (2 * magnitude a b < 2 ^ 300)))
    ⊎ ((n * 2 ^ 301 ≤ 2 * magnitude a b + 2 ^ 300) × (2 * magnitude a b < n * 2 ^ 301 + 2 ^ 300))

abbrev pub InTile : ℕ → Type 0
InTile n = (1 ≤ n) × (n ≤ max_tile_edge)

nearest_or_one :
    (v n : ℕ)
    → n ≡ max ((2 * v + 2 ^ 300) / 2 ^ 301) 1
    → (1 ≤ n)
      × (((n ≡ 1) × (2 * v < 2 ^ 300))
          ⊎ ((n * 2 ^ 301 ≤ 2 * v + 2 ^ 300) × (2 * v < n * 2 ^ 301 + 2 ^ 300)))
nearest_or_one v n h = ground arith

rounded-IsNearest : (a b : ℕ) → (1 ≤ rounded a b) × IsNearest a b (rounded a b)
unfolding rounded
rounded-IsNearest a b = elim (Bool-cases (product_is_negative a b)) [
  | inl e ↦ rw e (omega arith, inl (refl, inl refl))
  | inr e ↦
      let (least, near) = nearest_or_one (magnitude a b) _ refl in
      rw e (least, elim near [ inl (one, low) ↦ inl (one, inr low) | inr close ↦ inr close ])
]

scale_edge-ok : (a b : ℕ) {n : ℕ} → scale_edge a b ≡ some n → InTile n × IsNearest a b n
unfolding scale_edge
scale_edge-ok a b {n} h =
    let (least, near) = rounded-IsNearest a b in
    let e : rounded a b ≡ n = ground (arith, h) in
    let most : rounded a b ≤ max_tile_edge = ground (arith, h) in
    subst (λ m. InTile m × IsNearest a b m) e ((least, most), near)

-- A page as it is shown for a request: turned by its own rotation and by the request's.
abbrev pub shown : PageInfo → RenderRequest → PageSize
shown page r = display_size (record page { rotation = rotated_by page.rotation r.rotation })

abbrev pub IsGeometry : PageInfo → RenderRequest → TileGeometry → Type 0
IsGeometry page r g =
    InTile g.width_px
    × InTile g.height_px
    × (g.width_px * g.height_px ≤ max_tile_pixels)
    × (g.total_rotation ≡ rotated_by page.rotation r.rotation)
    × IsNearest (shown page r).width_pt r.scale g.width_px
    × IsNearest (shown page r).height_pt r.scale g.height_px

-- Each edge of a tile's geometry is between one pixel and the largest edge, and is the nearest whole
-- number of pixels to the shown page's edge times the scale; the pixels are within their limit, and
-- the rotation is the page's and the request's together.
pub compute_tile_geometry-ok :
    (page : PageInfo) (r : RenderRequest) {g : TileGeometry}
    → compute_tile_geometry page r ≡ some g
    → IsGeometry page r g
unfolding compute_tile_geometry
compute_tile_geometry-ok page r {g} h =
    elim (Option-cases (scale_edge (shown page r).width_pt r.scale)) [
      | inl e ↦ absurd (ground arith)
      | inr (w, e) ↦ elim (Option-cases (scale_edge (shown page r).height_pt r.scale)) [
        | inl f ↦ absurd (ground arith)
        | inr (v, f) ↦
            let (ws, wn) = scale_edge-ok (shown page r).width_pt r.scale e in
            let (vs, vn) = scale_edge-ok (shown page r).height_pt r.scale f in
            let few : w * v ≤ max_tile_pixels = ground arith in
            let same : record {
              width_px = w;
              height_px = v;
              total_rotation = rotated_by page.rotation r.rotation;
            }
                ≡ g =
              ground arith in
            subst (IsGeometry page r) same (ws, vs, few, refl, wn, vn)
      ]
    ]
