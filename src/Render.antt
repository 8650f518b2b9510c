-- ===== src/Render.antt =====
-- The render contract (opdf-core/src/render.rs): requests, tiles and responses. An `f32` scale is its
-- 32-bit IEEE-754 pattern, from which the tests that the code makes are computed.
pub mod RequestMap
pub mod Tiles
use open_pdf_editor.Base.{
  ℕ, zero, suc, ◌+◌, ◌*◌, ◌/◌, ◌%◌, ◌^◌, ◌≡◌, ◌↔◌, Bool, true, false, ◌&&◌, ◌||◌, not, List, [],
  ◌∷◌, length, get_elem?, Option, none, some, arith, ltb, leb, ◌==◌, if◌then◌else◌,
}
use open_pdf_editor.Error.{Result, ok, err, ◌>>=◌, unsupported, render}
use open_pdf_editor.Page.{PageId, Rotation, degrees}
use open_pdf_editor.Document.{DocumentId}

-- `f32::is_finite`: the exponent is not all ones.
unfoldable pub is_finite : ℕ → Bool
is_finite bits = not ((bits / 2 ^ 23) % 2 ^ 8 == 255)

-- `scale <= 0.0` for a number that is not a NaN: the sign bit, or a zero.
unfoldable pub is_not_positive : ℕ → Bool
is_not_positive bits = leb (2 ^ 31) bits || bits == 0

pub record RenderRequest : Type 0 where
  pub document : DocumentId
  pub page : PageId
  pub revision : ℕ
  pub scale : ℕ
  pub rotation : Rotation

-- `RenderRequest::new`
unfoldable pub request : DocumentId → PageId → ℕ → ℕ → Result RenderRequest
unfolding is_finite is_not_positive
request document page revision scale =
    if not (is_finite scale) || is_not_positive scale
    then err unsupported
    else ok (record {
      document = document;
      page = page;
      revision = revision;
      scale = scale;
      rotation = Rotation.none;
    })

abbrev pub with_rotation : RenderRequest → Rotation → RenderRequest
with_rotation r rotation = record r { rotation = rotation }

abbrev rotation_eq : Rotation → Rotation → Bool
rotation_eq a b = degrees a == degrees b

-- `PartialEq`, with the scale by its bits
unfoldable pub request_eq : RenderRequest → RenderRequest → Bool
request_eq a b =
    a.document == b.document
    && (a.page == b.page
        && (a.revision == b.revision && (rotation_eq a.rotation b.rotation && a.scale == b.scale)))

degrees_inj : (a b : Rotation) → degrees a ≡ degrees b → a ≡ b
degrees_inj Rotation.none b h = ground arith
degrees_inj a b h = ground arith

-- The equality that keys the caches is equality of requests.
pub request_eq_iff : (a b : RenderRequest) → (request_eq a b ≡ true) ↔ (a ≡ b)
unfolding request_eq
request_eq_iff a b = (λ h. ground (arith, degrees_inj a.rotation b.rotation), λ h. ground arith)

pub record Tile : Type 0 where
  pub width : ℕ
  pub height : ℕ
  pub pixels : List ℕ

-- `checked_mul` on `usize`
unfoldable pub checked_mul : ℕ → ℕ → Option ℕ
checked_mul a b = if ltb (a * b) (2 ^ 64) then some (a * b) else none

-- the expected buffer length
expected_bytes : ℕ → ℕ → Option ℕ
unfolding checked_mul
expected_bytes width height = elim (checked_mul width height) [
  | none ↦ none
  | some count ↦ checked_mul count 4
]

-- `Tile::new`
unfoldable pub tile : ℕ → ℕ → List ℕ → Result Tile
unfolding expected_bytes
tile width height pixels =
    if width == 0 || height == 0 then err render else elim (expected_bytes width height) [
      | none ↦ err render
      | some expected ↦
          if length pixels == expected
          then ok (record { width = width; height = height; pixels = pixels })
          else err render
    ]

-- the four bytes from `offset` on; an index past the buffer, where Rust panics, gives an error
four_bytes : List ℕ → ℕ → Result (List ℕ)
four_bytes pixels offset = elim (get_elem? pixels offset) [
  | none ↦ err render
  | some r ↦ elim (get_elem? pixels (offset + 1)) [
    | none ↦ err render
    | some g ↦ elim (get_elem? pixels (offset + 2)) [
      | none ↦ err render
      | some b ↦ elim (get_elem? pixels (offset + 3)) [
        | none ↦ err render
        | some a ↦ ok (r ∷ g ∷ b ∷ a ∷ [])
      ]
    ]
  ]
]

unfoldable pub pixel : Tile → ℕ → ℕ → Result (List ℕ)
unfolding four_bytes
pixel t x_px y_px =
    if leb t.width x_px || leb t.height y_px
    then err render
    else four_bytes t.pixels ((y_px * t.width + x_px) * 4)

pub data RenderResponse : Type 0 where
  ready : RenderRequest → Tile → RenderResponse
  failed : RenderRequest → RenderResponse

abbrev pub response_request : RenderResponse → RenderRequest
response_request (ready r t) = r
response_request (failed r) = r
