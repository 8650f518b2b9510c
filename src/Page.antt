-- ===== src/Page.antt =====
-- Page identity, rotation and size (opdf-core/src/page.rs). A `PageId` is its number. A length in
-- points is an `f32`, kept as its 32-bit pattern, since the code here only copies it.
pub mod Rotations
use open_pdf_editor.Base.{ℕ, ◌+◌, ◌≢◌, Bool, true, false, ◌==◌, if◌then◌else◌}
use open_pdf_editor.Base.Int.{ℤ, pos, div_euclid, rem_euclid, rem_abs}
use open_pdf_editor.Error.{Result, ok, err, unsupported}

abbrev pub PageId : Type 0
PageId = ℕ

pub record PageIdAllocator : Type 0 where
  pub next : PageId

abbrev pub allocate : PageIdAllocator → PageId × PageIdAllocator
allocate a = (a.next, record { next = a.next + 1 })

pub data Rotation : Type 0 where
  none quarter half three_quarter : Rotation

abbrev pub degrees : Rotation → ℕ
degrees Rotation.none = 0
degrees quarter = 90
degrees half = 180
degrees three_quarter = 270

-- the last `match` of `from_degrees`
of_quarters : ℕ → Rotation
of_quarters q =
    if q == 0
    then Rotation.none
    else if q == 1
    then quarter
    else if q == 2
    then half
    else three_quarter

unfoldable pub from_degrees : ℤ → Result Rotation
unfolding of_quarters
from_degrees d =
    if rem_abs d 90 == 0 then ok (of_quarters (rem_euclid (div_euclid d 90) 4)) else err unsupported

-- `unwrap_or(Self::None)`
unwrap_or_none : Result Rotation → Rotation
unwrap_or_none (ok r) = r
unwrap_or_none (err _) = Rotation.none

unfoldable pub rotated_by : Rotation → Rotation → Rotation
unfolding from_degrees unwrap_or_none
rotated_by a b = unwrap_or_none (from_degrees (pos (degrees a + degrees b)))

abbrev pub swaps_axes : Rotation → Bool
swaps_axes quarter = true
swaps_axes three_quarter = true
swaps_axes _ = false

pub record PageSize : Type 0 where
  pub width_pt : ℕ
  pub height_pt : ℕ

pub record PageInfo : Type 0 where
  pub id : PageId
  pub size : PageSize
  pub rotation : Rotation

unfoldable pub display_size : PageInfo → PageSize
display_size p =
    if swaps_axes p.rotation
    then record { width_pt = p.size.height_pt; height_pt = p.size.width_pt }
    else p.size
