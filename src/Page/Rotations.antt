-- ===== src/Page/Rotations.antt =====
-- The rotations are the quarter turns modulo a full turn.
use open_pdf_editor.Base.{◌+◌, ◌%◌, ◌≡◌, ◌↔◌, arith}
use open_pdf_editor.Base.Int.{ℤ, pos, negsuc, rem_euclid}
use open_pdf_editor.Error.{ok}
use open_pdf_editor.Page.{Rotation, degrees, from_degrees, rotated_by}

-- `from_degrees` succeeds exactly on the angles that a rotation has modulo 360, negative ones
-- included, and gives that rotation.
pub from_degrees-eq-ok_iff :
    (d : ℤ) (r : Rotation) → (from_degrees d ≡ ok r) ↔ (rem_euclid d 360 ≡ degrees r)
unfolding from_degrees
from_degrees-eq-ok_iff (pos n) Rotation.none = (λ h. ground arith, λ h. ground arith)
from_degrees-eq-ok_iff (pos n) r = (λ h. ground arith, λ h. ground arith)
from_degrees-eq-ok_iff (negsuc n) r = (λ h. ground arith, λ h. ground arith)

-- Turning by `b` adds the angles modulo a full turn.
pub degrees-rotated_by : (a b : Rotation) → degrees (rotated_by a b) ≡ (degrees a + degrees b) % 360
unfolding rotated_by
degrees-rotated_by Rotation.none b = ground arith
degrees-rotated_by a b = ground arith
