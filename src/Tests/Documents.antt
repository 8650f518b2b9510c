-- ===== src/Tests/Documents.antt =====
-- Rotations and documents.
use open_pdf_editor.Base.{◌≡◌, ◌↔◌, refl}
use open_pdf_editor.Base.Int.{negsuc, rem_euclid}
use open_pdf_editor.Error.{ok}
use open_pdf_editor.Page.{PageSize, Rotation, degrees, from_degrees}
use open_pdf_editor.Page.Rotations.{from_degrees-eq-ok_iff}
use open_pdf_editor.Document.{snapshot_of}
use open_pdf_editor.VecDocument.{VecDocument, vec_document, with_pages}
use open_pdf_editor.VecDocument.Construct.{with_pages-Valid}
use open_pdf_editor.VecDocument.Reading.{snapshot_of-ok}

-- Minus ninety degrees
from_degrees-eq-ok_iff_example :
    (from_degrees (negsuc 89) ≡ ok Rotation.three_quarter)
    ↔ (rem_euclid (negsuc 89) 360 ≡ degrees Rotation.three_quarter)
from_degrees-eq-ok_iff_example = from_degrees-eq-ok_iff (negsuc 89) Rotation.three_quarter

three_quarter_lem : from_degrees (negsuc 89) ≡ ok Rotation.three_quarter
three_quarter_lem = (from_degrees-eq-ok_iff (negsuc 89) Rotation.three_quarter).1 refl

abbrev letter : PageSize
letter = record { width_pt = 612; height_pt = 792 }

abbrev two : VecDocument
two = with_pages 1 2 letter

snapshot_of-ok_example :
    snapshot_of vec_document two
    ≡ ok (record { document = two.id; pages = two.pages; revision = two.revision })
snapshot_of-ok_example = snapshot_of-ok two ((with_pages-Valid 1 2 letter).0)
