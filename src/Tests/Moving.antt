-- ===== src/Tests/Moving.antt =====
-- Extraction and splitting between two documents of three and two pages.
use open_pdf_editor.Base.{◌≡◌, ◌++◌, take, drop, arith}
use open_pdf_editor.Error.{done}
use open_pdf_editor.Page.{PageSize}
use open_pdf_editor.Command.{PageCommand, page_command}
use open_pdf_editor.Command.Composite.{Composite}
use open_pdf_editor.VecDocument.{VecDocument, vec_document, with_pages}
use open_pdf_editor.VecDocument.Valid.{Valid}
use open_pdf_editor.VecDocument.Reading.{ids_of}
use open_pdf_editor.VecDocument.Importing.{copies}
use open_pdf_editor.VecDocument.Construct.{with_pages-Valid}
use open_pdf_editor.Undo.PageLaws.{page_command-Lawful, PageReplays}
use open_pdf_editor.Transfer.{Extraction, extract_range, split_at}
use open_pdf_editor.Transfer.Extracting.{TakesOut, extract_range-TakesOut, slice}
use open_pdf_editor.Transfer.Splitting.{split_at-TakesOut}

abbrev a4 : PageSize
a4 = record { width_pt = 595; height_pt = 842 }

abbrev three : VecDocument
three = with_pages 7 3 a4

abbrev two : VecDocument
two = with_pages 8 2 a4

three-Valid : Valid three
three-Valid = (with_pages-Valid 7 3 a4).0

two-Valid : Valid two
two-Valid = (with_pages-Valid 8 2 a4).0

abbrev Bound : Type 0
Bound = Composite VecDocument (Composite VecDocument PageCommand)

extract_range-TakesOut_example :
    (x : Extraction VecDocument PageCommand) × (target' : VecDocument) × (extract_range vec_document
        (page_command vec_document)
        three
        1
        3
        two
      ≡ done x target')
    × (target'.pages ≡ two.pages ++ copies two.allocator.next (slice three 1 3))
    × (x.page_ids ≡ ids_of (copies two.allocator.next (slice three 1 3)))
    × TakesOut
        (page_command vec_document)
        PageReplays
        page_command-Lawful
        x.inverse
        target'
        two.pages
extract_range-TakesOut_example =
    extract_range-TakesOut (page_command vec_document) PageReplays page_command-Lawful three two 1 3
      three-Valid two-Valid (omega arith) (omega (arith, (with_pages-Valid 7 3 a4).1))

split_at-TakesOut_example :
    (inverse : Bound) × (document' : VecDocument) × (target' : VecDocument) × (split_at vec_document
        (page_command vec_document)
        1
        three
        two
      ≡ done inverse (document', target'))
    × (document'.pages ≡ take 1 three.pages)
    × (target'.pages ≡ two.pages ++ copies two.allocator.next (drop 1 three.pages))
    × TakesOut
        (page_command vec_document)
        PageReplays
        page_command-Lawful
        inverse
        document'
        three.pages
split_at-TakesOut_example =
    split_at-TakesOut (page_command vec_document) PageReplays page_command-Lawful three two 1
      three-Valid two-Valid (omega (arith, (with_pages-Valid 7 3 a4).1))
