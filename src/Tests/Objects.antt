-- ===== src/Tests/Objects.antt =====
-- A concrete object layer for the PDF documents of the tests.
use open_pdf_editor.Base.{ℕ, ◌+◌, ltb, some, none, if◌then◌else◌}
use open_pdf_editor.PdfDocument.{Objects}

-- Objects that are only counted, by the last number given. None from 100 on can be copied.
abbrev pub numbered : Objects ℕ
numbered = record {
  build_blank_page = λ parent size last. ((last + 1, 0), last + 1);
  copy_page_into = λ source object last.
      if ltb object.0 100 then (some (last + 1, 0), last + 1) else (none, last);
}
