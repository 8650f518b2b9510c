-- ===== src/Cli/Running/Contents.antt =====
-- What the pages of a reference document show.
use open_pdf_editor.Base.{ℕ, ◌+◌, ◌≡◌, refl, ap, ◌∙◌, List, [], ◌∷◌, ◌++◌, map, length, map-append}
use open_pdf_editor.Page.{PageInfo, PageSize, Rotation}
use open_pdf_editor.VecDocument.{VecDocument}
use open_pdf_editor.VecDocument.Valid.{Valid}
use open_pdf_editor.VecDocument.Importing.{copies, insert_copies-at_end, after_append}
use open_pdf_editor.Undo.Copies.{insert_copies-Valid}

-- what a page shows, whatever its identity
abbrev pub content : PageInfo → PageSize × Rotation
content p = (p.size, p.rotation)

abbrev pub contents : VecDocument → List (PageSize × Rotation)
contents d = map content d.pages

pub content-copies : (next : ℕ) (ps : List PageInfo) → map content (copies next ps) ≡ map content ps
unfolding copies
content-copies next [] = refl
content-copies next (p ∷ ps) = ap (content p ∷◌) (content-copies (next + 1) ps)

pub contents-after_append :
    (d : VecDocument) (ps : List PageInfo)
    → contents (after_append d ps) ≡ contents d ++ map content ps
contents-after_append d ps =
    ap (map content) (insert_copies-at_end (length d.pages) ps d refl)
    ∙ map-append content d.pages (copies d.allocator.next ps)
    ∙ ap (λ l. contents d ++ l) (content-copies d.allocator.next ps)

pub after_append-Valid :
    (d : VecDocument) (ps : List PageInfo) → Valid d → Valid (after_append d ps)
after_append-Valid d ps v =
    let w = insert_copies-Valid (length d.pages) ps d v in
    record { distinct = w.distinct; fresh = w.fresh }
