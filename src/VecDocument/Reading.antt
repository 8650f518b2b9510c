-- ===== src/VecDocument/Reading.antt =====
-- Reading a valid document: each of its pages is found under its own identity.
use open_pdf_editor.Base.{
  ℕ, zero, suc, ◌≤◌, ◌≡◌, refl, ◌∙◌, some, List, [], ◌∷◌, ◌++◌, All, map, arith, length, get_elem?,
  append_assoc, take, drop, sym, ap,
}
use open_pdf_editor.Error.{ok}
use open_pdf_editor.Page.{PageId, PageInfo}
use open_pdf_editor.Document.{collect_pages, snapshot_of}
use open_pdf_editor.VecDocument.{VecDocument, vec_document, position, page, page_ids}
use open_pdf_editor.VecDocument.Search.{count, count-append, Located, Located-of_element}
use open_pdf_editor.VecDocument.Valid.{Valid}

pub position-append_cons :
    (pre ps : List PageInfo) (p : PageInfo)
    → count p.id pre ≡ 0
    → position p.id (pre ++ p ∷ ps) ≡ some (length pre)
unfolding position count
position-append_cons [] ps p h = ground arith
position-append_cons (q ∷ pre) ps p h = ground (arith, position-append_cons pre ps p)

pub get_elem?-append_cons :
    (pre ps : List PageInfo) (p : PageInfo) → get_elem? (pre ++ p ∷ ps) (length pre) ≡ some p
get_elem?-append_cons [] ps p = refl
get_elem?-append_cons (q ∷ pre) ps p = get_elem?-append_cons pre ps p

-- A page of a valid document behind `pre`.
pub Located-append_cons :
    (d : VecDocument) (pre ps : List PageInfo) (p : PageInfo)
    → Valid d
    → d.pages ≡ pre ++ p ∷ ps
    → Located p.id d.pages (length pre) p
unfolding count
Located-append_cons d pre ps p v e =
    let alone : count p.id pre ≡ 0 =
      ground (arith, v.distinct p.id, ap (count p.id) e, count-append p.id pre (p ∷ ps)) in
    Located-of_element p.id d.pages (length pre) (rw e (position-append_cons pre ps p alone))
      (rw e (get_elem?-append_cons pre ps p))

-- Looking up the page's own identity gives the page.
abbrev pub Reads : VecDocument → PageInfo → Type 0
Reads d p = page d p.id ≡ ok p

Reads-rest :
    (d : VecDocument) (pre ps : List PageInfo)
    → d.pages ≡ pre ++ ps
    → ((id : PageId) → count id d.pages ≤ 1)
    → All (Reads d) ps
unfolding page count
Reads-rest d pre [] e h = tt
Reads-rest d pre (p ∷ ps) e h =
    let alone : count p.id pre ≡ 0 =
      ground (arith, h p.id, ap (count p.id) e, count-append p.id pre (p ∷ ps)) in
    let at_position : position p.id d.pages ≡ some (length pre) =
      rw e (position-append_cons pre ps p alone) in
    let element : get_elem? d.pages (length pre) ≡ some p = rw e (get_elem?-append_cons pre ps p) in
    (
      ground (arith, at_position, element),
      Reads-rest d (pre ++ p ∷ []) ps (e ∙ sym (append_assoc pre (p ∷ []) ps)) h,
    )

pub pages-Reads : (d : VecDocument) → Valid d → All (Reads d) d.pages
pages-Reads d v = Reads-rest d [] d.pages refl (λ id. omega (arith, v.distinct id))

pub All-take {κ} :
    {A : Type 0} (P : A → Type κ) (n : ℕ) (xs : List A) → All P xs → All P (take n xs)
All-take P zero xs h = tt
All-take P (suc n) [] h = tt
All-take P (suc n) (x ∷ xs) h = (h.0, All-take P n xs h.1)

pub All-drop {κ} :
    {A : Type 0} (P : A → Type κ) (n : ℕ) (xs : List A) → All P xs → All P (drop n xs)
All-drop P zero xs h = h
All-drop P (suc n) [] h = tt
All-drop P (suc n) (x ∷ xs) h = All-drop P n xs h.1

abbrev pub ids_of : List PageInfo → List PageId
ids_of = map (λ p. p.id)

pub collect_pages-ids_of :
    (d : VecDocument) (ps : List PageInfo)
    → All (Reads d) ps
    → collect_pages (page d) (ids_of ps) ≡ ok ps
unfolding collect_pages
collect_pages-ids_of d [] h = refl
collect_pages-ids_of d (p ∷ ps) h = ground (arith, h.0, collect_pages-ids_of d ps h.1)

-- The snapshot of a valid document always succeeds, and holds its identity, its revision, and its
-- pages in their order.
pub snapshot_of-ok :
    (d : VecDocument)
    → Valid d
    → snapshot_of vec_document d
      ≡ ok (record { document = d.id; pages = d.pages; revision = d.revision })
unfolding snapshot_of page_ids
snapshot_of-ok d v = ground (arith, collect_pages-ids_of d d.pages (pages-Reads d v))
