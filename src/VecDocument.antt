-- ===== src/VecDocument.antt =====
-- The reference implementation of the contract (opdf-core/src/fakes/vec_document.rs): pages and
-- trash in two vectors. `position` gives an index in range, so the branches that look past the end
-- of a vector, where Rust would panic, are never taken; they return the error of a missing page.
pub mod Search
pub mod Reading
pub mod Importing
pub mod Construct
pub mod Valid
pub mod Preserve
use open_pdf_editor.Base.{
  ℕ, zero, suc, ◌+◌, ◌%◌, ◌^◌, Option, none, some, List, [], ◌∷◌, ◌++◌, map, length, get_elem?,
  insert_idx, erase_idx, modify, ltb, ◌==◌, if◌then◌else◌,
}
use mathlib.Core.Option
use open_pdf_editor.Error.{
  Result, ok, err, ◌>>=◌, Outcome, done, failed, unsupported, page_not_found, index_out_of_bounds,
}
use open_pdf_editor.Page.{PageId, PageIdAllocator, allocate, PageInfo, PageSize, Rotation}
use open_pdf_editor.Document.{
  DocumentId, Document, PortablePages, payload, take_payload, collect_pages,
}

pub record VecDocument : Type 0 where
  pub id : DocumentId
  pub pages : List PageInfo
  pub removed : List PageInfo
  pub allocator : PageIdAllocator
  pub revision : ℕ

-- `iter().position(|page| page.id == id)`
unfoldable pub position : PageId → List PageInfo → Option ℕ
position id [] = none
position id (p ∷ ps) = if p.id == id then some 0 else Option.map suc (position id ps)

-- `new`: `DocumentId::new_unique` gives the identity
abbrev pub new : DocumentId → VecDocument
new id = record { id = id; pages = []; removed = []; allocator = record { next = 0 }; revision = 0 }

-- `allocate` and `push`, `count` times
push_pages : ℕ → PageSize → VecDocument → VecDocument
push_pages zero size d = d
push_pages (suc count) size d = push_pages count size (record d {
  pages =
      d.pages
      ++ record { id = (allocate d.allocator).0; size = size; rotation = Rotation.none } ∷ [];
  allocator = (allocate d.allocator).1;
})

unfoldable pub with_pages : DocumentId → ℕ → PageSize → VecDocument
unfolding push_pages
with_pages id count size = push_pages count size (new id)

abbrev pub find_index : VecDocument → PageId → Result ℕ
find_index d id = elim (position id d.pages) [ none ↦ err (page_not_found id) | some i ↦ ok i ]

abbrev pub advance_revision : ℕ → ℕ
advance_revision r = (r + 1) % 2 ^ 64

unfoldable pub page_ids : VecDocument → List PageId
page_ids d = map (λ p. p.id) d.pages

unfoldable pub page : VecDocument → PageId → Result PageInfo
page d id = do
  i ← find_index d id
  elim (get_elem? d.pages i) [ none ↦ err (page_not_found id) | some p ↦ ok p ]

unfoldable pub remove_page : PageId → VecDocument → Outcome VecDocument (Unit {0})
remove_page id d = elim (position id d.pages) [
  | none ↦ failed (page_not_found id) d
  | some i ↦ elim (get_elem? d.pages i) [
    | none ↦ failed (page_not_found id) d
    | some p ↦ done tt (record d {
      pages = erase_idx d.pages i;
      removed = d.removed ++ p ∷ [];
      revision = advance_revision d.revision;
    })
  ]
]

-- the tail of `restore_page`, once the page is found at `trash_index`
restore_at : PageId → ℕ → ℕ → VecDocument → Outcome VecDocument (Unit {0})
restore_at id at_index trash_index d =
    if ltb (length d.pages) at_index
    then failed (index_out_of_bounds at_index (length d.pages)) d
    else elim (get_elem? d.removed trash_index) [
      | none ↦ failed (page_not_found id) d
      | some p ↦ done tt (record d {
        removed = erase_idx d.removed trash_index;
        pages = insert_idx d.pages at_index p;
        revision = advance_revision d.revision;
      })
    ]

unfoldable pub restore_page : PageId → ℕ → VecDocument → Outcome VecDocument (Unit {0})
unfolding restore_at
restore_page id at_index d = elim (position id d.pages) [
  | some _ ↦ failed unsupported d
  | none ↦ elim (position id d.removed) [
    | none ↦ failed (page_not_found id) d
    | some trash_index ↦ restore_at id at_index trash_index d
  ]
]

-- the tail of `move_page`, with the page lifted out of `rest`
put_back : ℕ → ℕ → PageInfo → List PageInfo → VecDocument → Outcome VecDocument (Unit {0})
put_back from_index to_index p rest d =
    if ltb (length rest) to_index
    then failed (index_out_of_bounds to_index (length d.pages))
        (record d { pages = insert_idx rest from_index p })
    else done tt
        (record d { pages = insert_idx rest to_index p; revision = advance_revision d.revision })

unfoldable pub move_page : PageId → ℕ → VecDocument → Outcome VecDocument (Unit {0})
unfolding put_back
move_page id to_index d = elim (position id d.pages) [
  | none ↦ failed (page_not_found id) d
  | some from_index ↦ elim (get_elem? d.pages from_index) [
    | none ↦ failed (page_not_found id) d
    | some p ↦ put_back from_index to_index p (erase_idx d.pages from_index) d
  ]
]

abbrev pub rotate_to : Rotation → PageInfo → PageInfo
rotate_to r p = record p { rotation = r }

unfoldable pub set_rotation : PageId → Rotation → VecDocument → Outcome VecDocument (Unit {0})
set_rotation id r d = elim (position id d.pages) [
  | none ↦ failed (page_not_found id) d
  | some i ↦
      done tt (record d {
        pages = modify (rotate_to r) d.pages i;
        revision = advance_revision d.revision;
      })
]

unfoldable pub insert_page : ℕ → PageSize → VecDocument → Outcome VecDocument PageId
insert_page at_index size d =
    if ltb (length d.pages) at_index
    then failed (index_out_of_bounds at_index (length d.pages)) d
    else done (allocate d.allocator).0 (record d {
      pages =
          insert_idx d.pages at_index
            (record { id = (allocate d.allocator).0; size = size; rotation = Rotation.none });
      allocator = (allocate d.allocator).1;
      revision = advance_revision d.revision;
    })

-- one round of the insertion loop: `PageInfo { id, ..page }` at `at_index + offset`
abbrev pub insert_copy : ℕ → PageInfo → VecDocument → VecDocument
insert_copy at_index p d = record d {
  pages = insert_idx d.pages at_index (record p { id = (allocate d.allocator).0 });
  allocator = (allocate d.allocator).1;
}

-- the insertion loop of `import_pages` and `import_portable`
unfoldable pub insert_copies : ℕ → List PageInfo → VecDocument → VecDocument
insert_copies at_index [] d = d
insert_copies at_index (p ∷ ps) d = insert_copies (at_index + 1) ps (insert_copy at_index p d)

-- `new_ids` of that loop: what the allocator, at `next`, gives each page
unfoldable pub new_ids : PageId → List PageInfo → List PageId
new_ids next [] = []
new_ids next (p ∷ ps) = next ∷ new_ids (next + 1) ps

finish_import : ℕ → List PageInfo → VecDocument → Outcome VecDocument (List PageId)
finish_import at_index ps d =
    done (new_ids d.allocator.next ps)
      (record (insert_copies at_index ps d) { revision = advance_revision d.revision })

unfoldable pub import_pages :
    VecDocument → List PageId → ℕ → VecDocument → Outcome VecDocument (List PageId)
unfolding finish_import
import_pages source ids at_index d =
    if ltb (length d.pages) at_index
    then failed (index_out_of_bounds at_index (length d.pages)) d
    else elim (collect_pages (page source) ids) [
      | err e ↦ failed e d
      | ok imported ↦ finish_import at_index imported d
    ]

unfoldable pub export_pages : VecDocument → List PageId → Result (PortablePages (List PageInfo))
export_pages d ids = do ps ← collect_pages (page d) ids; ok (payload ps)

unfoldable pub import_portable :
    PortablePages (List PageInfo) → ℕ → VecDocument → Outcome VecDocument (List PageId)
unfolding finish_import
import_portable carrier at_index d =
    if ltb (length d.pages) at_index
    then failed (index_out_of_bounds at_index (length d.pages)) d
    else elim (take_payload carrier) [ err e ↦ failed e d | ok ps ↦ finish_import at_index ps d ]

-- `impl Document for VecDocument`
abbrev pub vec_document : Document VecDocument
vec_document = record {
  id = λ d. d.id;
  revision = λ d. d.revision;
  page_count = λ d. length d.pages;
  page_ids = page_ids;
  page = page;
  index_of = find_index;
  remove_page = remove_page;
  restore_page = restore_page;
  move_page = move_page;
  set_rotation = set_rotation;
  insert_page = insert_page;
  import_pages = import_pages;
}
