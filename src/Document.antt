-- ===== src/Document.antt =====
-- The document contract (opdf-core/src/document.rs): the trait `Document` as a record of the
-- operations over an implementation's type, and the snapshot that readers take. A `DocumentId` is
-- its number; a `PortablePages` carrier holds the pages of one implementation, or a payload that
-- this implementation's `take` refuses.
use open_pdf_editor.Base.{ℕ, List, [], ◌∷◌}
use open_pdf_editor.Error.{Result, ok, err, ◌>>=◌, Outcome, unsupported}
use open_pdf_editor.Page.{PageId, PageInfo, PageSize, Rotation}

abbrev pub DocumentId : Type 0
DocumentId = ℕ

pub data PortablePages (P : Type 0) : Type 0 where
  payload : P → PortablePages P
  foreign : PortablePages P

abbrev pub take_payload : {P : Type 0} → PortablePages P → Result P
take_payload (payload p) = ok p
take_payload foreign = err unsupported

pub record Document (D : Type 0) : Type 0 where
  pub id : D → DocumentId
  pub revision : D → ℕ
  pub page_count : D → ℕ
  pub page_ids : D → List PageId
  pub page : D → PageId → Result PageInfo
  pub index_of : D → PageId → Result ℕ
  pub remove_page : PageId → D → Outcome D (Unit {0})
  pub restore_page : PageId → ℕ → D → Outcome D (Unit {0})
  pub move_page : PageId → ℕ → D → Outcome D (Unit {0})
  pub set_rotation : PageId → Rotation → D → Outcome D (Unit {0})
  pub insert_page : ℕ → PageSize → D → Outcome D PageId
  pub import_pages : D → List PageId → ℕ → D → Outcome D (List PageId)

pub record DocumentSnapshot : Type 0 where
  pub document : DocumentId
  pub pages : List PageInfo
  pub revision : ℕ

-- the loop of `DocumentSnapshot::of`, with `page` as its argument: each id's page, or the first
-- error
unfoldable pub collect_pages : (PageId → Result PageInfo) → List PageId → Result (List PageInfo)
collect_pages page [] = ok []
collect_pages page (id ∷ ids) = do p ← page id; ps ← collect_pages page ids; ok (p ∷ ps)

unfoldable pub snapshot_of : {D : Type 0} → Document D → D → Result DocumentSnapshot
snapshot_of doc d = do
  ps ← collect_pages (doc.page d) (doc.page_ids d)
  ok (record { document = doc.id d; pages = ps; revision = doc.revision d })
