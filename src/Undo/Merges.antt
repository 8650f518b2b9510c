-- ===== src/Undo/Merges.antt =====
-- Imports and merges over lawful commands: what they add can be removed again, and a merge that fails
-- half way leaves the pages as they were.
use open_pdf_editor.Base.{
  ℕ, ltb, ◌≤◌, ◌≡◌, refl, ◌∙◌, List, [], ◌∷◌, All, subst, inl, inr, arith, ap, length, Bool-cases,
}
use mathlib.Core.Path.{subst₂}
use open_pdf_editor.Error.{err, Error, done, failed, Outcome-cases, Result-cases}
use open_pdf_editor.Page.{PageId, PageInfo}
use open_pdf_editor.Document.{collect_pages}
use open_pdf_editor.Command.{Command}
use open_pdf_editor.Command.Composite.{merge_all, push_removals, roll_back}
use open_pdf_editor.VecDocument
use open_pdf_editor.VecDocument.{
  VecDocument, vec_document, insert_copies, new_ids, advance_revision, page, page_ids,
}
use open_pdf_editor.VecDocument.Valid.{Valid, Extends}
use open_pdf_editor.Undo.Lawful.{Lawful, IsClean}
use open_pdf_editor.Undo.Runs.{TakesBack, TakesBack-Extends, Runs-Valid, roll_back-Runs}
use open_pdf_editor.Undo.Sequences.{roll_back-ne-done}
use open_pdf_editor.Undo.Copies.{
  insert_copies-Valid, insert_copies-identity, push_removals-TakesBack,
}

page-IsClean : (d : VecDocument) (id : PageId) {x : Error} → page d id ≡ err x → IsClean x
unfolding page
page-IsClean d id h = ground arith

-- `import_pages` on the reference document, in full.
pub import_pages-inverted :
    (source : VecDocument) (ids : List PageId) (at_index : ℕ) (d : VecDocument) {new : List PageId}
    {d' : VecDocument}
    → VecDocument.import_pages source ids at_index d ≡ done new d'
    → (ps : List PageInfo) × (at_index ≤ length d.pages)
      × (new ≡ new_ids d.allocator.next ps)
      × (d' ≡ record (insert_copies at_index ps d) { revision = advance_revision d.revision })
unfolding VecDocument.import_pages
import_pages-inverted source ids at_index d h =
    elim (Result-cases (collect_pages (page source) ids)) [
      | inl (ps, e) ↦ (ps, ground arith, ground arith, ground arith)
      | inr (x, e) ↦ absurd (ground arith)
    ]

collect_pages-IsClean :
    (source : VecDocument) (ids : List PageId) {x : Error}
    → collect_pages (page source) ids ≡ err x
    → IsClean x
unfolding collect_pages page
collect_pages-IsClean source [] h = absurd (cc)
collect_pages-IsClean source (id ∷ ids) h = elim (Result-cases (page source id)) [
  | inl (p, e) ↦ elim (Result-cases (collect_pages (page source) ids)) [
    | inl (ps, f) ↦ absurd (ground arith)
    | inr (y, f) ↦ subst IsClean (ground arith) (collect_pages-IsClean source ids f)
  ]
  | inr (y, e) ↦ subst IsClean (ground arith) (page-IsClean source id e)
]

pub import_pages-failed :
    (source : VecDocument) (ids : List PageId) (at_index : ℕ) (d : VecDocument) {e : Error}
    {d' : VecDocument}
    → VecDocument.import_pages source ids at_index d ≡ failed e d'
    → IsClean e × (d' ≡ d)
unfolding VecDocument.import_pages
import_pages-failed source ids at_index d h = elim (Bool-cases (ltb (length d.pages) at_index)) [
  | inl beyond ↦ ground arith
  | inr inside ↦ elim (Result-cases (collect_pages (page source) ids)) [
    | inl (ps, e) ↦ absurd (ground arith)
    | inr (x, e) ↦ (subst IsClean (ground arith) (collect_pages-IsClean source ids e), ground arith)
  ]
]

module _ {C : Type 0} (cmd : Command VecDocument C) (Replays : C → Type 0)
    (l : Lawful cmd Replays) where
  pub revised-Valid : (d : VecDocument) (r : ℕ) → Valid d → Valid (record d { revision = r })
  revised-Valid d r v = record { distinct = v.distinct; fresh = v.fresh }

  -- Only the revision is new.
  pub revised-TakesBack :
      (cs : List C) (d b : VecDocument) (r : ℕ)
      → All Replays cs
      → Valid d
      → TakesBack cmd cs d b
      → TakesBack cmd cs (record d { revision = r }) b
  revised-TakesBack cs d b r p v t =
      let w = revised-Valid d r v in
      TakesBack-Extends cmd Replays l cs d (record d { revision = r }) b p v w
        (record { same_document = refl; same_pages = refl; kept = λ x q k. k }) t

  -- One source of a merge.
  import_pages-TakesBack :
      (source : VecDocument) (ids : List PageId) (applied : List C) (d b : VecDocument)
      {new : List PageId} {d' : VecDocument}
      → Valid d
      → All Replays applied
      → TakesBack cmd applied d b
      → VecDocument.import_pages source ids (length d.pages) d ≡ done new d'
      → Valid d'
        × All Replays (push_removals vec_document cmd new applied)
        × TakesBack cmd (push_removals vec_document cmd new applied) d' b
  import_pages-TakesBack source ids applied d b v p t e =
      let (ps, at_end, f, g) = import_pages-inverted source ids (length d.pages) d e in
      let (q, u) =
        push_removals-TakesBack cmd Replays l (length d.pages) ps applied d b v at_end p t in
      let copies = insert_copies (length d.pages) ps d in
      let w = insert_copies-Valid (length d.pages) ps d v in
      rw (f, g)
        (
          revised-Valid copies (advance_revision d.revision) w,
          q,
          revised-TakesBack _ copies b (advance_revision d.revision) q w u,
        )

  pub merge_all-TakesBack :
      (sources : List VecDocument) (applied : List C) (d b : VecDocument) {applied' : List C}
      {d' : VecDocument}
      → Valid d
      → All Replays applied
      → TakesBack cmd applied d b
      → merge_all vec_document cmd sources applied d ≡ done applied' d'
      → Valid d' × All Replays applied' × TakesBack cmd applied' d' b
  unfolding merge_all
  merge_all-TakesBack [] applied d b v p t h = (
    subst Valid (cc) v,
    subst (All Replays) (cc) p,
    subst₂ (λ x y. TakesBack cmd x y b) (cc) (cc) t,
  )
  merge_all-TakesBack (source ∷ sources) applied d b v p t h =
      elim (Outcome-cases (VecDocument.import_pages source (page_ids source) (length d.pages) d)) [
        | inl (new, d1, e) ↦
            let (w, q, u) = import_pages-TakesBack source (page_ids source) applied d b v p t e in
            merge_all-TakesBack sources (push_removals vec_document cmd new applied) d1 b w q u
              (rw (e, merge_all) at h)
        | inr (y, d1, e) ↦
            absurd (roll_back-ne-done cmd Replays l applied y d1 (rw (e, merge_all) at h))
      ]

  pub merge_all-failure :
      (sources : List VecDocument) (applied : List C) (d b : VecDocument) {x : Error}
      {d' : VecDocument}
      → Valid d
      → All Replays applied
      → TakesBack cmd applied d b
      → merge_all vec_document cmd sources applied d ≡ failed x d'
      → IsClean x × Valid d' × Extends b d'
  unfolding merge_all
  merge_all-failure [] applied d b v p t h = absurd (cc)
  merge_all-failure (source ∷ sources) applied d b {x} {d'} v p t h =
      elim (Outcome-cases (VecDocument.import_pages source (page_ids source) (length d.pages) d)) [
        | inl (new, d1, e) ↦
            let (w, q, u) = import_pages-TakesBack source (page_ids source) applied d b v p t e in
            merge_all-failure sources (push_removals vec_document cmd new applied) d1 b w q u
              (rw (e, merge_all) at h)
        | inr (y, d1, e) ↦
            let (clean, same) = import_pages-failed source (page_ids source) (length d.pages) d e in
            let (d2, r, z) = t in
            let back = roll_back-Runs cmd applied y d r in
            let h' : roll_back vec_document cmd applied y d1 ≡ failed x d' =
              rw (e, merge_all) at h in
            let h'' : roll_back vec_document cmd applied y d ≡ failed x d' = rw same at h' in
            (
              subst IsClean (cc) clean,
              subst Valid (cc) (Runs-Valid cmd Replays l applied d v r),
              subst (Extends b) (cc) z,
            )
      ]

  pub merge_all-identity :
      (sources : List VecDocument) (applied : List C) (d : VecDocument) {r : List C}
      {d' : VecDocument}
      → merge_all vec_document cmd sources applied d ≡ done r d'
      → d'.id ≡ d.id
  unfolding merge_all
  merge_all-identity [] applied d h = ground arith
  merge_all-identity (source ∷ sources) applied d h =
      elim (Outcome-cases (VecDocument.import_pages source (page_ids source) (length d.pages) d)) [
        | inl (new, d1, e) ↦
            let (ps, _, _, g) = import_pages-inverted source _ (length d.pages) d e in
            merge_all-identity sources (push_removals vec_document cmd new applied) d1
              (rw (e, merge_all) at h)
            ∙ ap (λ x. x.id) g
            ∙ insert_copies-identity (length d.pages) ps d
        | inr (y, d1, e) ↦
            absurd (roll_back-ne-done cmd Replays l applied y d1 (rw (e, merge_all) at h))
      ]
