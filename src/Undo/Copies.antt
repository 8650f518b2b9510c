-- ===== src/Undo/Copies.antt =====
-- The copies that an import inserts: the invariant, and that removing them, in either order, takes
-- the document back.
use open_pdf_editor.Base.{
  ◌==◌, Bool-cases, ℕ, zero, suc, ◌+◌, ◌≤◌, ◌<◌, ◌≡◌, refl, ◌∙◌, some, List, [], ◌∷◌, All, sym,
  arith, ap, length, get_elem?, insert_idx, erase_idx, erase_idx-insert_idx, length-insert_idx, inl,
  inr,
}
use open_pdf_editor.Error.{done}
use open_pdf_editor.Page.{PageId, PageInfo, allocate}
use open_pdf_editor.Command.{Command, remove_page}
use open_pdf_editor.Command.Composite.{removals, push_removals}
use open_pdf_editor.VecDocument
use open_pdf_editor.VecDocument.{
  VecDocument, vec_document, position, insert_copy, insert_copies, new_ids,
}
use open_pdf_editor.VecDocument.Search.{
  count, find, Located, count-insert_idx, find-append, Located-insert_idx, Located-of_element,
}
use open_pdf_editor.VecDocument.Valid.{Valid, Extends, Extends-refl}
use open_pdf_editor.VecDocument.Preserve.{after_remove, remove_page-done}
use open_pdf_editor.Undo.Lawful.{Lawful}
use open_pdf_editor.Undo.Runs.{TakesBack, TakesBack-Extends}

pub insert_copy-Valid :
    (at_index : ℕ) (p : PageInfo) (d : VecDocument) → Valid d → Valid (insert_copy at_index p d)
insert_copy-Valid at_index p d v = record {
  distinct = λ x. ground (
    arith,
    v.distinct x,
    v.fresh x,
    count-insert_idx x d.pages at_index (record p { id = d.allocator.next }),
  );
  fresh = λ x h.
      ground (
        arith,
        v.fresh x,
        count-insert_idx x d.pages at_index (record p { id = d.allocator.next }),
      );
}

pub insert_copies-Valid :
    (at_index : ℕ) (ps : List PageInfo) (d : VecDocument)
    → Valid d
    → Valid (insert_copies at_index ps d)
unfolding insert_copies
insert_copies-Valid at_index [] d v = v
insert_copies-Valid at_index (p ∷ ps) d v =
    insert_copies-Valid (at_index + 1) ps _ (insert_copy-Valid at_index p d v)

pub insert_copies-identity :
    (at_index : ℕ) (ps : List PageInfo) (d : VecDocument) → (insert_copies at_index ps d).id ≡ d.id
unfolding insert_copies
insert_copies-identity at_index [] d = refl
insert_copies-identity at_index (p ∷ ps) d = insert_copies-identity (at_index + 1) ps _

-- Removing a fresh copy takes the pages back.
insert_copy-removed :
    (at_index : ℕ) (p : PageInfo) (d : VecDocument)
    → Valid d
    → at_index ≤ length d.pages
    → (d2 : VecDocument) × (VecDocument.remove_page d.allocator.next (insert_copy at_index p d)
        ≡ done tt d2)
      × Extends d d2
insert_copy-removed at_index p d v h =
    let q = record p { id = d.allocator.next } in
    let absent : count q.id d.pages ≡ 0 = omega (arith, v.fresh q.id) in
    let m = Located-insert_idx q.id d.pages at_index q refl h absent in
    (
      after_remove (insert_copy at_index p d) at_index q,
      remove_page-done (insert_copy at_index p d) m,
      record {
        same_document = refl;
        same_pages = erase_idx-insert_idx d.pages at_index q h;
        kept = λ x r k. find-append x d.removed (q ∷ []) k;
      },
    )

erase_idx-insert_later :
    (ps : List PageInfo) (i k : ℕ) (q : PageInfo)
    → i ≤ k
    → i < length ps
    → erase_idx (insert_idx ps (suc k) q) i ≡ insert_idx (erase_idx ps i) k q
erase_idx-insert_later [] i k q h b = elim b [ ]
erase_idx-insert_later (p ∷ ps) zero k q h b = refl
erase_idx-insert_later (p ∷ ps) (suc i) zero q h b = absurd (omega arith)
erase_idx-insert_later (p ∷ ps) (suc i) (suc k) q h b =
    ap (p ∷◌) (erase_idx-insert_later ps i k q (omega arith) (omega arith))

get_elem?-insert_later :
    (ps : List PageInfo) (i k : ℕ) (q : PageInfo)
    → i ≤ k
    → i < length ps
    → get_elem? (insert_idx ps (suc k) q) i ≡ get_elem? ps i
get_elem?-insert_later [] i k q h b = elim b [ ]
get_elem?-insert_later (p ∷ ps) zero k q h b = refl
get_elem?-insert_later (p ∷ ps) (suc i) zero q h b = absurd (omega arith)
get_elem?-insert_later (p ∷ ps) (suc i) (suc k) q h b =
    get_elem?-insert_later ps i k q (omega arith) (omega arith)

position-insert_later :
    (id : PageId) (ps : List PageInfo) (i k : ℕ) (q : PageInfo)
    → i ≤ k
    → position id ps ≡ some i
    → position id (insert_idx ps (suc k) q) ≡ some i
unfolding position
position-insert_later id [] i k q h e = cc
position-insert_later id (p ∷ ps) zero zero q h e = ground arith
position-insert_later id (p ∷ ps) zero (suc k) q h e = ground arith
position-insert_later id (p ∷ ps) (suc i) zero q h e = absurd (omega arith)
position-insert_later id (p ∷ ps) (suc i) (suc k) q h e = elim (Bool-cases (p.id == id)) [
  | inl here ↦ absurd (ground arith)
  | inr there ↦ ground (arith, position-insert_later id ps i k q (omega arith) (ground arith))
]

-- Copies inserted behind a page leave it where it is, and go to the same places without it.
insert_copies-later :
    (id : PageId) (i k at_index : ℕ) (ps : List PageInfo) (d : VecDocument)
    → at_index ≡ k + 1
    → i ≤ k
    → (p : PageInfo) → Located id d.pages i p
    → Located id (insert_copies at_index ps d).pages i p
      × (erase_idx (insert_copies at_index ps d).pages i
          ≡ (insert_copies k ps (record d { pages = erase_idx d.pages i })).pages)
unfolding insert_copies
insert_copies-later id i k at_index [] d e h p l = (l, refl)
insert_copies-later id i k at_index (q ∷ ps) d e h p l =
    let c = record q { id = d.allocator.next } in
    let e' : at_index ≡ suc k = omega arith in
    let m : Located id (insert_idx d.pages at_index c) i p = rw e' (
      Located-of_element id _ i (position-insert_later id d.pages i k c h l.at_position)
        (get_elem?-insert_later d.pages i k c h l.in_range ∙ l.element)) in
    let (n, f) =
      insert_copies-later id i (k + 1) (at_index + 1) ps (insert_copy at_index q d) (omega arith)
        (omega arith) p m in
    let g : erase_idx (insert_idx d.pages at_index c) i ≡ insert_idx (erase_idx d.pages i) k c =
      rw e' (erase_idx-insert_later d.pages i k c h l.in_range) in
    (
      n,
      f
          ∙ ap
              (λ pages.
                (insert_copies (k + 1) ps
                  (record (insert_copy at_index q d) { pages = pages })).pages)
              g,
    )

pub insert_copies-removed :
    (at_index : ℕ) (ps : List PageInfo) (d : VecDocument)
    → (insert_copies at_index ps d).removed ≡ d.removed
unfolding insert_copies
insert_copies-removed at_index [] d = refl
insert_copies-removed at_index (p ∷ ps) d = insert_copies-removed (at_index + 1) ps _

module _ {C : Type 0} (cmd : Command VecDocument C) (Replays : C → Type 0)
    (l : Lawful cmd Replays) where
  -- `Merge` collects the removals the last copy first.
  pub push_removals-TakesBack :
      (at_index : ℕ) (ps : List PageInfo) (applied : List C) (d b : VecDocument)
      → Valid d
      → at_index ≤ length d.pages
      → All Replays applied
      → TakesBack cmd applied d b
      → All Replays (push_removals vec_document cmd (new_ids d.allocator.next ps) applied)
        × TakesBack cmd
            (push_removals vec_document cmd (new_ids d.allocator.next ps) applied)
            (insert_copies at_index ps d)
            b
  unfolding push_removals insert_copies new_ids
  push_removals-TakesBack at_index [] applied d b v h q t = (q, t)
  push_removals-TakesBack at_index (p ∷ ps) applied d b v h q t =
      let d1 = insert_copy at_index p d in
      let inside : at_index + 1 ≤ length d1.pages =
        omega (arith, length-insert_idx d.pages at_index (record p { id = d.allocator.next })) in
      let w = insert_copy-Valid at_index p d v in
      let (d2, r, x) = insert_copy-removed at_index p d v h in
      let (i, a) = l.removal d.allocator.next d1 r in
      let w2 = (l.inverse _ d1 w a).0 in
      let (e, run, y) = TakesBack-Extends cmd Replays l applied d d2 b q v w2 x t in
      push_removals-TakesBack (at_index + 1) ps (cmd.boxed (remove_page d.allocator.next) ∷ applied)
        d1 b w inside (l.removal_Replays d.allocator.next, q) (e, (i, d2, a, run), y)

  removals-Replays : (ids : List PageId) → All Replays (removals vec_document cmd ids)
  unfolding removals
  removals-Replays [] = tt
  removals-Replays (id ∷ ids) = (l.removal_Replays id, removals-Replays ids)

  -- `ImportPages` collects them the first copy first.
  pub removals-TakesBack :
      (at_index : ℕ) (ps : List PageInfo) (d : VecDocument)
      → Valid d
      → at_index ≤ length d.pages
      → All Replays (removals vec_document cmd (new_ids d.allocator.next ps))
        × TakesBack cmd
            (removals vec_document cmd (new_ids d.allocator.next ps))
            (insert_copies at_index ps d)
            d
  unfolding removals insert_copies new_ids
  removals-TakesBack at_index [] d v h = (tt, (d, refl, Extends-refl d))
  removals-TakesBack at_index (p ∷ ps) d v h =
      let id = d.allocator.next in
      let q = record p { id = id } in
      let d1 = insert_copy at_index p d in
      let next = record d { allocator = (allocate d.allocator).1 } in
      let absent : count id d.pages ≡ 0 = omega (arith, v.fresh id) in
      let m = Located-insert_idx id d.pages at_index q refl h absent in
      let back = erase_idx-insert_idx d.pages at_index q h in
      let le : at_index ≤ at_index = omega arith in
      let (n, f) = insert_copies-later id at_index at_index (at_index + 1) ps d1 refl le q m in
      let all = insert_copies (at_index + 1) ps d1 in
      let w = insert_copies-Valid (at_index + 1) ps d1 (insert_copy-Valid at_index p d v) in
      let (i, a) = l.removal id all (remove_page-done all n) in
      let v' : Valid next = record {
        distinct = v.distinct;
        fresh = λ x k. v.fresh x (omega arith);
      } in
      let f' : erase_idx all.pages at_index ≡ (insert_copies at_index ps next).pages =
        f ∙ ap (λ pages. (insert_copies at_index ps (record d1 { pages = pages })).pages) back in
      let rest = insert_copies at_index ps next in
      let x : Extends rest (after_remove all at_index q) = record {
        same_document =
            insert_copies-identity (at_index + 1) ps d1
            ∙ sym (insert_copies-identity at_index ps next);
        same_pages = f';
        kept = λ y r k. find-append y all.removed (q ∷ []) (
            ap (find y) (
              insert_copies-removed (at_index + 1) ps d1
              ∙ sym (insert_copies-removed at_index ps next))
            ∙ k);
      } in
      let (_, t) = removals-TakesBack at_index ps next v' h in
      let (e, run, y) =
        TakesBack-Extends cmd Replays l _ rest (after_remove all at_index q) next
          (removals-Replays _) (insert_copies-Valid at_index ps next v') (l.inverse _ all w a).0 x
          t in
      (
        removals-Replays (new_ids id (p ∷ ps)),
        (
          e,
          (i, after_remove all at_index q, a, run),
          record { same_document = y.same_document; same_pages = y.same_pages; kept = y.kept },
        ),
      )
