-- ===== src/Viewer/Session.antt =====
-- The caches of the viewer through a session (`open_document`, `replace_snapshot` and
-- `step_render_service` of opdf-app/src/viewer.rs): what they do to the snapshot and the caches.
-- The layout and the zoom that they refresh too are not modelled.
use open_pdf_editor.Base.{
  ℕ, ◌≡◌, refl, sym, subst, ◌∙◌, List, [], ◌∷◌, All, map, Bool-cases, arith, inl, inr,
}
use open_pdf_editor.Document.{DocumentSnapshot}
use open_pdf_editor.Render.{RenderRequest, RenderResponse, Tile}
use open_pdf_editor.Render.RequestMap.{retain}
use open_pdf_editor.FrameCache.{
  TileCache, CacheEntry, new, clear, retain_revision, at_revision, begin_frame, mark_pending,
}
use open_pdf_editor.Textures.{AbsorbReport, absorb_responses_routed}
use open_pdf_editor.Textures.Filing.{IsDrawn, AllDrawn, absorb_responses_routed-AllDrawn}
use open_pdf_editor.Viewer.{Drawing, mark_all, plan_for, submit_plan, step_render_service}

pub record Viewing (T : Type 0) : Type 0 where
  pub snapshot : DocumentSnapshot
  pub caches : List (TileCache T)

unfoldable pub open_document : {T : Type 0} → DocumentSnapshot → Viewing T → Viewing T
open_document snapshot v = record { snapshot = snapshot; caches = map clear v.caches }

unfoldable pub replace_snapshot : {T : Type 0} → DocumentSnapshot → Viewing T → Viewing T
replace_snapshot snapshot v = record {
  snapshot = snapshot;
  caches = map (retain_revision snapshot.revision) v.caches;
}

-- A frame draws the snapshot that there is, in whatever window.
pub data Action : Type 0 where
  opens replaces : DocumentSnapshot → Action
  frame : Drawing → List RenderResponse → Action

-- an edit shows the same document
abbrev pub IsAllowed : Action → DocumentSnapshot → Type 0
IsAllowed (opens next) snapshot = Unit
IsAllowed (replaces next) snapshot = next.document ≡ snapshot.document
IsAllowed (frame drawing polled) snapshot = Unit

module _ {T : Type 0} (load_texture : RenderRequest → Tile → T) where
  unfoldable pub act : Action → Viewing T → Viewing T
  unfolding open_document replace_snapshot step_render_service
  act (opens next) v = open_document next v
  act (replaces next) v = replace_snapshot next v
  act (frame drawing polled) v = record v {
    caches =
        (step_render_service load_texture (record drawing { snapshot = v.snapshot }) v.caches
          polled).caches;
  }

  -- the states of a session that began with empty caches
  pub data IsSeen : Viewing T → Type 0 where
    begun :
        (snapshot : DocumentSnapshot) (budgets : List ℕ)
        → IsSeen (record { snapshot = snapshot; caches = map new budgets })
    acted :
        (action : Action) (v : Viewing T)
        → IsSeen v
        → IsAllowed action v.snapshot
        → IsSeen (act action v)

  -- whatever the snapshot, a cache without entries
  clear-AllDrawn :
      (snapshot : DocumentSnapshot) (caches : List (TileCache T))
      → All (AllDrawn load_texture snapshot) (map clear caches)
  unfolding clear
  clear-AllDrawn snapshot [] = tt
  clear-AllDrawn snapshot (c ∷ cs) = (tt, clear-AllDrawn snapshot cs)

  new-AllDrawn :
      (snapshot : DocumentSnapshot) (budgets : List ℕ)
      → All (AllDrawn load_texture snapshot) (map new budgets)
  new-AllDrawn snapshot [] = tt
  new-AllDrawn snapshot (n ∷ ns) = (tt, new-AllDrawn snapshot ns)

  retain-AllDrawn :
      (old next : DocumentSnapshot) (m : List (RenderRequest × CacheEntry T))
      → next.document ≡ old.document
      → All (IsDrawn load_texture old) m
      → All (IsDrawn load_texture next) (retain (at_revision next.revision) m)
  unfolding retain
  retain-AllDrawn old next [] same h = tt
  retain-AllDrawn old next ((k, e) ∷ m) same (h, hs) =
      elim (Bool-cases (at_revision next.revision k)) [
        | inl f ↦ rw f ((h.0 ∙ sym same, ground (arith, f)), retain-AllDrawn old next m same hs)
        | inr f ↦ rw f (retain-AllDrawn old next m same hs)
      ]

  replace_snapshot-AllDrawn :
      (old next : DocumentSnapshot) (caches : List (TileCache T))
      → next.document ≡ old.document
      → All (AllDrawn load_texture old) caches
      → All (AllDrawn load_texture next) (map (retain_revision next.revision) caches)
  unfolding retain_revision
  replace_snapshot-AllDrawn old next [] same h = tt
  replace_snapshot-AllDrawn old next (c ∷ cs) same (h, hs) =
      (retain-AllDrawn old next c.entries same h, replace_snapshot-AllDrawn old next cs same hs)

  mark_all-entries :
      (rs : List RenderRequest) (c : TileCache T) → (mark_all rs c).entries ≡ c.entries
  unfolding mark_all mark_pending
  mark_all-entries [] c = refl
  mark_all-entries (r ∷ rs) c =
      let one : (mark_pending r c).1.entries ≡ c.entries = ground arith in
      mark_all-entries rs (mark_pending r c).1 ∙ one

  submit_plan-AllDrawn :
      (drawing : Drawing) (absorbed : List (TileCache T) × AbsorbReport)
      → All (AllDrawn load_texture drawing.snapshot) absorbed.0
      → All
          (AllDrawn load_texture drawing.snapshot)
          (submit_plan load_texture drawing absorbed).caches
  unfolding submit_plan
  submit_plan-AllDrawn drawing ([], report) h = tt
  submit_plan-AllDrawn drawing (c ∷ cs, report) (h, hs) =
      let same = mark_all-entries (plan_for load_texture drawing c).requests c in
      (subst (All (IsDrawn load_texture drawing.snapshot)) (sym same) h, hs)

  step_render_service-AllDrawn :
      (drawing : Drawing) (caches : List (TileCache T)) (polled : List RenderResponse)
      → All (AllDrawn load_texture drawing.snapshot) caches
      → All
          (AllDrawn load_texture drawing.snapshot)
          (step_render_service load_texture drawing caches polled).caches
  unfolding step_render_service begin_frame
  step_render_service-AllDrawn drawing [] polled h = tt
  step_render_service-AllDrawn drawing (c ∷ cs) polled h =
      let (c', clock) = begin_frame c in
      let (kept, _) =
        absorb_responses_routed-AllDrawn load_texture drawing.snapshot c' cs polled clock h in
      submit_plan-AllDrawn drawing
        (absorb_responses_routed load_texture drawing.snapshot (c' ∷ cs) polled clock) kept

  act-AllDrawn :
      (action : Action) (v : Viewing T)
      → IsAllowed action v.snapshot
      → All (AllDrawn load_texture v.snapshot) v.caches
      → All (AllDrawn load_texture (act action v).snapshot) (act action v).caches
  unfolding act open_document replace_snapshot
  act-AllDrawn (opens next) v a h = clear-AllDrawn next v.caches
  act-AllDrawn (replaces next) v a h = replace_snapshot-AllDrawn v.snapshot next v.caches a h
  act-AllDrawn (frame drawing polled) v a h =
      step_render_service-AllDrawn (record drawing { snapshot = v.snapshot }) v.caches polled h

  -- Through any session that opens documents, replaces the snapshot by others of the same document
  -- and draws frames, whatever responses arrive and when: every tile in every cache is of the
  -- document and at the revision that are shown.
  pub IsSeen-AllDrawn : (v : Viewing T) → IsSeen v → All (AllDrawn load_texture v.snapshot) v.caches
  IsSeen-AllDrawn v (begun snapshot budgets) = new-AllDrawn snapshot budgets
  IsSeen-AllDrawn v (acted action before seen a) =
      act-AllDrawn action before a (IsSeen-AllDrawn before seen)
