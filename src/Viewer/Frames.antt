-- ===== src/Viewer/Frames.antt =====
-- What a frame submits.
use open_pdf_editor.Base.{
  ℕ, ◌≤◌, ◌≡◌, refl, ◌⊎◌, inl, inr, true, false, not, ◌||◌, List, [], ◌∷◌, All, length, arith, ltb,
  Bool-cases,
}
use open_pdf_editor.Render.{RenderResponse, Tile, RenderRequest, request_eq_iff}
use open_pdf_editor.Render.RequestMap.{member, request_eq_self}
use open_pdf_editor.FrameCache.{
  begin_frame, pending_count, TileCache, wants, mark_pending, is_pending,
}
use open_pdf_editor.Scheduler.{max_submissions_per_frame}
use open_pdf_editor.Scheduler.Planning.{IsPlanned, plan_render_requests-IsPlanned}
use open_pdf_editor.Textures.{AbsorbReport, absorb_responses_routed}
use open_pdf_editor.Textures.Filing.{length-absorb_responses_routed}
use open_pdf_editor.Viewer.{
  Drawing, Frame, is_none, plan_for, submit_plan, step_render_service, still_in_flight, mark_all,
}

module _ {T : Type 0} where
  -- it is asked for in this frame or was before
  abbrev IsDue : RenderRequest → TileCache T → Type 0
  IsDue r c = (wants r c ≡ true) ⊎ (is_pending r c ≡ true)

  mark_pending-pending :
      (r : RenderRequest) (c : TileCache T) → IsDue r c → is_pending r (mark_pending r c).1 ≡ true
  unfolding mark_pending wants member
  mark_pending-pending r c h = ground (arith, h, request_eq_self r)

  mark_pending-keeps :
      (r s : RenderRequest) (c : TileCache T)
      → is_pending r c ≡ true
      → is_pending r (mark_pending s c).1 ≡ true
  unfolding mark_pending wants member
  mark_pending-keeps r s c h = ground (arith, h)

  mark_pending-IsDue :
      (r s : RenderRequest) (c : TileCache T) → IsDue r c → IsDue r (mark_pending s c).1
  unfolding mark_pending wants member
  mark_pending-IsDue r s c h = ground (arith, h, request_eq_iff s r)

  mark_all-pending :
      (rs : List RenderRequest) (r : RenderRequest) (c : TileCache T)
      → is_pending r c ≡ true
      → is_pending r (mark_all rs c) ≡ true
  unfolding mark_all
  mark_all-pending [] r c h = h
  mark_all-pending (s ∷ rs) r c h =
      mark_all-pending rs r (mark_pending s c).1 (mark_pending-keeps r s c h)

  mark_pending-AllDue :
      (s : RenderRequest) (rs : List RenderRequest) (c : TileCache T)
      → All (λ r. IsDue r c) rs
      → All (λ r. IsDue r (mark_pending s c).1) rs
  mark_pending-AllDue s [] c h = tt
  mark_pending-AllDue s (r ∷ rs) c (h, hs) =
      (mark_pending-IsDue r s c h, mark_pending-AllDue s rs c hs)

  mark_all-marks :
      (rs : List RenderRequest) (c : TileCache T)
      → All (λ r. IsDue r c) rs
      → All (λ r. is_pending r (mark_all rs c) ≡ true) rs
  unfolding mark_all
  mark_all-marks [] c h = tt
  mark_all-marks (r ∷ rs) c (h, hs) = (
    mark_all-pending rs r (mark_pending r c).1 (mark_pending-pending r c h),
    mark_all-marks rs (mark_pending r c).1 (mark_pending-AllDue r rs c hs),
  )

  -- no request is in flight
  abbrev pub IsSettled : TileCache T → Type 0
  IsSettled c = pending_count c ≡ 0

  still_in_flight-IsSettled :
      (caches : List (TileCache T)) → still_in_flight caches ≡ false → All IsSettled caches
  unfolding still_in_flight
  still_in_flight-IsSettled [] h = tt
  still_in_flight-IsSettled (c ∷ cs) h =
      (ground (arith, h), still_in_flight-IsSettled cs (ground (arith, h)))

  repaints_or_IsSettled :
      (rs : List RenderRequest) (skipped : ℕ) (caches : List (TileCache T))
      → ((not (is_none rs) || (ltb 0 skipped || still_in_flight caches)) ≡ true)
        ⊎ ((rs ≡ []) × (skipped ≡ 0) × All IsSettled caches)
  repaints_or_IsSettled (r ∷ rs) skipped caches = inl refl
  repaints_or_IsSettled [] skipped caches = elim (Bool-cases (ltb 0 skipped)) [
    | inl e ↦ inl (rw e refl)
    | inr e ↦ elim (Bool-cases (still_in_flight caches)) [
      | inl f ↦ inl (rw (e, f) refl)
      | inr f ↦ inr (refl, ground (arith, e), still_in_flight-IsSettled caches f)
    ]
  ]

module _ {T : Type 0} (load_texture : RenderRequest → Tile → T) (drawing : Drawing) where
  -- A request that the frame may submit, which `canvas` waits for after it
  abbrev pub IsSubmitted : TileCache T → RenderRequest → Type 0
  IsSubmitted canvas r =
      (is_pending r canvas ≡ true)
      × (r.document ≡ drawing.snapshot.document)
      × (r.revision ≡ drawing.snapshot.revision)

  abbrev Planned : TileCache T → RenderRequest → Type 0
  Planned canvas =
      IsPlanned drawing.snapshot drawing.scale_for_page drawing.view_rotation (λ r. wants r canvas)
        max_submissions_per_frame

  Planned-IsDue :
      (canvas : TileCache T) (rs : List RenderRequest)
      → All (Planned canvas) rs
      → All (λ r. IsDue r canvas) rs
  Planned-IsDue canvas [] h = tt
  Planned-IsDue canvas (r ∷ rs) (h, hs) = (inl h.0, Planned-IsDue canvas rs hs)

  IsSubmitted-of_Planned :
      (canvas marked : TileCache T) (rs : List RenderRequest)
      → All (Planned canvas) rs
      → All (λ r. is_pending r marked ≡ true) rs
      → All (IsSubmitted marked) rs
  IsSubmitted-of_Planned canvas marked [] h k = tt
  IsSubmitted-of_Planned canvas marked (r ∷ rs) (h, hs) (k, ks) =
      ((k, h.1, h.2), IsSubmitted-of_Planned canvas marked rs hs ks)

  -- what a frame promises
  abbrev pub IsFrame : Frame T → Type 0
  IsFrame frame =
      (canvas : TileCache T) × (others : List (TileCache T)) × (frame.caches ≡ canvas ∷ others)
      × All (IsSubmitted canvas) frame.submitted
      × (length frame.submitted ≤ max_submissions_per_frame)
      × ((frame.repaints ≡ true)
          ⊎ ((frame.submitted ≡ []) × (frame.outcome.skipped ≡ 0) × All IsSettled frame.caches))

  submit_plan-IsFrame :
      (canvas : TileCache T) (others : List (TileCache T)) (report : AbsorbReport)
      → IsFrame (submit_plan load_texture drawing (canvas ∷ others, report))
  unfolding submit_plan plan_for
  submit_plan-IsFrame canvas others report =
      let plan = plan_for load_texture drawing canvas in
      let (planned, few) =
        plan_render_requests-IsPlanned drawing.snapshot drawing.scale_for_page drawing.view_rotation
          (λ r. wants r canvas) max_submissions_per_frame drawing.first_visible drawing.visible_end
          drawing.focus in
      let marked = mark_all plan.requests canvas in
      (
        marked,
        others,
        refl,
        IsSubmitted-of_Planned canvas marked plan.requests planned
            (mark_all-marks plan.requests canvas (Planned-IsDue canvas plan.requests planned)),
        few,
        repaints_or_IsSettled plan.requests plan.skipped (marked ∷ others),
      )

  submit_some-IsFrame :
      (absorbed : List (TileCache T) × AbsorbReport)
      → 1 ≤ length absorbed.0
      → IsFrame (submit_plan load_texture drawing absorbed)
  submit_some-IsFrame ([], report) h = absurd (omega (arith, h))
  submit_some-IsFrame (canvas ∷ others, report) h = submit_plan-IsFrame canvas others report

  -- A frame with at least one cache, whatever the service answered: it submits at most eight
  -- requests, each of the document and the revision that are drawn and each recorded in the canvas's
  -- cache as in flight; and it asks for a repaint unless nothing was submitted, nothing was skipped
  -- and no cache waits for an answer.
  pub step_render_service-IsFrame :
      (canvas : TileCache T) (others : List (TileCache T)) (polled : List RenderResponse)
      → IsFrame (step_render_service load_texture drawing (canvas ∷ others) polled)
  unfolding step_render_service begin_frame
  step_render_service-IsFrame canvas others polled =
      let (canvas', clock) = begin_frame canvas in
      let kept =
        length-absorb_responses_routed load_texture drawing.snapshot canvas' others polled clock in
      submit_some-IsFrame
        (absorb_responses_routed load_texture drawing.snapshot (canvas' ∷ others) polled clock)
        (omega (arith, kept))
