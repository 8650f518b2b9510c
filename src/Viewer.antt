-- ===== src/Viewer.antt =====
-- One frame of the viewer against the render service (`step_render_service` of
-- opdf-app/src/viewer.rs), which joins the caches, the filing of responses and the plan of requests.
-- What the viewer's state and the graphics library give it are parameters: the snapshot that is
-- drawn, the visible pages and the page in focus, the scale for a page, and the texture of a tile.
pub mod Frames
pub mod Session
use open_pdf_editor.Base.{
  ℕ, suc, ◌+◌, Bool, true, false, not, ◌&&◌, ◌||◌, List, [], ◌∷◌, length, ltb, if◌then◌else◌,
}
use open_pdf_editor.Page.{PageSize, Rotation}
use open_pdf_editor.Document.{DocumentSnapshot}
use open_pdf_editor.Render.{RenderRequest, RenderResponse, Tile}
use open_pdf_editor.FrameCache.{TileCache, begin_frame, wants, mark_pending, pending_count}
use open_pdf_editor.Textures.{AbsorbReport, no_report, absorb_responses_routed}
use open_pdf_editor.Scheduler.{RequestPlan, plan_render_requests, max_submissions_per_frame}

pub record FrameOutcome : Type 0 where
  pub absorbed : AbsorbReport
  pub submitted : ℕ
  pub skipped : ℕ

-- what the viewer draws in this frame
pub record Drawing : Type 0 where
  pub snapshot : DocumentSnapshot
  pub first_visible : ℕ
  pub visible_end : ℕ
  pub focus : ℕ
  pub scale_for_page : PageSize → ℕ
  pub view_rotation : Rotation

-- `any` cache with a request in flight
unfoldable pub still_in_flight : {T : Type 0} → List (TileCache T) → Bool
still_in_flight [] = false
still_in_flight (c ∷ cs) = ltb 0 (pending_count c) || still_in_flight cs

-- the loop that marks what is submitted
unfoldable pub mark_all : {T : Type 0} → List RenderRequest → TileCache T → TileCache T
mark_all [] c = c
mark_all (r ∷ rs) c = mark_all rs (mark_pending r c).1

-- The caches after a frame, the requests that were submitted, whether a repaint was asked for, and
-- the outcome
pub record Frame (T : Type 0) : Type 0 where
  pub caches : List (TileCache T)
  pub submitted : List RenderRequest
  pub repaints : Bool
  pub outcome : FrameOutcome

abbrev pub no_outcome : FrameOutcome
no_outcome = record { absorbed = no_report; submitted = 0; skipped = 0 }

abbrev pub is_none : List RenderRequest → Bool
is_none [] = true
is_none (r ∷ rs) = false

module _ {T : Type 0} (load_texture : RenderRequest → Tile → T) (drawing : Drawing) where
  unfoldable pub plan_for : TileCache T → RequestPlan
  unfolding plan_render_requests wants
  plan_for canvas =
      plan_render_requests drawing.snapshot drawing.scale_for_page drawing.view_rotation
        (λ r. wants r canvas) max_submissions_per_frame drawing.first_visible drawing.visible_end
        drawing.focus

  -- from the second `first_mut` on
  unfoldable pub submit_plan : List (TileCache T) × AbsorbReport → Frame T
  unfolding plan_for mark_all still_in_flight
  submit_plan ([], report) = record {
    caches = [];
    submitted = [];
    repaints = false;
    outcome = no_outcome;
  }
  submit_plan (canvas ∷ others, report) =
      let plan = plan_for canvas in
      let caches = mark_all plan.requests canvas ∷ others in
      record {
        caches = caches;
        submitted = plan.requests;
        repaints = not (is_none plan.requests) || (ltb 0 plan.skipped || still_in_flight caches);
        outcome = record {
          absorbed = report;
          submitted = length plan.requests;
          skipped = plan.skipped;
        };
      }

  -- `polled` is what `service.poll()` returns.
  unfoldable pub step_render_service : List (TileCache T) → List RenderResponse → Frame T
  unfolding begin_frame absorb_responses_routed submit_plan
  step_render_service [] polled = record {
    caches = [];
    submitted = [];
    repaints = false;
    outcome = no_outcome;
  }
  step_render_service (canvas ∷ others) polled =
      let (canvas', frame_clock) = begin_frame canvas in
      submit_plan (
        absorb_responses_routed load_texture drawing.snapshot (canvas' ∷ others) polled frame_clock)
