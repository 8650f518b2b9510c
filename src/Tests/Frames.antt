-- ===== src/Tests/Frames.antt =====
-- A frame of the viewer.
use open_pdf_editor.Base.{
  ℕ, ◌≤◌, ◌<◌, ◌≡◌, ◌↔◌, refl, ◌-◌, ◌+◌, true, Bool, List, [], ◌∷◌, All, map, length, take, ◌^◌,
  ◌*◌,
}
use open_pdf_editor.Page.{PageSize, PageInfo, Rotation}
use open_pdf_editor.Document.{DocumentSnapshot}
use open_pdf_editor.Render.{RenderRequest, RenderResponse, ready, failed, Tile}
use open_pdf_editor.PageSelection.Sorting.{Contains}
use open_pdf_editor.FrameCache.{new}
use open_pdf_editor.Scheduler.{order_by_distance_from_focus, plan_render_requests}
use open_pdf_editor.Scheduler.Ordering.{IsOrdered, order_by_distance_from_focus-IsOrdered}
use open_pdf_editor.Scheduler.Planning.{wanted, plan_render_requests-wanted}
use open_pdf_editor.Textures.{absorb_responses_routed}
use open_pdf_editor.Textures.Filing.{AllDrawn, absorb_responses_routed-AllDrawn}
use open_pdf_editor.Viewer.{Drawing, step_render_service}
use open_pdf_editor.Viewer.Session.{
  Viewing, frame, replaces, act, IsSeen, begun, acted, IsSeen-AllDrawn,
}
use open_pdf_editor.Viewer.Frames.{IsFrame, step_render_service-IsFrame}

order_lem : order_by_distance_from_focus 0 7 3 ≡ 3 ∷ 4 ∷ 2 ∷ 5 ∷ 1 ∷ 6 ∷ 0 ∷ []
unfolding order_by_distance_from_focus
order_lem = refl

order_by_distance_from_focus-IsOrdered_example :
    IsOrdered 3 (order_by_distance_from_focus 0 7 3)
    × ((z : ℕ) → Contains z (order_by_distance_from_focus 0 7 3) ↔ ((0 ≤ z) × (z < 7)))
order_by_distance_from_focus-IsOrdered_example = order_by_distance_from_focus-IsOrdered 0 7 3

abbrev a4 : PageSize
a4 = record { width_pt = 595; height_pt = 842 }

abbrev page : ℕ → PageInfo
page id = record { id = id; size = a4; rotation = Rotation.none }

abbrev snapshot : DocumentSnapshot
snapshot = record { document = 1; pages = page 4 ∷ page 5 ∷ page 6 ∷ []; revision = 7 }

abbrev one : PageSize → ℕ
one size = 127 * 2 ^ 23

abbrev every : RenderRequest → Bool
every r = true

plan_render_requests-wanted_example :
    ((plan_render_requests snapshot one Rotation.none every 2 0 3 1).requests
      ≡ take 2 (wanted snapshot one Rotation.none every 2 (order_by_distance_from_focus 0 3 1)))
    × ((plan_render_requests snapshot one Rotation.none every 2 0 3 1).skipped
        ≡ length (wanted snapshot one Rotation.none every 2 (order_by_distance_from_focus 0 3 1))
          - 2)
plan_render_requests-wanted_example =
    plan_render_requests-wanted snapshot one Rotation.none every 2 0 3 1

abbrev asked : ℕ → RenderRequest
asked revision = record {
  document = 1;
  page = 5;
  revision = revision;
  scale = 127 * 2 ^ 23;
  rotation = Rotation.none;
}

abbrev dot : Tile
dot = record { width = 1; height = 1; pixels = 1 ∷ 2 ∷ 3 ∷ 4 ∷ [] }

abbrev load : RenderRequest → Tile → ℕ
load r t = length t.pixels

abbrev polled : List RenderResponse
polled = ready (asked 7) dot ∷ ready (asked 6) dot ∷ failed (asked 7) ∷ []

absorb_responses_routed-AllDrawn_example :
    All
      (AllDrawn load snapshot)
      (absorb_responses_routed load snapshot (new 8 ∷ new 4 ∷ []) polled 0).0
    × ((absorb_responses_routed load snapshot (new 8 ∷ new 4 ∷ []) polled 0).1.stored
          + (absorb_responses_routed load snapshot (new 8 ∷ new 4 ∷ []) polled 0).1.failed
          + (absorb_responses_routed load snapshot (new 8 ∷ new 4 ∷ []) polled 0).1.discarded
        ≡ 3)
absorb_responses_routed-AllDrawn_example =
    absorb_responses_routed-AllDrawn load snapshot (new 8) (new 4 ∷ []) polled 0 (tt, (tt, tt))

abbrev drawing : Drawing
drawing = record {
  snapshot = snapshot;
  first_visible = 0;
  visible_end = 3;
  focus = 1;
  scale_for_page = one;
  view_rotation = Rotation.none;
}

step_render_service-IsFrame_example :
    IsFrame load drawing (step_render_service load drawing (new 8 ∷ new 4 ∷ []) polled)
step_render_service-IsFrame_example =
    step_render_service-IsFrame load drawing (new 8) (new 4 ∷ []) polled

-- a frame, and then an edit
abbrev before_edit : Viewing ℕ
before_edit =
    act load (frame drawing polled) (record { snapshot = snapshot; caches = map new (8 ∷ 4 ∷ []) })

abbrev edited : DocumentSnapshot
edited = record snapshot { revision = 8 }

before_edit-IsSeen : IsSeen load before_edit
before_edit-IsSeen =
    acted (frame drawing polled) (record { snapshot = snapshot; caches = map new (8 ∷ 4 ∷ []) })
      (begun snapshot (8 ∷ 4 ∷ [])) tt

same_document : edited.document ≡ before_edit.snapshot.document
unfolding act
same_document = refl

IsSeen-AllDrawn_example :
    All
      (AllDrawn load (act load (replaces edited) before_edit).snapshot)
      (act load (replaces edited) before_edit).caches
IsSeen-AllDrawn_example =
    IsSeen-AllDrawn load (act load (replaces edited) before_edit)
      (acted (replaces edited) before_edit before_edit-IsSeen same_document)
