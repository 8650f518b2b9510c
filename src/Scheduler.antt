-- ===== src/Scheduler.antt =====
-- Deciding which pages to ask the render service for in a frame (opdf-app/src/scheduler.rs). The
-- scale for a page's size is a parameter: `scale_for_page` computes it from the settings in floating
-- point (opdf-app/src/zoom.rs).
pub mod Ordering
pub mod Planning
use open_pdf_editor.Base.{
  ℕ, ◌+◌, ◌-◌, Bool, true, false, not, ◌&&◌, ◌||◌, List, [], ◌∷◌, ◌++◌, length, get_elem?, Option,
  none, some, ltb, leb, if◌then◌else◌,
}
use open_pdf_editor.Error.{Result, ok, err}
use open_pdf_editor.Page.{PageInfo, PageSize, Rotation, display_size}
use open_pdf_editor.Document.{DocumentSnapshot}
use open_pdf_editor.Render.{RenderRequest, request, with_rotation}
use open_pdf_editor.PageSelection.{indices_from}

abbrev pub max_submissions_per_frame : ℕ
max_submissions_per_frame = 8

pub record RequestPlan : Type 0 where
  pub requests : List RenderRequest
  pub skipped : ℕ

abbrev pub abs_diff : ℕ → ℕ → ℕ
abs_diff a b = if ltb a b then b - a else a - b

-- whether the key of `x` is at most that of `y`: pairs compare by their first part, and `false` is
-- before `true`
unfoldable pub key_le : ℕ → ℕ → ℕ → Bool
key_le focus x y =
    if ltb (abs_diff x focus) (abs_diff y focus)
    then true
    else if ltb (abs_diff y focus) (abs_diff x focus)
    then false
    else not (ltb x focus) || ltb y focus

-- `sort_by_key`, which keeps the order of equal keys
unfoldable pub insert_by_key : ℕ → ℕ → List ℕ → List ℕ
unfolding key_le
insert_by_key focus x [] = x ∷ []
insert_by_key focus x (y ∷ ys) =
    let rest = insert_by_key focus x ys in if key_le focus x y then x ∷ y ∷ ys else y ∷ rest

unfoldable pub sort_by_key : ℕ → List ℕ → List ℕ
unfolding insert_by_key
sort_by_key focus [] = []
sort_by_key focus (x ∷ xs) = insert_by_key focus x (sort_by_key focus xs)

unfoldable pub order_by_distance_from_focus : ℕ → ℕ → ℕ → List ℕ
unfolding sort_by_key indices_from
order_by_distance_from_focus start end focus = sort_by_key focus (indices_from start (end - start))

module _ (snapshot : DocumentSnapshot) (scale_for_page : PageSize → ℕ) (view_rotation : Rotation)
    (is_wanted : RenderRequest → Bool) (budget : ℕ) where
  -- the request for an index, where there is a page and the scale is one
  unfoldable pub request_at : ℕ → Option RenderRequest
  unfolding request display_size
  request_at index = elim (get_elem? snapshot.pages index) [
    | none ↦ none
    | some page ↦
        elim (request snapshot.document page.id snapshot.revision
          (scale_for_page (display_size page))) [
            | err e ↦ none
            | ok r ↦ some (with_rotation r view_rotation)
          ]
  ]

  -- the end of a turn of the loop
  unfoldable pub add_request : RenderRequest → RequestPlan → RequestPlan
  add_request r plan =
      if not (is_wanted r)
      then plan
      else if leb budget (length plan.requests)
      then record plan { skipped = plan.skipped + 1 }
      else record plan { requests = plan.requests ++ r ∷ [] }

  abbrev pub add_index : Option RenderRequest → RequestPlan → RequestPlan
  add_index none plan = plan
  add_index (some r) plan = add_request r plan

  -- the loop
  unfoldable pub plan_each : List ℕ → RequestPlan → RequestPlan
  unfolding request_at add_request
  plan_each [] plan = plan
  plan_each (index ∷ indices) plan = plan_each indices (add_index (request_at index) plan)

  unfoldable pub plan_render_requests : ℕ → ℕ → ℕ → RequestPlan
  unfolding plan_each order_by_distance_from_focus
  plan_render_requests start end focus =
      plan_each (order_by_distance_from_focus start end focus)
        (record { requests = []; skipped = 0 })
