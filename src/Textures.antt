-- ===== src/Textures.antt =====
-- Filing the responses of the render service into the viewer's caches
-- (opdf-app/src/tiles/texture.rs). The graphics library is a parameter: `load_texture` uploads a
-- request's tile.
pub mod Filing
use open_pdf_editor.Base.{
  ℕ, zero, suc, ◌+◌, ◌-◌, ◌*◌, ◌^◌, min, Bool, true, false, not, ◌&&◌, ◌||◌, List, [], ◌∷◌,
  get_elem?, modify, Option, none, some, ◌==◌, if◌then◌else◌,
}
use mathlib.Core.Option
use open_pdf_editor.Document.{DocumentSnapshot}
use open_pdf_editor.Render.{RenderRequest, RenderResponse, ready, failed, response_request, Tile}
use open_pdf_editor.FrameCache.{
  TileCache, is_pending, clear_pending, insert, note_failed, evict_to_budget,
}

pub record AbsorbReport : Type 0 where
  pub stored : ℕ
  pub failed : ℕ
  pub discarded : ℕ
  pub evicted : ℕ

abbrev pub no_report : AbsorbReport
no_report = record { stored = 0; failed = 0; discarded = 0; evicted = 0 }

-- `saturating_mul` of `usize`
abbrev pub saturating_mul : ℕ → ℕ → ℕ
saturating_mul a b = min (a * b) (2 ^ 64 - 1)

abbrev pub measure_tile_bytes : Tile → ℕ
measure_tile_bytes t = saturating_mul (saturating_mul t.width t.height) 4

abbrev pub is_drawn : DocumentSnapshot → RenderRequest → Bool
is_drawn drawn r = r.document == drawn.document && r.revision == drawn.revision

module _ {T : Type 0} (load_texture : RenderRequest → Tile → T) (drawn : DocumentSnapshot) where
  -- `position` of the first cache that waits for the request
  unfoldable pub position_pending : RenderRequest → List (TileCache T) → Option ℕ
  position_pending r [] = none
  position_pending r (c ∷ cs) =
      if is_pending r c then some 0 else Option.map suc (position_pending r cs)

  abbrev pub or_first : Option ℕ → ℕ
  or_first none = 0
  or_first (some i) = i

  abbrev pub owner_of : RenderRequest → List (TileCache T) → ℕ
  owner_of r caches = or_first (position_pending r caches)

  -- a response of the document and revision that are drawn
  abbrev pub file : RenderResponse → TileCache T → TileCache T
  file (ready r t) c = insert r (load_texture r t) (measure_tile_bytes t) c
  file (failed r) c = note_failed r c

  abbrev pub count_filed : RenderResponse → AbsorbReport → AbsorbReport
  count_filed (ready r t) report = record report { stored = report.stored + 1 }
  count_filed (failed r) report = record report { failed = report.failed + 1 }

  -- what the owner makes of a response
  unfoldable pub absorb_into : RenderResponse → TileCache T → TileCache T
  absorb_into response c =
      if is_drawn drawn (response_request response)
      then file response c
      else clear_pending (response_request response) c

  unfoldable pub count_response : RenderResponse → AbsorbReport → AbsorbReport
  count_response response report =
      if is_drawn drawn (response_request response)
      then count_filed response report
      else record report { discarded = report.discarded + 1 }

  -- the loop
  unfoldable pub absorb_each :
      List RenderResponse → List (TileCache T) → AbsorbReport → List (TileCache T) × AbsorbReport
  unfolding absorb_into count_response position_pending
  absorb_each [] caches report = (caches, report)
  absorb_each (response ∷ responses) caches report =
      let owner = owner_of (response_request response) caches in
      elim (get_elem? caches owner) [
        | none ↦ absorb_each responses caches report
        | some c ↦
            absorb_each responses (modify (absorb_into response) caches owner)
              (count_response response report)
      ]

  -- `first_mut`, evicted
  abbrev pub evict_first : ℕ → List (TileCache T) × AbsorbReport → List (TileCache T) × AbsorbReport
  evict_first protected_since ([], report) = ([], report)
  evict_first protected_since (c ∷ cs, report) =
      let (c', evicted) = evict_to_budget protected_since c in
      (c' ∷ cs, record report { evicted = evicted })

  unfoldable pub absorb_responses_routed :
      List (TileCache T) → List RenderResponse → ℕ → List (TileCache T) × AbsorbReport
  unfolding absorb_each
  absorb_responses_routed caches responses protected_since =
      evict_first protected_since (absorb_each responses caches no_report)
