-- ===== src/FrameCache/Counting.antt =====
-- How often a request is among the candidates for eviction.
use open_pdf_editor.Base.{ℕ, ◌+◌, ◌≤◌, ◌<◌, ◌≡◌, refl, List, [], ◌∷◌, some, arith}
use open_pdf_editor.Render.{RenderRequest}
use open_pdf_editor.Render.RequestMap.{lookup, count_key, hit}
use open_pdf_editor.FrameCache.{CacheEntry, candidates, insert_by_tick, sort_by_tick}

unfoldable pub count_tick : RenderRequest → List (RenderRequest × ℕ) → ℕ
count_tick r [] = 0
count_tick r (p ∷ ps) = hit r p.0 + count_tick r ps

count_tick-insert_by_tick :
    (r : RenderRequest) (p : RenderRequest × ℕ) (ps : List (RenderRequest × ℕ))
    → count_tick r (insert_by_tick p ps) ≡ hit r p.0 + count_tick r ps
unfolding count_tick insert_by_tick
count_tick-insert_by_tick r p [] = omega arith
count_tick-insert_by_tick r p (q ∷ qs) = ground (arith, count_tick-insert_by_tick r p qs)

pub count_tick-sort_by_tick :
    (r : RenderRequest) (ps : List (RenderRequest × ℕ))
    → count_tick r (sort_by_tick ps) ≡ count_tick r ps
unfolding count_tick sort_by_tick
count_tick-sort_by_tick r [] = refl
count_tick-sort_by_tick r (p ∷ ps) =
    omega (arith, count_tick-insert_by_tick r p (sort_by_tick ps), count_tick-sort_by_tick r ps)

module _ {T : Type 0} (since : ℕ) (r : RenderRequest) where
  count_tick_le :
      (m : List (RenderRequest × CacheEntry T)) → count_tick r (candidates since m) ≤ count_key r m
  unfolding count_tick candidates count_key
  count_tick_le [] = omega arith
  count_tick_le ((k, e) ∷ m) = ground (arith, count_tick_le m)

  pub candidate_of_old :
      (m : List (RenderRequest × CacheEntry T)) {e : CacheEntry T}
      → lookup r m ≡ some e
      → e.last_used < since
      → 1 ≤ count_tick r (candidates since m)
  unfolding count_tick candidates lookup
  candidate_of_old [] h k = absurd (cc)
  candidate_of_old ((q, f) ∷ m) {e} h k = ground (arith, candidate_of_old m {e = e})

  pub no_candidate_of_protected :
      (m : List (RenderRequest × CacheEntry T)) {e : CacheEntry T}
      → count_key r m ≤ 1
      → lookup r m ≡ some e
      → since ≤ e.last_used
      → count_tick r (candidates since m) ≡ 0
  unfolding count_tick candidates lookup count_key
  no_candidate_of_protected [] c h k = absurd (cc)
  no_candidate_of_protected ((q, f) ∷ m) {e} c h k =
      ground (arith, no_candidate_of_protected m {e = e}, count_tick_le m)
