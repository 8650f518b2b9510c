-- ===== src/Tests/Rendering.antt =====
-- Requests, tiles and the worker's cache and queue.
use open_pdf_editor.Base.{
  ◌^◌, ℕ, ◌≡◌, ◌<◌, ◌≤◌, ◌⊎◌, length, take, drop, refl, none, some, List, [], ◌∷◌, ◌++◌, arith, ltb,
  if◌then◌else◌,
}
use open_pdf_editor.Error.{ok, err, render}
use open_pdf_editor.Page.{Rotation}
use open_pdf_editor.Render.{RenderRequest, Tile, request_eq, tile, pixel}
use open_pdf_editor.Render.Tiles.{rows_from, pixel-ok}
use open_pdf_editor.Render.RequestMap.{count, lookup, erase}
use open_pdf_editor.RenderCache.{TileCache, with_budget, insert, make_room, get}
use open_pdf_editor.RenderCache.Eviction.{Valid}
use open_pdf_editor.RenderCache.Histories.{
  Use, look, keep_tile, history, history-Valid, insert-evicts_oldest,
}
use open_pdf_editor.RenderCache.Backlog.{Event, submitted, served}

abbrev page_request : ℕ → ℕ → RenderRequest
page_request page revision = record {
  document = 1;
  page = page;
  revision = revision;
  scale = 2 ^ 30;
  rotation = Rotation.none;
}

abbrev dot : Tile
dot = record { width = 1; height = 1; pixels = 1 ∷ 2 ∷ 3 ∷ 4 ∷ [] }

-- two rows of one pixel
abbrev column : List ℕ
column = 1 ∷ 2 ∷ 3 ∷ 4 ∷ 5 ∷ 6 ∷ 7 ∷ 8 ∷ []

abbrev column_tile : Tile
column_tile = record { width = 1; height = 2; pixels = column }

column_lem : tile 1 2 column ≡ ok column_tile
unfolding tile
column_lem = refl

pixel-ok_example :
    ((0 < 1) × (1 < 2)
      → (length (take 4 (drop 0 (rows_from 1 column 1))) ≡ 4)
        × (pixel column_tile 0 1 ≡ ok (take 4 (drop 0 (rows_from 1 column 1)))))
    × ((1 ≤ 0) ⊎ (2 ≤ 1) → pixel column_tile 0 1 ≡ err render)
pixel-ok_example = pixel-ok 1 2 column 0 1 column_lem

second_pixel : pixel column_tile 0 1 ≡ ok (5 ∷ 6 ∷ 7 ∷ 8 ∷ [])
unfolding pixel
second_pixel = refl

-- Room for two tiles of four bytes: the third evicts the page that was not looked at again.
abbrev uses : List Use
uses =
    keep_tile (page_request 1 7) dot
    ∷ keep_tile (page_request 2 7) dot
    ∷ look (page_request 1 7)
    ∷ []

history-Valid_example : Valid (history uses (with_budget 8))
history-Valid_example = history-Valid 8 uses

abbrev cache : TileCache
cache = record {
  entries = (page_request 2 7, dot) ∷ (page_request 1 7, dot) ∷ [];
  recency = page_request 2 7 ∷ page_request 1 7 ∷ [];
  bytes = 8;
  budget_bytes = 8;
}

cache_lem : history uses (with_budget 8) ≡ cache
unfolding history insert get lookup make_room request_eq erase
cache_lem = refl

cache-Valid : Valid cache
cache-Valid = rw cache_lem at (history-Valid 8 uses)

absent : lookup (page_request 3 7) cache.entries ≡ none
unfolding lookup request_eq
absent = refl

insert-evicts_oldest_example :
    (gone : List RenderRequest) × (kept : List RenderRequest) × (cache.recency ≡ gone ++ kept)
    × ((insert (page_request 3 7) dot cache).recency ≡ kept ++ page_request 3 7 ∷ [])
    × ((q : RenderRequest)
        → lookup q (insert (page_request 3 7) dot cache).entries ≡ (
            if request_eq (page_request 3 7) q
            then some dot
            else if ltb 0 (count q gone)
            then none
            else lookup q cache.entries))
insert-evicts_oldest_example =
    insert-evicts_oldest (page_request 3 7) dot cache cache-Valid (omega arith) absent

abbrev events : List Event
events =
    submitted (page_request 1 7)
    ∷ submitted (page_request 1 7)
    ∷ submitted (page_request 2 7)
    ∷ submitted (page_request 3 7)
    ∷ served
    ∷ []
