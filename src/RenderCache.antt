-- ===== src/RenderCache.antt =====
-- The worker's tile cache (opdf-render/src/cache.rs) and its queue of pending requests
-- (opdf-render/src/backlog.rs).
pub mod Eviction
pub mod Backlog
pub mod Histories
pub mod Entries
use open_pdf_editor.Base.{
  ℕ, zero, suc, ◌+◌, ◌-◌, ◌*◌, ◌≡◌, Bool, true, false, List, [], ◌∷◌, ◌++◌, length, Option, none,
  some, ltb, leb, ◌==◌, if◌then◌else◌,
}
use open_pdf_editor.Render.{RenderRequest, Tile}
use open_pdf_editor.Render.RequestMap.{
  lookup, remove, retain, total, contains_key, member, erase, keep,
}

abbrev pub default_cache_bytes : ℕ
default_cache_bytes = 256 * 1024 * 1024

-- `recency` is oldest first.
pub record TileCache : Type 0 where
  pub entries : List (RenderRequest × Tile)
  pub recency : List RenderRequest
  pub bytes : ℕ
  pub budget_bytes : ℕ

abbrev pub with_budget : ℕ → TileCache
with_budget budget = record { entries = []; recency = []; bytes = 0; budget_bytes = budget }

abbrev pub size : Tile → ℕ
size t = length t.pixels

-- `erase` drops the first occurrence, and nothing where there is none.
abbrev pub touch : RenderRequest → TileCache → TileCache
touch r c = record c { recency = erase r c.recency ++ r ∷ [] }

unfoldable pub get : RenderRequest → TileCache → Option Tile × TileCache
get r c = elim (lookup r c.entries) [ none ↦ (none, c) | some t ↦ (some t, touch r c) ]

-- the entry of an evicted request taken out
abbrev pub drop_entry : RenderRequest → TileCache → TileCache
drop_entry r c = elim (lookup r c.entries) [
  | none ↦ c
  | some t ↦ record c { entries = remove r c.entries; bytes = c.bytes - size t }
]

unfoldable pub evict_oldest : TileCache → Bool × TileCache
evict_oldest c = elim c.recency [
  | [] ↦ (false, c)
  | oldest ∷ rest ↦ (true, drop_entry oldest (record c { recency = rest }))
]

-- the `while` loop of `insert`, on fuel
unfoldable pub make_room : ℕ → ℕ → TileCache → TileCache
make_room zero tile_bytes c = c
make_room (suc fuel) tile_bytes c =
    let rest = make_room fuel tile_bytes (evict_oldest c).1 in
    if leb (c.bytes + tile_bytes) c.budget_bytes
    then c
    else if (evict_oldest c).0
    then rest
    else (evict_oldest c).1

abbrev pub store : RenderRequest → Tile → TileCache → TileCache
store r t c = record c {
  entries = (r, t) ∷ c.entries;
  recency = c.recency ++ r ∷ [];
  bytes = c.bytes + size t;
}

-- Each turn of the loop takes one request from `recency`, so its length is fuel enough.
unfoldable pub insert : RenderRequest → Tile → TileCache → TileCache
insert r t c =
    if ltb c.budget_bytes (size t)
    then c
    else if contains_key r c.entries
    then touch r c
    else store r t (make_room (length c.recency) (size t) c)

abbrev pub at_revision : ℕ → RenderRequest → Bool
at_revision revision r = r.revision == revision

unfoldable pub retain_revision : ℕ → TileCache → TileCache
retain_revision revision c = record c {
  entries = retain (at_revision revision) c.entries;
  recency = keep (at_revision revision) c.recency;
  bytes = total size (retain (at_revision revision) c.entries);
}
