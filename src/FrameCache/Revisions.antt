-- ===== src/FrameCache/Revisions.antt =====
-- A new revision in the viewer's tile cache.
use open_pdf_editor.Base.{
  ℕ, ◌+◌, ◌^◌, ◌<◌, ◌≡◌, refl, none, List, [], ◌∷◌, arith, ◌==◌, if◌then◌else◌,
}
use open_pdf_editor.Render.{RenderRequest}
use open_pdf_editor.Render.RequestMap.{lookup, retain, total, count_key-retain, lookup-retain}
use open_pdf_editor.FrameCache.{
  CacheEntry, TileCache, entry_bytes, at_revision, freed_bytes, retain_revision,
}
use open_pdf_editor.FrameCache.Eviction.{Valid}

module _ {T : Type 0} (revision : ℕ) where
  freed_bytes_lem :
      (m : List (RenderRequest × CacheEntry T)) (freed : ℕ)
      → freed + total entry_bytes m < 2 ^ 64
      → freed_bytes revision m freed + total entry_bytes (retain (at_revision revision) m)
        ≡ freed + total entry_bytes m
  unfolding freed_bytes total retain
  freed_bytes_lem [] freed h = refl
  freed_bytes_lem ((k, e) ∷ m) freed h =
      ground (arith, freed_bytes_lem m freed, freed_bytes_lem m (freed + e.bytes))

  -- After a revision change, while the bytes counted are a `usize`, the viewer's cache is valid, and
  -- it holds exactly the entries of the new revision that it held before.
  pub retain_revision-Valid :
      (c : TileCache T)
      → Valid c
      → c.used_bytes < 2 ^ 64
      → Valid (retain_revision revision c)
        × ((r : RenderRequest)
            → lookup r (retain_revision revision c).entries
              ≡ (if r.revision == revision then lookup r c.entries else none))
  unfolding retain_revision
  retain_revision-Valid c v h = (
    record {
      once = λ r. ground (arith, v.once r, count_key-retain r (at_revision revision) c.entries);
      counted = omega (arith, v.counted, freed_bytes_lem c.entries 0 (omega (arith, v.counted)));
    },
    λ r. lookup-retain r (at_revision revision) c.entries,
  )
