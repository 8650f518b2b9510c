-- ===== src/FrameCache.antt =====
-- The viewer's tile cache (opdf-app/src/tiles/cache.rs), over any value: entries with the tick of
-- their last use, and the requests that are pending or were refused.
pub mod Counting
pub mod Eviction
pub mod Revisions
pub mod Accounting
use open_pdf_editor.Base.{
  ℕ, zero, suc, ◌+◌, ◌-◌, ◌^◌, Bool, true, false, ◌&&◌, ◌||◌, not, List, [], ◌∷◌, length, Option,
  none, some, min, ltb, leb, ◌==◌, if◌then◌else◌,
}
use open_pdf_editor.Render.{RenderRequest, request_eq}
use open_pdf_editor.Render.RequestMap.{
  lookup, remove, retain, contains_key, total, member, erase, keep,
}

pub record CacheEntry (T : Type 0) : Type 0 where
  pub value : T
  pub bytes : ℕ
  pub last_used : ℕ

-- `entries` is a `HashMap`, `pending` and `failed` are `HashSet`s.
pub record TileCache (T : Type 0) : Type 0 where
  pub entries : List (RenderRequest × CacheEntry T)
  pub pending : List RenderRequest
  pub failed : List RenderRequest
  pub budget_bytes : ℕ
  pub used_bytes : ℕ
  pub clock : ℕ

-- `saturating_add` of `usize`
abbrev pub saturating_add : ℕ → ℕ → ℕ
saturating_add a b = min (a + b) (2 ^ 64 - 1)

-- `HashSet::insert`
abbrev pub add : RenderRequest → List RenderRequest → List RenderRequest
add r rs = if member r rs then rs else r ∷ rs

abbrev pub at_revision : ℕ → RenderRequest → Bool
at_revision revision r = r.revision == revision

-- `sort_by_key` on the tick, which keeps the order of equal keys
unfoldable pub insert_by_tick :
    RenderRequest × ℕ → List (RenderRequest × ℕ) → List (RenderRequest × ℕ)
insert_by_tick p [] = p ∷ []
insert_by_tick p (q ∷ qs) =
    let rest = insert_by_tick p qs in if leb p.1 q.1 then p ∷ q ∷ qs else q ∷ rest

unfoldable pub sort_by_tick : List (RenderRequest × ℕ) → List (RenderRequest × ℕ)
sort_by_tick [] = []
sort_by_tick (p ∷ ps) = insert_by_tick p (sort_by_tick ps)

module _ {T : Type 0} where
  abbrev pub new : ℕ → TileCache T
  new budget = record {
    entries = [];
    pending = [];
    failed = [];
    budget_bytes = budget;
    used_bytes = 0;
    clock = 0;
  }

  abbrev pub entry_bytes : CacheEntry T → ℕ
  entry_bytes e = e.bytes

  abbrev pub pending_count : TileCache T → ℕ
  pending_count c = length c.pending

  abbrev pub failed_count : TileCache T → ℕ
  failed_count c = length c.failed

  unfoldable pub begin_frame : TileCache T → TileCache T × ℕ
  begin_frame c = (record c { clock = c.clock + 1 }, c.clock + 1)

  -- what `entries.insert` leaves of the bytes counted
  abbrev pub replaced_bytes : RenderRequest → TileCache T → ℕ
  replaced_bytes r c = elim (lookup r c.entries) [
    | none ↦ c.used_bytes
    | some previous ↦ c.used_bytes - previous.bytes
  ]

  unfoldable pub insert : RenderRequest → T → ℕ → TileCache T → TileCache T
  insert r value bytes c = record c {
    entries =
        (r, record { value = value; bytes = bytes; last_used = c.clock + 1 }) ∷ remove r c.entries;
    pending = erase r c.pending;
    failed = erase r c.failed;
    used_bytes = saturating_add (replaced_bytes r c) bytes;
    clock = c.clock + 1;
  }

  abbrev pub mark_used : ℕ → CacheEntry T → CacheEntry T
  mark_used clock e = record e { last_used = clock }

  -- `get_mut`, and a write through it
  unfoldable pub update :
      RenderRequest → ℕ → List (RenderRequest × CacheEntry T) → List (RenderRequest × CacheEntry T)
  update r clock [] = []
  update r clock ((k, e) ∷ m) =
      let rest = update r clock m in
      if request_eq k r then (k, mark_used clock e) ∷ m else (k, e) ∷ rest

  unfoldable pub get : RenderRequest → TileCache T → Option T × TileCache T
  get r c = elim (lookup r c.entries) [
    | none ↦ (none, record c { clock = c.clock + 1 })
    | some e ↦
        (some e.value, record c { entries = update r (c.clock + 1) c.entries; clock = c.clock + 1 })
  ]

  abbrev pub contains : RenderRequest → TileCache T → Bool
  contains r c = contains_key r c.entries

  unfoldable pub wants : RenderRequest → TileCache T → Bool
  wants r c =
      not (contains_key r c.entries) && (not (member r c.pending) && not (member r c.failed))

  unfoldable pub mark_pending : RenderRequest → TileCache T → Bool × TileCache T
  mark_pending r c =
      if not (wants r c) then (false, c) else (true, record c { pending = add r c.pending })

  abbrev pub is_pending : RenderRequest → TileCache T → Bool
  is_pending r c = member r c.pending

  unfoldable pub clear_pending : RenderRequest → TileCache T → TileCache T
  clear_pending r c = record c { pending = erase r c.pending }

  unfoldable pub note_failed : RenderRequest → TileCache T → TileCache T
  note_failed r c = record c { pending = erase r c.pending; failed = add r c.failed }

  abbrev pub has_failed : RenderRequest → TileCache T → Bool
  has_failed r c = member r c.failed

  -- `freed_bytes`, summed while the entries are filtered
  unfoldable pub freed_bytes : ℕ → List (RenderRequest × CacheEntry T) → ℕ → ℕ
  freed_bytes revision [] freed = freed
  freed_bytes revision ((k, e) ∷ m) freed =
      if at_revision revision k
      then freed_bytes revision m freed
      else freed_bytes revision m (saturating_add freed e.bytes)

  unfoldable pub retain_revision : ℕ → TileCache T → TileCache T
  retain_revision revision c = record c {
    entries = retain (at_revision revision) c.entries;
    used_bytes = c.used_bytes - freed_bytes revision c.entries 0;
    pending = keep (at_revision revision) c.pending;
    failed = keep (at_revision revision) c.failed;
  }

  unfoldable pub clear : TileCache T → TileCache T
  clear c = record c { entries = []; pending = []; failed = []; used_bytes = 0 }

  -- the entries that may go, with the tick of their last use
  unfoldable pub candidates : ℕ → List (RenderRequest × CacheEntry T) → List (RenderRequest × ℕ)
  candidates protected_since [] = []
  candidates protected_since ((k, e) ∷ m) =
      let rest = candidates protected_since m in
      if ltb e.last_used protected_since then (k, e.last_used) ∷ rest else rest

  -- one turn of the eviction loop
  abbrev pub drop_entry : RenderRequest → TileCache T → ℕ → TileCache T × ℕ
  drop_entry r c evicted = elim (lookup r c.entries) [
    | none ↦ (c, evicted)
    | some e ↦ (
      record c { entries = remove r c.entries; used_bytes = c.used_bytes - e.bytes },
      evicted + 1,
    )
  ]

  unfoldable pub evict_each : List (RenderRequest × ℕ) → TileCache T → ℕ → TileCache T × ℕ
  evict_each [] c evicted = (c, evicted)
  evict_each (p ∷ ps) c evicted =
      let rest = evict_each ps (drop_entry p.0 c evicted).0 (drop_entry p.0 c evicted).1 in
      if leb c.used_bytes c.budget_bytes then (c, evicted) else rest

  unfoldable pub evict_to_budget : ℕ → TileCache T → TileCache T × ℕ
  evict_to_budget protected_since c =
      if leb c.used_bytes c.budget_bytes
      then (c, 0)
      else evict_each (sort_by_tick (candidates protected_since c.entries)) c 0
