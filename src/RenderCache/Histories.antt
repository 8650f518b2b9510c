-- ===== src/RenderCache/Histories.antt =====
-- Every operation of the worker's tile cache keeps it valid, and what it serves afterwards.
use open_pdf_editor.Base.{
  ℕ, ◌+◌, ◌≤◌, ◌<◌, ◌≡◌, refl, sym, ap, ◌∙◌, List, [], ◌∷◌, ◌++◌, length, none, some, arith, ltb,
  ◌==◌, if◌then◌else◌, Option-cases, Bool-cases, inl, inr, subst,
}
use open_pdf_editor.Render.{RenderRequest, Tile, request_eq, request_eq_iff}
use open_pdf_editor.Render.RequestMap.{
  lookup, total, count, count_key, erase, count-append, count-erase, count-keep,
  count_key_of_lookup, count_key_of_lookup_none, count_key-retain, total-retain-le, lookup-retain,
}
use open_pdf_editor.RenderCache.{
  TileCache, with_budget, size, touch, get, make_room, store, insert, retain_revision, at_revision,
}
use open_pdf_editor.RenderCache.Eviction.{Valid, Evicted, Roomy, make_room-Valid}

count-touch :
    (c : TileCache) (q r : RenderRequest)
    → 1 ≤ count q c.recency
    → count r (touch q c).recency ≡ count r c.recency
unfolding count
count-touch c q r h =
    omega (arith, count-append r (erase q c.recency) (q ∷ []), count-erase r q c.recency h)

touch-Valid :
    (c : TileCache) (q : RenderRequest) {t : Tile}
    → Valid c
    → lookup q c.entries ≡ some t
    → Valid (touch q c)
touch-Valid c q v e =
    let present = v.same q ∙ refl in
    let held = count_key_of_lookup q c.entries e in
    record {
      same = λ r. omega (arith, v.same r, v.same q, count-touch c q r (omega arith));
      once = λ r. omega (arith, v.once r, count-touch c q r (omega arith));
      counted = v.counted;
      fits = v.fits;
    }

get-Valid : (r : RenderRequest) (c : TileCache) → Valid c → Valid (get r c).1
unfolding get
get-Valid r c v = elim (Option-cases (lookup r c.entries)) [
  | inl e ↦ rw (e, get) v
  | inr (t, e) ↦ rw (e, get) (touch-Valid c r v e)
]

store-Valid :
    (r : RenderRequest) (t : Tile) (c : TileCache)
    → Valid c
    → lookup r c.entries ≡ none
    → c.bytes + size t ≤ c.budget_bytes
    → Valid (store r t c)
unfolding count count_key total
store-Valid r t c v e h =
    let absent = count_key_of_lookup_none r c.entries e in
    record {
      same = λ q. omega (arith, v.same q, count-append q c.recency (r ∷ []));
      once = λ q.
          ground (arith, v.once q, v.same r, count-append q c.recency (r ∷ []), request_eq_iff r q);
      counted = omega (arith, v.counted);
      fits = h;
    }

insert_absent :
    (r : RenderRequest) (t : Tile) (c : TileCache)
    → size t ≤ c.budget_bytes
    → lookup r c.entries ≡ none
    → insert r t c ≡ store r t (make_room (length c.recency) (size t) c)
unfolding insert
insert_absent r t c h e = ground (arith, e)

insert_present :
    (r : RenderRequest) (t : Tile) (c : TileCache) {u : Tile}
    → size t ≤ c.budget_bytes
    → lookup r c.entries ≡ some u
    → insert r t c ≡ touch r c
unfolding insert
insert_present r t c h e = ground (arith, e)

insert_large :
    (r : RenderRequest) (t : Tile) (c : TileCache) → c.budget_bytes < size t → insert r t c ≡ c
unfolding insert
insert_large r t c h = ground arith

room :
    (t : Tile) (c : TileCache)
    → Valid c
    → size t ≤ c.budget_bytes
    → Roomy (size t) c (make_room (length c.recency) (size t) c)
room t c v h = make_room-Valid (length c.recency) (size t) c c.recency v refl (omega arith) h

Evicted-none :
    (r : RenderRequest) (gone : List RenderRequest) (c c' : TileCache)
    → Evicted gone c c'
    → lookup r c.entries ≡ none
    → lookup r c'.entries ≡ none
Evicted-none r gone c c' (_, f, _) e = ground (arith, f r, e)

insert-Valid : (r : RenderRequest) (t : Tile) (c : TileCache) → Valid c → Valid (insert r t c)
insert-Valid r t c v = elim (Bool-cases (ltb c.budget_bytes (size t))) [
  | inl h ↦ subst Valid (sym (insert_large r t c (ground (arith, h)))) v
  | inr h ↦ elim (Option-cases (lookup r c.entries)) [
    | inr (u, e) ↦
        subst Valid (sym (insert_present r t c (ground (arith, h)) e)) (touch-Valid c r v e)
    | inl e ↦
        let (w, fits, (gone, (a, f, b))) = room t c v (ground (arith, h)) in
        let c1 = make_room (length c.recency) (size t) c in
        subst Valid (sym (insert_absent r t c (ground (arith, h)) e))
          (store-Valid r t c1 w (Evicted-none r gone c c1 (a, f, b) e) (omega (arith, fits, b)))
  ]
]

retain_revision-Valid :
    (revision : ℕ) (c : TileCache) → Valid c → Valid (retain_revision revision c)
unfolding retain_revision
retain_revision-Valid n c v = record {
  same = λ r. ground (
    arith,
    v.same r,
    count_key-retain r (at_revision n) c.entries,
    count-keep r (at_revision n) c.recency,
  );
  once = λ r. ground (arith, v.once r, count-keep r (at_revision n) c.recency);
  counted = refl;
  fits = omega (arith, v.counted, v.fits, total-retain-le size (at_revision n) c.entries);
}

with_budget-Valid : (budget : ℕ) → Valid (with_budget budget)
unfolding count count_key total
with_budget-Valid budget = record {
  same = λ r. refl;
  once = λ r. omega arith;
  counted = refl;
  fits = omega arith;
}

-- What the worker does with its cache
pub data Use : Type 0 where
  look : RenderRequest → Use
  keep_tile : RenderRequest → Tile → Use
  rebind : ℕ → Use

abbrev use_cache : Use → TileCache → TileCache
use_cache (look r) c = (get r c).1
use_cache (keep_tile r t) c = insert r t c
use_cache (rebind revision) c = retain_revision revision c

unfoldable pub history : List Use → TileCache → TileCache
history [] c = c
history (u ∷ us) c = history us (use_cache u c)

history-Valid_from : (us : List Use) (c : TileCache) → Valid c → Valid (history us c)
unfolding history
history-Valid_from [] c v = v
history-Valid_from (look r ∷ us) c v = history-Valid_from us (get r c).1 (get-Valid r c v)
history-Valid_from (keep_tile r t ∷ us) c v =
    history-Valid_from us (insert r t c) (insert-Valid r t c v)
history-Valid_from (rebind n ∷ us) c v =
    history-Valid_from us (retain_revision n c) (retain_revision-Valid n c v)

-- Whatever lookups, insertions and rebinds an empty cache has seen: every cached request is in the
-- recency list, once, and nothing else is; the byte count is the sum over the cached tiles; and it
-- does not exceed the budget.
pub history-Valid : (budget : ℕ) (us : List Use) → Valid (history us (with_budget budget))
history-Valid budget us = history-Valid_from us (with_budget budget) (with_budget-Valid budget)

-- Inserting a tile that fits the budget under a request that is not cached: the tile is then served,
-- as the most recent; the requests evicted are the oldest ones; all others are served as before.
pub insert-evicts_oldest :
    (r : RenderRequest) (t : Tile) (c : TileCache)
    → Valid c
    → size t ≤ c.budget_bytes
    → lookup r c.entries ≡ none
    → (gone : List RenderRequest) × (kept : List RenderRequest) × (c.recency ≡ gone ++ kept)
      × ((insert r t c).recency ≡ kept ++ r ∷ [])
      × ((q : RenderRequest)
          → lookup q (insert r t c).entries ≡ (
              if request_eq r q
              then some t
              else if ltb 0 (count q gone)
              then none
              else lookup q c.entries))
unfolding lookup
insert-evicts_oldest r t c v h e =
    let (w, fits, (gone, (x, f, y))) = room t c v h in
    let c1 = make_room (length c.recency) (size t) c in
    let g = insert_absent r t c h e in
    (
      gone,
      c1.recency,
      x,
      ap (λ u. u.recency) g,
      λ q. ap (λ u. lookup q u.entries) g ∙ ap (λ o. if request_eq r q then some t else o) (f q),
    )

-- After a rebind the cache serves exactly the tiles of the new revision that it served before.
pub lookup-retain_revision :
    (revision : ℕ) (r : RenderRequest) (c : TileCache)
    → (get r (retain_revision revision c)).0
      ≡ (if r.revision == revision then (get r c).0 else none)
unfolding get retain_revision
lookup-retain_revision n r c = ground (arith, lookup-retain r (at_revision n) c.entries)
