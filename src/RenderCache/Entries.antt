-- ===== src/RenderCache/Entries.antt =====
-- What holds of every entry of the worker's cache, or of every request in its queue, goes on to hold.
use open_pdf_editor.Base.{
  if-both, ℕ, zero, suc, ◌≡◌, ◌≢◌, refl, subst, Bool, true, false, List, [], ◌∷◌, ◌++◌, All,
  All-append, length, Option, none, some, arith, Bool-cases, Option-cases, inl, inr, ltb, leb, ◌+◌,
  ◌-◌,
}
use open_pdf_editor.Render.{RenderRequest, Tile, request_eq, request_eq_iff}
use open_pdf_editor.Render.RequestMap.{lookup, remove, retain, member, contains_key}
use open_pdf_editor.RenderCache.{
  TileCache, get, touch, drop_entry, evict_oldest, make_room, insert, at_revision, size,
}
use open_pdf_editor.RenderCache.Backlog.{pop_front, Backlog, push, pop_back, take_newest}

module _ {V : Type 0} (Holds : RenderRequest × V → Type 0) where
  pub lookup-All :
      (r : RenderRequest) (m : List (RenderRequest × V)) {v : V}
      → All Holds m
      → lookup r m ≡ some v
      → Holds (r, v)
  unfolding lookup
  lookup-All r [] h e = absurd (cc)
  lookup-All r ((k, w) ∷ m) {v} (h, hs) e = elim (Bool-cases (request_eq k r)) [
    | inl same ↦
        let p : (k, w) ≡ (r, v) = ground (arith, same, request_eq_iff k r) in subst Holds p h
    | inr other ↦ lookup-All r m hs (ground arith)
  ]

  pub remove-All :
      (r : RenderRequest) (m : List (RenderRequest × V)) → All Holds m → All Holds (remove r m)
  unfolding remove
  remove-All r [] h = tt
  remove-All r ((k, w) ∷ m) (h, hs) = elim (Bool-cases (request_eq k r)) [
    | inl same ↦ rw same hs
    | inr other ↦ rw other (h, remove-All r m hs)
  ]

module _ (Holds : RenderRequest × Tile → Type 0) where
  drop_entry-All :
      (r : RenderRequest) (c : TileCache) → All Holds c.entries → All Holds (drop_entry r c).entries
  drop_entry-All r c h =
      elim (lookup r c.entries)
        as (λ o.
          All Holds
            (elim o as (λ x. TileCache) [
              | none ↦ c
              | some t ↦ record c { entries = remove r c.entries; bytes = c.bytes - size t }
            ]).entries) [ none ↦ h | some t ↦ remove-All Holds r c.entries h ]

  evict_oldest-All : (c : TileCache) → All Holds c.entries → All Holds (evict_oldest c).1.entries
  unfolding evict_oldest
  evict_oldest-All c h =
      elim c.recency
        as (λ qs.
          All Holds
            (elim qs as (λ x. Bool × TileCache) [
              | [] ↦ (false, c)
              | oldest ∷ rest ↦ (true, drop_entry oldest (record c { recency = rest }))
            ]).1.entries) [
              | [] ↦ h
              | oldest ∷ rest ↦ drop_entry-All oldest (record c { recency = rest }) h
            ]

  make_room-All :
      (fuel tile_bytes : ℕ) (c : TileCache)
      → All Holds c.entries
      → All Holds (make_room fuel tile_bytes c).entries
  unfolding make_room
  make_room-All zero tile_bytes c h = h
  make_room-All (suc fuel) tile_bytes c h =
      let one = evict_oldest-All c h in
      let rest = make_room-All fuel tile_bytes (evict_oldest c).1 one in
      if-both (λ d. All Holds d.entries) (leb (c.bytes + tile_bytes) c.budget_bytes) c _ h
        (if-both (λ d. All Holds d.entries) (evict_oldest c).0
          (make_room fuel tile_bytes (evict_oldest c).1) (evict_oldest c).1 rest one)

  pub insert-All :
      (r : RenderRequest) (t : Tile) (c : TileCache)
      → All Holds c.entries
      → Holds (r, t)
      → All Holds (insert r t c).entries
  unfolding insert
  insert-All r t c h k =
      if-both (λ d. All Holds d.entries) (ltb c.budget_bytes (size t)) c _ h
        (if-both (λ d. All Holds d.entries) (contains_key r c.entries) (touch r c) _ h
          (k, make_room-All (length c.recency) (size t) c h))

  pub get-All :
      (r : RenderRequest) (c : TileCache)
      → All Holds c.entries
      → All Holds (get r c).1.entries × ((t : Tile) → (get r c).0 ≡ some t → Holds (r, t))
  unfolding get
  get-All r c h = elim (Option-cases (lookup r c.entries)) [
    | inl e ↦ rw (get, e) (h, λ t k. absurd (cc))
    | inr (v, e) ↦
        rw (get, e)
          (h, λ t k. subst (λ x. Holds (r, x)) (ground arith) (lookup-All Holds r c.entries h e))
  ]

-- a new revision leaves nothing of one other revision
pub retain_revision-none :
    (old new : ℕ) (m : List (RenderRequest × Tile))
    → old ≢ new
    → All (λ e. e.0.revision ≡ old) m
    → retain (at_revision new) m ≡ []
unfolding retain
retain_revision-none old new [] ne h = refl
retain_revision-none old new ((k, v) ∷ m) ne (h, hs) =
    ground (arith, retain_revision-none old new m ne hs)

module _ (Holds : RenderRequest → Type 0) where
  pop_back-All :
      (qs : List RenderRequest) {newest : RenderRequest} {rest : List RenderRequest}
      → All Holds qs
      → pop_back qs ≡ some (newest, rest)
      → Holds newest × All Holds rest
  unfolding pop_back
  pop_back-All [] h e = absurd (cc)
  pop_back-All (q ∷ qs) {newest} {rest} (h, hs) e = elim (Option-cases (pop_back qs)) [
    | inl f ↦
        let same : q ≡ newest = ground arith in
        let none_left : [] ≡ rest = ground arith in
        (subst Holds same h, subst (All Holds) none_left tt)
    | inr ((n, left), f) ↦
        let (k, ks) = pop_back-All qs {newest = n} {rest = left} hs f in
        let same : n ≡ newest = ground arith in
        let others : q ∷ left ≡ rest = ground arith in
        (subst Holds same k, subst (All Holds) others (h, ks))
  ]

  pub take_newest-All :
      (b : Backlog)
      → All Holds b.queued
      → All Holds (take_newest b).1.queued
        × ((r : RenderRequest) → (take_newest b).0 ≡ some r → Holds r)
  unfolding take_newest
  take_newest-All b h = elim (Option-cases (pop_back b.queued)) [
    | inl e ↦ rw (take_newest, e) (h, λ r k. absurd (cc))
    | inr ((newest, rest), e) ↦
        let (k, ks) = pop_back-All b.queued h e in
        rw (take_newest, e) (ks, λ r same. subst Holds (ground arith) k)
  ]

  pop_front-All :
      (capacity : ℕ) (qs : List RenderRequest)
      → All Holds qs
      → All Holds (pop_front capacity qs).1.queued
  pop_front-All capacity [] h = tt
  pop_front-All capacity (q ∷ qs) h = h.1

  pub push-All :
      (r : RenderRequest) (b : Backlog)
      → All Holds b.queued
      → Holds r
      → All Holds (push r b).1.queued
  unfolding push
  push-All r b h k =
      let longer = All-append Holds b.queued (r ∷ []) h (k, tt) in
      if-both (λ (p : Option RenderRequest × Backlog). All Holds p.1.queued) (member r b.queued)
        (none, b) _ h
        (if-both (λ (p : Option RenderRequest × Backlog). All Holds p.1.queued)
          (ltb b.capacity (length (b.queued ++ r ∷ []))) _ _
          (pop_front-All b.capacity (b.queued ++ r ∷ []) longer) longer)
