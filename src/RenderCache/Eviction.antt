-- ===== src/RenderCache/Eviction.antt =====
-- Eviction in the worker's tile cache.
use open_pdf_editor.Base.{
  subst, ℕ, zero, suc, ◌+◌, ◌-◌, ◌≤◌, ◌≡◌, refl, sym, ap, ◌∙◌, true, false, List, [], ◌∷◌, ◌++◌,
  length, none, some, arith, ltb, leb, if◌then◌else◌, Option-cases, Bool-cases, inl, inr,
}
use open_pdf_editor.Render.{RenderRequest, Tile, request_eq}
use open_pdf_editor.Render.RequestMap.{
  lookup, remove, total, count, count_key, hit, count_key_of_lookup_none, lookup_of_count_key_zero,
  count_key-remove, total-remove, lookup-remove_ne, request_eq_self,
}
use open_pdf_editor.RenderCache.{TileCache, size, evict_oldest, make_room}

-- Every request in the map is once in the recency list and the other way round, and the bytes
-- counted are those held, within the budget.
pub record Valid (c : TileCache) : Type 0 where
  pub same : (r : RenderRequest) → count_key r c.entries ≡ count r c.recency
  pub once : (r : RenderRequest) → count r c.recency ≤ 1
  pub counted : c.bytes ≡ total size c.entries
  pub fits : c.bytes ≤ c.budget_bytes

-- The requests in `gone`, and only they, are no longer served.
abbrev pub Evicted : List RenderRequest → TileCache → TileCache → Type 0
Evicted gone c c' =
    (c.recency ≡ gone ++ c'.recency)
    × ((r : RenderRequest)
        → lookup r c'.entries ≡ (if ltb 0 (count r gone) then none else lookup r c.entries))
    × (c'.budget_bytes ≡ c.budget_bytes)

entry_of_count :
    (c : TileCache) (r : RenderRequest)
    → Valid c
    → 1 ≤ count r c.recency
    → (t : Tile) × (lookup r c.entries ≡ some t)
entry_of_count c r v h = elim (Option-cases (lookup r c.entries)) [
  | inl e ↦ absurd (omega (arith, v.same r, count_key_of_lookup_none r c.entries e))
  | inr e ↦ e
]

-- One eviction
abbrev evicted : RenderRequest → List RenderRequest → Tile → TileCache → TileCache
evicted q qs t c = record c { entries = remove q c.entries; recency = qs; bytes = c.bytes - size t }

count_of_cons :
    (c : TileCache) {q : RenderRequest} {qs : List RenderRequest} (r : RenderRequest)
    → c.recency ≡ q ∷ qs
    → count r c.recency ≡ hit r q + count r qs
unfolding count
count_of_cons c r e = ap (count r) e

count_of_first :
    (c : TileCache) (q : RenderRequest) {qs : List RenderRequest}
    → c.recency ≡ q ∷ qs
    → 1 ≤ count q c.recency
count_of_first c q e = ground (arith, count_of_cons c q e, request_eq_self q)

evict_oldest-cons :
    (c : TileCache) (q : RenderRequest) (qs : List RenderRequest)
    → Valid c
    → c.recency ≡ q ∷ qs
    → (t : Tile) × (evict_oldest c ≡ (true, evicted q qs t c)) × (lookup q c.entries ≡ some t)
unfolding evict_oldest
evict_oldest-cons c q qs v e =
    let (t, f) = entry_of_count c q v (count_of_first c q e) in (t, ground (arith, e, f), f)

evicted-Valid :
    (c : TileCache) (q : RenderRequest) (qs : List RenderRequest) {t : Tile}
    → Valid c
    → c.recency ≡ q ∷ qs
    → lookup q c.entries ≡ some t
    → Valid (evicted q qs t c)
evicted-Valid c q qs {t} v e f =
    let len = total-remove size q c.entries f in
    record {
      same = λ r. omega (arith, v.same r, count_of_cons c r e, count_key-remove r q c.entries f);
      once = λ r. omega (arith, v.once r, count_of_cons c r e);
      counted = omega (arith, v.counted, len);
      fits = omega (arith, v.fits);
    }

evicted-lookup :
    (c : TileCache) (q : RenderRequest) (qs : List RenderRequest) (r : RenderRequest) {t : Tile}
    → Valid c
    → c.recency ≡ q ∷ qs
    → lookup q c.entries ≡ some t
    → lookup r (remove q c.entries) ≡ (if request_eq q r then none else lookup r c.entries)
evicted-lookup c q qs r v e f = elim (Bool-cases (request_eq q r)) [
  | inl h ↦ rw h (
      lookup_of_count_key_zero r (remove q c.entries)
        (ground (arith, v.same r, v.once r, count_key-remove r q c.entries f, h)))
  | inr h ↦
      rw h (lookup-remove_ne r q c.entries (λ p. absurd (ground (arith, p, h, request_eq_self q))))
]

Evicted-cons :
    (c : TileCache) (q : RenderRequest) (qs gone : List RenderRequest) (c' : TileCache) {t : Tile}
    → Valid c
    → c.recency ≡ q ∷ qs
    → lookup q c.entries ≡ some t
    → Evicted gone (evicted q qs t c) c'
    → Evicted (q ∷ gone) c c'
unfolding count
Evicted-cons c q qs gone c' v e f (a, b, d) =
    (e ∙ ap (q ∷◌) a, λ r. ground (arith, b r, evicted-lookup c q qs r v e f), d)

total_nil :
    (m : List (RenderRequest × Tile)) → ((r : RenderRequest) → count_key r m ≡ 0) → total size m ≡ 0
unfolding count_key total
total_nil [] h = refl
total_nil ((k, t) ∷ m) h = absurd (ground (arith, h k, request_eq_self k))

empty_bytes : (c : TileCache) → Valid c → c.recency ≡ [] → c.bytes ≡ 0
unfolding count
empty_bytes c v e = v.counted ∙ total_nil c.entries (λ r. v.same r ∙ ap (count r) e)

make_room_none :
    (fuel tile_bytes : ℕ) (c : TileCache)
    → leb (c.bytes + tile_bytes) c.budget_bytes ≡ true
    → make_room fuel tile_bytes c ≡ c
unfolding make_room
make_room_none zero tile_bytes c h = refl
make_room_none (suc fuel) tile_bytes c h = ground (arith, h)

make_room_turn :
    (fuel tile_bytes : ℕ) (c : TileCache) {c1 : TileCache}
    → leb (c.bytes + tile_bytes) c.budget_bytes ≡ false
    → evict_oldest c ≡ (true, c1)
    → make_room (suc fuel) tile_bytes c ≡ make_room fuel tile_bytes c1
unfolding make_room
make_room_turn fuel tile_bytes c h e = ground (arith, h, e)

-- What the loop of `insert` reaches: room for the tile, and a run of the oldest requests gone.
abbrev pub Roomy : ℕ → TileCache → TileCache → Type 0
Roomy tile_bytes c c' =
    Valid c'
    × (c'.bytes + tile_bytes ≤ c.budget_bytes)
    × ((gone : List RenderRequest) × Evicted gone c c')

no_recency :
    (c : TileCache) (n : ℕ)
    → Valid c
    → c.recency ≡ []
    → n ≤ c.budget_bytes
    → c.bytes + n ≤ c.budget_bytes
no_recency c n v e k = omega (arith, empty_bytes c v e)

unless-Roomy :
    (fuel tile_bytes : ℕ) (c : TileCache)
    → Valid c
    → (leb (c.bytes + tile_bytes) c.budget_bytes ≡ false
        → Roomy tile_bytes c (make_room fuel tile_bytes c))
    → Roomy tile_bytes c (make_room fuel tile_bytes c)
unfolding count
unless-Roomy fuel tile_bytes c v f = elim (Bool-cases (leb (c.bytes + tile_bytes) c.budget_bytes)) [
  | inl g ↦
      subst (Roomy tile_bytes c) (sym (make_room_none fuel tile_bytes c g))
        (v, ground (arith, g), ([], (refl, λ r. refl, refl)))
  | inr g ↦ f g
]

pub make_room-Valid :
    (fuel tile_bytes : ℕ) (c : TileCache) (qs : List RenderRequest)
    → Valid c
    → c.recency ≡ qs
    → length qs ≤ fuel
    → tile_bytes ≤ c.budget_bytes
    → Roomy tile_bytes c (make_room fuel tile_bytes c)
make_room-Valid fuel tile_bytes c [] v e h k =
    unless-Roomy fuel tile_bytes c v
      (λ f. absurd (ground (arith, f, no_recency c tile_bytes v e k)))
make_room-Valid zero tile_bytes c (q ∷ qs) v e h k = absurd (omega arith)
make_room-Valid (suc fuel) tile_bytes c (q ∷ qs) v e h k =
    let (t, g, m) = evict_oldest-cons c q qs v e in
    let c1 = evicted q qs t c in
    let (w, room, (gone, x)) =
      make_room-Valid fuel tile_bytes c1 qs (evicted-Valid c q qs v e m) refl (omega arith) k in
    unless-Roomy (suc fuel) tile_bytes c v (λ f.
      subst (Roomy tile_bytes c) (sym (make_room_turn fuel tile_bytes c f g))
        (w, room, (q ∷ gone, Evicted-cons c q qs gone (make_room fuel tile_bytes c1) v e m x)))
