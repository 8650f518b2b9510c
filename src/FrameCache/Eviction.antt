-- ===== src/FrameCache/Eviction.antt =====
-- Eviction to the budget in the viewer's tile cache.
use open_pdf_editor.Base.{
  ℕ, ◌-◌, ◌≤◌, ◌≡◌, ◌≢◌, ◌⊎◌, inl, inr, refl, sym, ◌∙◌, subst, true, false, List, [], ◌∷◌, none,
  some, arith, ltb, leb, Bool-cases, Option-cases,
}
use open_pdf_editor.Render.{RenderRequest, request_eq, request_eq_iff}
use open_pdf_editor.Render.RequestMap.{
  lookup, remove, count_key, total, hit, count_key-remove, total-remove, lookup-remove_ne,
  request_eq_self, lookup_of_count_key_zero,
}
use open_pdf_editor.FrameCache.{
  CacheEntry, TileCache, entry_bytes, candidates, sort_by_tick, drop_entry, evict_each,
  evict_to_budget,
}
use open_pdf_editor.FrameCache.Counting.{
  count_tick, count_tick-sort_by_tick, candidate_of_old, no_candidate_of_protected,
}

ne_of_hit : (r q : RenderRequest) → hit r q ≡ 0 → r ≢ q
ne_of_hit r q h e = absurd (ground (arith, e, h, request_eq_iff q r))

module _ {T : Type 0} where
  -- Each request has one entry at most, and the bytes counted are those of the entries.
  pub record Valid (c : TileCache T) : Type 0 where
    pub once : (r : RenderRequest) → count_key r c.entries ≤ 1
    pub counted : c.used_bytes ≡ total entry_bytes c.entries

  -- What dropping some of `ps` comes to.
  abbrev Dropped : List (RenderRequest × ℕ) → TileCache T → TileCache T → Type 0
  Dropped ps c c' =
      Valid c'
      × (c'.budget_bytes ≡ c.budget_bytes)
      × ((r : RenderRequest) → lookup r c.entries ≡ none → lookup r c'.entries ≡ none)
      × ((r : RenderRequest) → count_tick r ps ≡ 0 → lookup r c'.entries ≡ lookup r c.entries)
      × ((c'.used_bytes ≤ c.budget_bytes)
          ⊎ ((r : RenderRequest) → 1 ≤ count_tick r ps → lookup r c'.entries ≡ none))

  abbrev dropped : RenderRequest → CacheEntry T → TileCache T → TileCache T
  dropped r e c = record c { entries = remove r c.entries; used_bytes = c.used_bytes - e.bytes }

  dropped-Valid :
      (r : RenderRequest) (c : TileCache T) {e : CacheEntry T}
      → Valid c
      → lookup r c.entries ≡ some e
      → Valid (dropped r e c)
  dropped-Valid r c v f = record {
    once = λ q. omega (arith, v.once q, count_key-remove q r c.entries f);
    counted = omega (arith, v.counted, total-remove entry_bytes r c.entries f);
  }

  dropped-none :
      (r : RenderRequest) (c : TileCache T) {e : CacheEntry T}
      → Valid c
      → lookup r c.entries ≡ some e
      → lookup r (remove r c.entries) ≡ none
  dropped-none r c v f =
      lookup_of_count_key_zero r (remove r c.entries)
        (ground (arith, v.once r, count_key-remove r r c.entries f, request_eq_self r))

  -- One turn of the loop: `q` is no longer cached, and the others are as before.
  abbrev Turn : RenderRequest → TileCache T → TileCache T → Type 0
  Turn q c c' =
      Valid c'
      × (c'.budget_bytes ≡ c.budget_bytes)
      × (lookup q c'.entries ≡ none)
      × ((r : RenderRequest) → lookup r c.entries ≡ none → lookup r c'.entries ≡ none)
      × ((r : RenderRequest) → hit r q ≡ 0 → lookup r c'.entries ≡ lookup r c.entries)

  same_or_none :
      (q r : RenderRequest) (c : TileCache T) {e : CacheEntry T}
      → Valid c
      → lookup q c.entries ≡ some e
      → lookup r c.entries ≡ none
      → lookup r (remove q c.entries) ≡ none
  same_or_none q r c v f g =
      lookup-remove_ne r q c.entries (λ p. absurd (ground (arith, p, f, g))) ∙ g

  drop_entry-Turn :
      (q : RenderRequest) (c : TileCache T) (n : ℕ) → Valid c → Turn q c (drop_entry q c n).0
  drop_entry-Turn q c n v = elim (Option-cases (lookup q c.entries)) [
    | inl e ↦
        subst (Turn q c) {x = c} {y = (drop_entry q c n).0} (ground (arith, e))
          (v, refl, e, λ r h. h, λ r h. refl)
    | inr (x, e) ↦
        subst (Turn q c) {x = dropped q x c} {y = (drop_entry q c n).0} (ground (arith, e)) (
          dropped-Valid q c v e,
          refl,
          dropped-none q c v e,
          λ r h. same_or_none q r c v e h,
          λ r h. lookup-remove_ne r q c.entries (ne_of_hit r q h),
        )
  ]

  Dropped-cons :
      (p : RenderRequest × ℕ) (ps : List (RenderRequest × ℕ)) (c c1 c2 : TileCache T)
      → Turn p.0 c c1
      → Dropped ps c1 c2
      → Dropped (p ∷ ps) c c2
  unfolding count_tick
  Dropped-cons p ps c c1 c2 (_, b1, gone, keeps, same) (w, b2, keeps2, same2, last) = (
    w,
    b2 ∙ b1,
    λ r h. keeps2 r (keeps r h),
    λ r h. same2 r (omega (arith, h)) ∙ same r (omega (arith, h)),
    elim last [
      | inl fits ↦ inl (omega (arith, fits, b1))
      | inr all ↦ inr (λ r h. elim (Bool-cases (request_eq p.0 r)) [
        | inl e ↦
            keeps2 r (subst (λ q. lookup q c1.entries ≡ none) ((request_eq_iff p.0 r).0 e) gone)
        | inr e ↦ all r (ground (arith, h, e))
      ])
    ],
  )

  evict_each_stop :
      (ps : List (RenderRequest × ℕ)) (c : TileCache T) (n : ℕ)
      → leb c.used_bytes c.budget_bytes ≡ true
      → evict_each ps c n ≡ (c, n)
  unfolding evict_each
  evict_each_stop [] c n h = refl
  evict_each_stop (p ∷ ps) c n h = ground (arith, h)

  evict_each_more :
      (p : RenderRequest × ℕ) (ps : List (RenderRequest × ℕ)) (c : TileCache T) (n : ℕ)
      → leb c.used_bytes c.budget_bytes ≡ false
      → evict_each (p ∷ ps) c n ≡ evict_each ps (drop_entry p.0 c n).0 (drop_entry p.0 c n).1
  unfolding evict_each
  evict_each_more p ps c n h = rw (h, evict_each) refl

  evict_each-Dropped :
      (ps : List (RenderRequest × ℕ)) (c : TileCache T) (n : ℕ)
      → Valid c
      → Dropped ps c (evict_each ps c n).0
  unfolding count_tick evict_each
  evict_each-Dropped [] c n v = (v, refl, λ r h. h, λ r h. refl, inr (λ r h. absurd (omega arith)))
  evict_each-Dropped (p ∷ ps) c n v =
      let t = drop_entry-Turn p.0 c n v in
      let ih = evict_each-Dropped ps (drop_entry p.0 c n).0 (drop_entry p.0 c n).1 t.0 in
      elim (Bool-cases (leb c.used_bytes c.budget_bytes)) [
        | inl e ↦
            subst (λ x. Dropped (p ∷ ps) c x.0) (sym (evict_each_stop (p ∷ ps) c n e))
              (v, refl, λ r h. h, λ r h. refl, inl (ground (arith, e)))
        | inr e ↦
            subst (λ x. Dropped (p ∷ ps) c x.0) (sym (evict_each_more p ps c n e))
              (Dropped-cons p ps c (drop_entry p.0 c n).0
                (evict_each ps (drop_entry p.0 c n).0 (drop_entry p.0 c n).1).0 t ih)
      ]

  -- What eviction for a frame comes to: nothing used in it goes, and unless the bytes are within
  -- the budget, nothing else is left.
  abbrev pub Evicted : ℕ → TileCache T → TileCache T → Type 0
  Evicted since c c' =
      Valid c'
      × ((r : RenderRequest) (e : CacheEntry T)
          → lookup r c.entries ≡ some e
          → since ≤ e.last_used
          → lookup r c'.entries ≡ some e)
      × ((c'.used_bytes ≤ c.budget_bytes)
          ⊎ ((r : RenderRequest) (e : CacheEntry T)
              → lookup r c'.entries ≡ some e
              → since ≤ e.last_used))

  kept :
      (since : ℕ) (ps : List (RenderRequest × ℕ)) (c c' : TileCache T)
      → ((r : RenderRequest) → count_tick r ps ≡ count_tick r (candidates since c.entries))
      → Valid c
      → Dropped ps c c'
      → (r : RenderRequest) (e : CacheEntry T) → lookup r c.entries ≡ some e
      → since ≤ e.last_used
      → lookup r c'.entries ≡ some e
  kept since ps c c' k v (_, _, _, same, _) r e h le =
      same r (k r ∙ no_candidate_of_protected since r c.entries (v.once r) h le) ∙ h

  protected :
      (since : ℕ) (ps : List (RenderRequest × ℕ)) (c c' : TileCache T)
      → ((r : RenderRequest) → count_tick r ps ≡ count_tick r (candidates since c.entries))
      → Valid c
      → Dropped ps c c'
      → ((r : RenderRequest) → 1 ≤ count_tick r ps → lookup r c'.entries ≡ none)
      → (r : RenderRequest) (e : CacheEntry T) → lookup r c'.entries ≡ some e
      → since ≤ e.last_used
  protected since ps c c' k v d all r e h = elim (Option-cases (lookup r c.entries)) [
    | inl f ↦ absurd (ground (arith, h, d.2 r f))
    | inr (x, f) ↦ elim (Bool-cases (ltb x.last_used since)) [
      | inl old ↦ absurd (
          ground (arith, h, k r, all r, candidate_of_old since r c.entries f (ground (arith, old))))
      | inr new ↦
          let le : since ≤ x.last_used = ground (arith, new) in
          ground (arith, h, le, kept since ps c c' k v d r x f le)
    ]
  ]

  Dropped-Evicted :
      (since : ℕ) (ps : List (RenderRequest × ℕ)) (c c' : TileCache T)
      → ((r : RenderRequest) → count_tick r ps ≡ count_tick r (candidates since c.entries))
      → Valid c
      → Dropped ps c c'
      → Evicted since c c'
  Dropped-Evicted since ps c c' k v d = (
    d.0,
    kept since ps c c' k v d,
    elim d.4 [ inl fits ↦ inl fits | inr all ↦ inr (protected since ps c c' k v d all) ],
  )

  -- Evicting to the budget keeps the cache valid and every entry used in this frame; afterwards the
  -- bytes are within the budget, or every entry left was used in this frame.
  pub evict_to_budget-Evicted :
      (since : ℕ) (c : TileCache T) → Valid c → Evicted since c (evict_to_budget since c).0
  unfolding evict_to_budget
  evict_to_budget-Evicted since c v =
      let ps = sort_by_tick (candidates since c.entries) in
      elim (Bool-cases (leb c.used_bytes c.budget_bytes)) [
        | inl e ↦
            subst (Evicted since c) {x = c} {y = (evict_to_budget since c).0} (ground (arith, e))
              (v, λ r x h le. h, inl (ground (arith, e)))
        | inr e ↦
            subst (Evicted since c) {x = (evict_each ps c 0).0} {y = (evict_to_budget since c).0}
              (ground (arith, e))
              (Dropped-Evicted since ps c (evict_each ps c 0).0
                (λ r. count_tick-sort_by_tick r (candidates since c.entries)) v
                (evict_each-Dropped ps c 0 v))
      ]
