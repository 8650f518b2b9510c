-- ===== src/Textures/Filing.antt =====
-- That no tile of another document or revision is filed, and that every response is counted.
use open_pdf_editor.Base.{
  ◌≢◌, ◌<◌, ◌≤◌, ℕ, zero, suc, ◌+◌, ◌-◌, ◌≡◌, refl, ap, ◌∙◌, true, List, [], ◌∷◌, All, length,
  get_elem?, modify, none, some, arith, leb, if-both, Bool-cases, Option-cases, inl, inr,
}
use open_pdf_editor.Document.{DocumentSnapshot}
use open_pdf_editor.Render.{RenderRequest, RenderResponse, ready, failed, response_request, Tile}
use open_pdf_editor.Render.RequestMap.{lookup, remove}
use open_pdf_editor.RenderCache.Entries.{remove-All}
use open_pdf_editor.FrameCache.{
  TileCache, CacheEntry, clear_pending, insert, note_failed, evict_to_budget, evict_each,
  drop_entry, sort_by_tick, candidates,
}
use open_pdf_editor.Textures.{
  AbsorbReport, no_report, is_drawn, position_pending, owner_of, file, absorb_into, count_response,
  absorb_each, evict_first, absorb_responses_routed,
}

module _ {T : Type 0} (Holds : RenderRequest × CacheEntry T → Type 0) where
  drop_entry-All :
      (r : RenderRequest) (c : TileCache T) (n : ℕ)
      → All Holds c.entries
      → All Holds (drop_entry r c n).0.entries
  drop_entry-All r c n h =
      elim (lookup r c.entries)
        as (λ o.
          All Holds
            (elim o as (λ x. TileCache T × ℕ) [
              | none ↦ (c, n)
              | some e ↦ (
                record c { entries = remove r c.entries; used_bytes = c.used_bytes - e.bytes },
                n + 1,
              )
            ]).0.entries) [ none ↦ h | some e ↦ remove-All Holds r c.entries h ]

  evict_each-All :
      (ps : List (RenderRequest × ℕ)) (c : TileCache T) (n : ℕ)
      → All Holds c.entries
      → All Holds (evict_each ps c n).0.entries
  unfolding evict_each
  evict_each-All [] c n h = h
  evict_each-All (p ∷ ps) c n h =
      let (c', n') = drop_entry p.0 c n in
      if-both (λ (x : TileCache T × ℕ). All Holds x.0.entries) (leb c.used_bytes c.budget_bytes)
        (c, n) (evict_each ps c' n') h (evict_each-All ps c' n' (drop_entry-All p.0 c n h))

  evict_to_budget-All :
      (since : ℕ) (c : TileCache T)
      → All Holds c.entries
      → All Holds (evict_to_budget since c).0.entries
  unfolding evict_to_budget
  evict_to_budget-All since c h =
      if-both (λ (x : TileCache T × ℕ). All Holds x.0.entries) (leb c.used_bytes c.budget_bytes)
        (c, 0) _ h (evict_each-All (sort_by_tick (candidates since c.entries)) c 0 h)

modify-All :
    {A : Type 0} (P : A → Type 0) (f : A → A) (xs : List A) (i : ℕ)
    → ((x : A) → P x → P (f x))
    → All P xs
    → All P (modify f xs i)
modify-All P f [] i k h = tt
modify-All P f (x ∷ xs) zero k (h, hs) = (k x h, hs)
modify-All P f (x ∷ xs) (suc i) k (h, hs) = (h, modify-All P f xs i k hs)

length-modify : {A : Type 0} (f : A → A) (xs : List A) (i : ℕ) → length (modify f xs i) ≡ length xs
length-modify f [] i = refl
length-modify f (x ∷ xs) zero = refl
length-modify f (x ∷ xs) (suc i) = ap suc (length-modify f xs i)

module _ {T : Type 0} (load_texture : RenderRequest → Tile → T) (drawn : DocumentSnapshot) where
  -- an entry of the document and the revision that are drawn
  abbrev pub IsDrawn : RenderRequest × CacheEntry T → Type 0
  IsDrawn (r, e) = (r.document ≡ drawn.document) × (r.revision ≡ drawn.revision)

  abbrev pub AllDrawn : TileCache T → Type 0
  AllDrawn c = All IsDrawn c.entries

  file-AllDrawn :
      (response : RenderResponse) (c : TileCache T)
      → is_drawn drawn (response_request response) ≡ true
      → AllDrawn c
      → AllDrawn (file load_texture drawn response c)
  unfolding insert note_failed
  file-AllDrawn (ready r t) c h k =
      ((ground (arith, h), ground (arith, h)), remove-All IsDrawn r c.entries k)
  file-AllDrawn (failed r) c h k = k

  absorb_into-AllDrawn :
      (response : RenderResponse) (c : TileCache T)
      → AllDrawn c
      → AllDrawn (absorb_into load_texture drawn response c)
  unfolding absorb_into clear_pending
  absorb_into-AllDrawn response c k =
      elim (Bool-cases (is_drawn drawn (response_request response))) [
        | inl e ↦ rw e (file-AllDrawn response c e k)
        | inr e ↦ rw e k
      ]

  -- the responses counted so far
  abbrev answered : AbsorbReport → ℕ
  answered report = report.stored + report.failed + report.discarded

  count_response-answered :
      (response : RenderResponse) (report : AbsorbReport)
      → answered (count_response load_texture drawn response report) ≡ answered report + 1
  unfolding count_response
  count_response-answered (ready r t) report = elim (Bool-cases (is_drawn drawn r)) [
    | inl e ↦ rw e (omega arith)
    | inr e ↦ rw e (omega arith)
  ]
  count_response-answered (failed r) report = elim (Bool-cases (is_drawn drawn r)) [
    | inl e ↦ rw e (omega arith)
    | inr e ↦ rw e (omega arith)
  ]

  absorb_each-AllDrawn :
      (responses : List RenderResponse) (caches : List (TileCache T)) (report : AbsorbReport)
      → All AllDrawn caches
      → All AllDrawn (absorb_each load_texture drawn responses caches report).0
  unfolding absorb_each
  absorb_each-AllDrawn [] caches report h = h
  absorb_each-AllDrawn (response ∷ responses) caches report h =
      let owner = owner_of load_texture drawn (response_request response) caches in
      elim (Option-cases (get_elem? caches owner)) [
        | inl e ↦ rw (absorb_each, e) (absorb_each-AllDrawn responses caches report h)
        | inr (c, e) ↦
            let kept =
              modify-All AllDrawn (absorb_into load_texture drawn response) caches owner
                (absorb_into-AllDrawn response) h in
            rw (absorb_each, e)
              (absorb_each-AllDrawn responses _ (count_response load_texture drawn response report)
                kept)
      ]

  position_pending-lt :
      (r : RenderRequest) (caches : List (TileCache T)) {i : ℕ}
      → position_pending load_texture drawn r caches ≡ some i
      → i < length caches
  unfolding position_pending
  position_pending-lt r [] h = absurd (cc)
  position_pending-lt r (c ∷ cs) {i} h =
      elim (Option-cases (position_pending load_texture drawn r cs)) [
        | inl e ↦ ground (arith, e, h)
        | inr (j, e) ↦ let l = position_pending-lt r cs e in ground (arith, e, h, l)
      ]

  owner_of-lt :
      (r : RenderRequest) (caches : List (TileCache T))
      → 1 ≤ length caches
      → owner_of load_texture drawn r caches < length caches
  owner_of-lt r caches h = elim (Option-cases (position_pending load_texture drawn r caches)) [
    | inl e ↦ rw e h
    | inr (i, e) ↦ rw e (position_pending-lt r caches e)
  ]

  get_elem?-of_lt : {A : Type 0} (xs : List A) (i : ℕ) → i < length xs → get_elem? xs i ≢ none
  get_elem?-of_lt [] i h k = omega (arith, h)
  get_elem?-of_lt (x ∷ xs) zero h k = absurd (cc)
  get_elem?-of_lt (x ∷ xs) (suc i) h k = get_elem?-of_lt xs i (omega arith) k

  absorb_each-answered :
      (responses : List RenderResponse) (caches : List (TileCache T)) (report : AbsorbReport)
      → 1 ≤ length caches
      → (answered (absorb_each load_texture drawn responses caches report).1
          ≡ answered report + length responses)
        × (length (absorb_each load_texture drawn responses caches report).0 ≡ length caches)
  unfolding absorb_each
  absorb_each-answered [] caches report h = (omega arith, refl)
  absorb_each-answered (response ∷ responses) caches report h =
      let r = response_request response in
      let owner = owner_of load_texture drawn r caches in
      elim (Option-cases (get_elem? caches owner)) [
        | inl e ↦ absurd (get_elem?-of_lt caches owner (owner_of-lt r caches h) e)
        | inr (c, e) ↦
            let caches' = modify (absorb_into load_texture drawn response) caches owner in
            let same = length-modify (absorb_into load_texture drawn response) caches owner in
            let one = count_response-answered response report in
            let (n, l) =
              absorb_each-answered responses caches'
                (count_response load_texture drawn response report) (omega (arith, same, h)) in
            rw (absorb_each, e) (omega (arith, n, one), l ∙ same)
      ]

  evict_first-kept :
      (since : ℕ) (absorbed : List (TileCache T) × AbsorbReport)
      → All AllDrawn absorbed.0
      → All AllDrawn (evict_first load_texture drawn since absorbed).0
        × (answered (evict_first load_texture drawn since absorbed).1 ≡ answered absorbed.1)
  evict_first-kept since ([], report) h = (tt, refl)
  evict_first-kept since (c ∷ cs, report) (h, hs) =
      ((evict_to_budget-All IsDrawn since c h, hs), refl)

  length-evict_first :
      (since : ℕ) (absorbed : List (TileCache T) × AbsorbReport)
      → length (evict_first load_texture drawn since absorbed).0 ≡ length absorbed.0
  length-evict_first since ([], report) = refl
  length-evict_first since (c ∷ cs, report) = refl

  pub length-absorb_responses_routed :
      (canvas : TileCache T) (others : List (TileCache T)) (responses : List RenderResponse)
      (since : ℕ)
      → length (absorb_responses_routed load_texture drawn (canvas ∷ others) responses since).0
        ≡ length (canvas ∷ others)
  unfolding absorb_responses_routed
  length-absorb_responses_routed canvas others responses since =
      let (_, l) = absorb_each-answered responses (canvas ∷ others) no_report (omega arith) in
      length-evict_first since
        (absorb_each load_texture drawn responses (canvas ∷ others) no_report)
      ∙ l

  -- Where all caches hold tiles of the document and the revision that are drawn alone, they do so
  -- after the responses are filed, whatever responses arrive; and with at least one cache, each
  -- response is counted once, as stored, failed or discarded.
  pub absorb_responses_routed-AllDrawn :
      (canvas : TileCache T) (others : List (TileCache T)) (responses : List RenderResponse)
      (since : ℕ)
      → All AllDrawn (canvas ∷ others)
      → let (caches, report) =
          absorb_responses_routed load_texture drawn (canvas ∷ others) responses since in
        All AllDrawn caches × (report.stored + report.failed + report.discarded ≡ length responses)
  unfolding absorb_responses_routed
  absorb_responses_routed-AllDrawn canvas others responses since h =
      let absorbed = absorb_each load_texture drawn responses (canvas ∷ others) no_report in
      let (kept, counted) =
        evict_first-kept since absorbed
          (absorb_each-AllDrawn responses (canvas ∷ others) no_report h) in
      let (n, _) = absorb_each-answered responses (canvas ∷ others) no_report (omega arith) in
      (kept, counted ∙ n ∙ omega arith)
