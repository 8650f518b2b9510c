-- ===== src/Worker/Revisions.antt =====
-- That no tile is answered that was not rasterized for the snapshot that is current.
use open_pdf_editor.Base.{
  ℕ, zero, suc, ◌≤◌, ◌≡◌, ◌≢◌, refl, sym, subst, Bool, true, false, ◌&&◌, List, [], ◌∷◌, All,
  All-append, length, Option, none, some, arith, if-both, Option-cases, inl, inr,
}
use open_pdf_editor.Page.{PageId}
use open_pdf_editor.Document.{DocumentSnapshot}
use open_pdf_editor.Render.{RenderRequest, RenderResponse, ready, failed, Tile}
use open_pdf_editor.RenderCache.{TileCache, get, retain_revision}
use open_pdf_editor.RenderCache.Backlog.{
  Backlog, push, take_newest, pop_back, pop_back_none, pop_back-length, is_empty,
}
use open_pdf_editor.RenderCache.Entries.{
  insert-All, get-All, retain_revision-none, take_newest-All, push-All,
}
use open_pdf_editor.Raster.Library.{Pdfium}
use open_pdf_editor.Worker.{
  response_of, WorkerMessage, render, rebind, shutdown, rasterize_request, answer_request,
}
use open_pdf_editor.Worker.Loop.{
  Serving, initial, failing, supersede, accept_message, accept_all, Turn, no_messages, keep_tile,
  answer_uncached, answer_from, answer, serve_taken, serve_newest, finish_turn, take_turn,
}

take_newest-shortens :
    (b : Backlog) (fuel : ℕ)
    → length b.queued ≤ suc fuel
    → ((take_newest b).0 ≡ none → (take_newest b).1.queued ≡ [])
      × ((r : RenderRequest) → (take_newest b).0 ≡ some r → length (take_newest b).1.queued ≤ fuel)
unfolding take_newest
take_newest-shortens b fuel h = elim (Option-cases (pop_back b.queued)) [
  | inl e ↦ rw (take_newest, e) (λ k. pop_back_none b.queued e, λ r k. absurd (cc))
  | inr ((newest, rest), e) ↦
      let shorter = pop_back-length newest b.queued rest e in
      rw (take_newest, e) (λ k. absurd (cc), λ r k. omega (arith, shorter, h))
]

length-zero : (b : Backlog) → length b.queued ≤ 0 → b.queued ≡ []
length-zero b h =
    elim b.queued as (λ qs. length qs ≤ 0 → qs ≡ []) [
      | [] ↦ λ k. refl
      | q ∷ qs ↦ λ k. absurd (omega arith)
    ]
      h

supersede-empties :
    (fuel : ℕ) (b : Backlog) → length b.queued ≤ fuel → (supersede fuel b).1.queued ≡ []
unfolding supersede
supersede-empties zero b h = length-zero b h
supersede-empties (suc fuel) b h =
    let (ends, shortens) = take_newest-shortens b fuel h in
    elim (Option-cases (take_newest b).0) [
      | inl e ↦ rw (supersede, e) (ends e)
      | inr (r, e) ↦ rw (supersede, e) (supersede-empties fuel (take_newest b).1 (shortens r e))
    ]

module _ {P : Type 0} (pdfium : Pdfium P) (file_indices : PageId → Option ℕ) where
  -- an entry of the cache, or a tile that is answered
  abbrev pub IsRasterized : DocumentSnapshot → RenderRequest × Tile → Type 0
  IsRasterized snapshot (r, t) =
      (r.revision ≡ snapshot.revision) × (rasterize_request pdfium file_indices snapshot r ≡ some t)

  abbrev pub AtRevision : DocumentSnapshot → RenderRequest → Type 0
  AtRevision snapshot r = r.revision ≡ snapshot.revision

  -- What waits and what is cached belongs to the snapshot that is current.
  pub record IsCurrent (s : Serving) : Type 0 where
    pub waiting : All (AtRevision s.snapshot) s.backlog.queued
    pub cached : All (IsRasterized s.snapshot) s.cache.entries

  -- A message that a handle sends which knows the snapshot: a request is at its revision, and a
  -- rebind is to another revision.
  abbrev pub Follows : WorkerMessage → Serving → Type 0
  Follows (render r) s = r.revision ≡ s.snapshot.revision
  Follows (rebind replacement) s = s.snapshot.revision ≢ replacement.revision
  Follows shutdown s = Unit

  abbrev pub AllFollow : List WorkerMessage → Serving → Type 0
  AllFollow [] s = Unit
  AllFollow (m ∷ ms) s = Follows m s × AllFollow ms (accept_message m s).1

  -- a response that may be given under a snapshot
  abbrev pub IsFor : DocumentSnapshot → RenderResponse → Type 0
  IsFor snapshot (ready r t) = IsRasterized snapshot (r, t)
  IsFor snapshot (failed r) = Unit

  old_revisions :
      (snapshot : DocumentSnapshot) (m : List (RenderRequest × Tile))
      → All (IsRasterized snapshot) m
      → All (λ e. e.0.revision ≡ snapshot.revision) m
  old_revisions snapshot [] h = tt
  old_revisions snapshot (e ∷ m) (h, hs) = (h.0, old_revisions snapshot m hs)

  accept_message-IsCurrent :
      (m : WorkerMessage) (s : Serving)
      → Follows m s
      → IsCurrent s
      → IsCurrent (accept_message m s).1
  unfolding accept_message retain_revision
  accept_message-IsCurrent (render r) s f c = record {
    waiting = push-All (AtRevision s.snapshot) r s.backlog c.waiting f;
    cached = c.cached;
  }
  accept_message-IsCurrent (rebind replacement) s f c = record {
    waiting =
        subst (All (AtRevision replacement))
          (sym (supersede-empties (length s.backlog.queued) s.backlog (omega arith))) tt;
    cached =
        subst (All (IsRasterized replacement))
          (sym (
            retain_revision-none s.snapshot.revision replacement.revision s.cache.entries f
              (old_revisions s.snapshot s.cache.entries c.cached)))
          tt;
  }
  accept_message-IsCurrent shutdown s f c = c

  accept_all-IsCurrent :
      (ms : List WorkerMessage) (s : Serving)
      → AllFollow ms s
      → IsCurrent s
      → IsCurrent (accept_all ms s).1
  unfolding accept_all
  accept_all-IsCurrent [] s f c = c
  accept_all-IsCurrent (m ∷ ms) s (f, fs) c =
      accept_all-IsCurrent ms (accept_message m s).1 fs (accept_message-IsCurrent m s f c)

  failing-IsFor :
      (snapshot : DocumentSnapshot) (o : Option RenderRequest) → All (IsFor snapshot) (failing o)
  failing-IsFor snapshot none = tt
  failing-IsFor snapshot (some r) = (tt, tt)

  supersede-IsFor :
      (snapshot : DocumentSnapshot) (fuel : ℕ) (b : Backlog)
      → All (IsFor snapshot) (supersede fuel b).0
  unfolding supersede
  supersede-IsFor snapshot zero b = tt
  supersede-IsFor snapshot (suc fuel) b = elim (Option-cases (take_newest b).0) [
    | inl e ↦ rw (supersede, e) tt
    | inr (r, e) ↦ rw (supersede, e) (tt, supersede-IsFor snapshot fuel (take_newest b).1)
  ]

  -- No message is answered with a tile.
  accept_message-IsFor :
      (snapshot : DocumentSnapshot) (m : WorkerMessage) (s : Serving)
      → All (IsFor snapshot) (accept_message m s).0
  unfolding accept_message
  accept_message-IsFor snapshot (render r) s = failing-IsFor snapshot (push r s.backlog).0
  accept_message-IsFor snapshot (rebind replacement) s =
      supersede-IsFor snapshot (length s.backlog.queued) s.backlog
  accept_message-IsFor snapshot shutdown s = tt

  accept_all-IsFor :
      (snapshot : DocumentSnapshot) (ms : List WorkerMessage) (s : Serving)
      → All (IsFor snapshot) (accept_all ms s).0
  unfolding accept_all
  accept_all-IsFor snapshot [] s = tt
  accept_all-IsFor snapshot (m ∷ ms) s =
      All-append (IsFor snapshot) (accept_message m s).0 _ (accept_message-IsFor snapshot m s)
        (accept_all-IsFor snapshot ms (accept_message m s).1)

  -- what the end of a turn gives, for the snapshot that it began with
  abbrev Serves : DocumentSnapshot → List RenderResponse × Serving × Bool → Type 0
  Serves snapshot (responses, s, _) =
      All (IsFor snapshot) responses × IsCurrent s × (s.snapshot ≡ snapshot)

  keep_tile-IsCurrent :
      (r : RenderRequest) (s : Serving) (o : Option Tile)
      → r.revision ≡ s.snapshot.revision
      → rasterize_request pdfium file_indices s.snapshot r ≡ o
      → IsCurrent s
      → IsFor s.snapshot (response_of pdfium file_indices r o)
        × IsCurrent (keep_tile pdfium file_indices r o s)
        × ((keep_tile pdfium file_indices r o s).snapshot ≡ s.snapshot)
  keep_tile-IsCurrent r s none a e c = (tt, c, refl)
  keep_tile-IsCurrent r s (some t) a e c = (
    (a, e),
    record {
      waiting = c.waiting;
      cached = insert-All (IsRasterized s.snapshot) r t s.cache c.cached (a, e);
    },
    refl,
  )

  answer_from-IsCurrent :
      (r : RenderRequest) (s : Serving) (found : Option Tile × TileCache)
      → r.revision ≡ s.snapshot.revision
      → All (IsRasterized s.snapshot) found.1.entries
      → ((t : Tile) → found.0 ≡ some t → IsRasterized s.snapshot (r, t))
      → IsCurrent s
      → IsFor s.snapshot (answer_from pdfium file_indices r s found).0
        × IsCurrent (answer_from pdfium file_indices r s found).1
        × ((answer_from pdfium file_indices r s found).1.snapshot ≡ s.snapshot)
  unfolding answer_uncached answer_request
  answer_from-IsCurrent r s (some t, cache) a h k c =
      (k t refl, record { waiting = c.waiting; cached = h }, refl)
  answer_from-IsCurrent r s (none, cache) a h k c =
      keep_tile-IsCurrent r s (rasterize_request pdfium file_indices s.snapshot r) a refl c

  serve_taken-Serves :
      (is_received : Bool) (s : Serving) (taken : Option RenderRequest × Backlog)
      → All (AtRevision s.snapshot) taken.1.queued
      → ((r : RenderRequest) → taken.0 ≡ some r → AtRevision s.snapshot r)
      → IsCurrent s
      → Serves s.snapshot (serve_taken pdfium file_indices is_received s taken)
  unfolding answer
  serve_taken-Serves is_received s (none, b) h k c = (tt, c, refl)
  serve_taken-Serves is_received s (some r, b) h k c =
      let rest = record s { backlog = b } in
      let (kept, found) = get-All (IsRasterized s.snapshot) r s.cache c.cached in
      let (one, current, same) =
        answer_from-IsCurrent r rest (get r s.cache) (k r refl) kept found
          (record { waiting = h; cached = c.cached }) in
      ((one, tt), current, same)

  finish_turn-Serves :
      (is_received : Bool) (accepted : List RenderResponse × Serving × Bool)
      → All (IsFor accepted.1.snapshot) accepted.0
      → IsCurrent accepted.1
      → Serves accepted.1.snapshot (finish_turn pdfium file_indices is_received accepted)
  unfolding finish_turn serve_newest
  finish_turn-Serves is_received (superseded, s, true) h c =
      let (kept, taken) = take_newest-All (AtRevision s.snapshot) s.backlog c.waiting in
      let (answers, current, same) =
        serve_taken-Serves is_received s (take_newest s.backlog) kept taken c in
      (All-append (IsFor s.snapshot) superseded _ h answers, current, same)
  finish_turn-Serves is_received (superseded, s, false) h c = (h, c, refl)

  take_turn-IsCurrent :
      (turn : Turn) (s : Serving)
      → AllFollow turn.arrived s
      → IsCurrent s
      → IsCurrent (take_turn pdfium file_indices turn s).1
        × All
            (IsFor (take_turn pdfium file_indices turn s).1.snapshot)
            (take_turn pdfium file_indices turn s).0
  unfolding take_turn
  take_turn-IsCurrent turn s f c =
      let accepted = accept_all turn.arrived s in
      let (responses, current, same) =
        finish_turn-Serves turn.is_received accepted
          (accept_all-IsFor accepted.1.snapshot turn.arrived s)
          (accept_all-IsCurrent turn.arrived s f c) in
      if-both
        (λ (x : List RenderResponse × Serving × Bool). IsCurrent x.1 × All (IsFor x.1.snapshot) x.0)
        (is_empty s.backlog && no_messages turn.arrived) ([], s, false) _ (c, tt)
        (
          current,
          subst (λ x. All (IsFor x) (finish_turn pdfium file_indices turn.is_received accepted).0)
              (sym same) responses,
        )

  -- the states that the loop passes through, where each message follows the snapshot
  pub data IsReached (snapshot : DocumentSnapshot) : Serving → Type 0 where
    started : IsReached snapshot (initial snapshot)
    turned :
        (turn : Turn) (s : Serving)
        → IsReached snapshot s
        → AllFollow turn.arrived s
        → IsReached snapshot (take_turn pdfium file_indices turn s).1

  reached-IsCurrent :
      {snapshot : DocumentSnapshot} {s : Serving} → IsReached snapshot s → IsCurrent s
  reached-IsCurrent started = record { waiting = tt; cached = tt }
  reached-IsCurrent (turned turn s reached f) =
      (take_turn-IsCurrent turn s f (reached-IsCurrent reached)).0

  -- Where each request is sent at the revision of the snapshot last sent, and each snapshot has
  -- another revision than the one before: each tile that the loop answers in a turn, cached or not,
  -- is of a request at the revision of the snapshot that is current when it is sent, and is what
  -- rasterizing that request under that snapshot gives. No request that waited through a rebind is
  -- answered with a tile.
  pub take_turn-IsFor :
      {snapshot : DocumentSnapshot} (turn : Turn) (s : Serving)
      → IsReached snapshot s
      → AllFollow turn.arrived s
      → All
          (IsFor (take_turn pdfium file_indices turn s).1.snapshot)
          (take_turn pdfium file_indices turn s).0
  take_turn-IsFor turn s reached f = (take_turn-IsCurrent turn s f (reached-IsCurrent reached)).1
