-- ===== src/Worker/Loop.antt =====
-- The worker's loop (`serve_requests`, `accept_message`, `fail_every_request` and `run_worker` of
-- opdf-render/src/worker.rs).
use open_pdf_editor.Base.{
  map, ℕ, zero, suc, ◌+◌, ◌%◌, ◌^◌, Bool, true, false, ◌&&◌, List, [], ◌∷◌, ◌++◌, Option, none,
  some, if◌then◌else◌, length,
}
use open_pdf_editor.Page.{PageId}
use open_pdf_editor.Document.{DocumentSnapshot}
use open_pdf_editor.Render.{RenderRequest, RenderResponse, ready, failed, Tile}
use open_pdf_editor.RenderCache.{
  TileCache, with_budget, default_cache_bytes, get, insert, retain_revision,
}
use open_pdf_editor.RenderCache.Backlog.{
  Backlog, with_capacity, max_backlog, push, take_newest, is_empty,
}
use open_pdf_editor.Raster.Library.{Pdfium}
use open_pdf_editor.Worker.{
  WorkerMessage, render, rebind, shutdown, map_file_indices, rasterize_request, answer_request,
}

-- what the loop keeps
pub record Serving : Type 0 where
  pub backlog : Backlog
  pub snapshot : DocumentSnapshot
  pub cache : TileCache
  pub rasterizations : ℕ

abbrev pub initial : DocumentSnapshot → Serving
initial snapshot = record {
  backlog = with_capacity max_backlog;
  snapshot = snapshot;
  cache = with_budget default_cache_bytes;
  rasterizations = 0;
}

-- the responses for the requests that a push or a take gave back
abbrev pub failing : Option RenderRequest → List RenderResponse
failing none = []
failing (some r) = failed r ∷ []

-- the `while let` loop over the backlog; each turn takes one request, so the length is fuel enough
unfoldable pub supersede : ℕ → Backlog → List RenderResponse × Backlog
supersede zero b = ([], b)
supersede (suc fuel) b =
    let (taken, b') = take_newest b in
    let (responses, last) = supersede fuel b' in
    elim taken [ none ↦ ([], b') | some r ↦ (failed r ∷ responses, last) ]

-- What is sent, and whether the worker is to go on
unfoldable pub accept_message : WorkerMessage → Serving → List RenderResponse × Serving × Bool
unfolding supersede
accept_message (render r) s =
    let (superseded, b) = push r s.backlog in (failing superseded, record s { backlog = b }, true)
accept_message (rebind replacement) s =
    let (responses, b) = supersede (length s.backlog.queued) s.backlog in
    (
      responses,
      record s {
        backlog = b;
        snapshot = replacement;
        cache = retain_revision replacement.revision s.cache;
      },
      true,
    )
accept_message shutdown s = ([], s, false)

-- all that have arrived; the flag is `is_shutting_down`, negated
unfoldable pub accept_all : List WorkerMessage → Serving → List RenderResponse × Serving × Bool
unfolding accept_message
accept_all [] s = ([], s, true)
accept_all (m ∷ ms) s =
    let (responses, s', goes_on) = accept_message m s in
    let (more, last, go_on) = accept_all ms s' in (responses ++ more, last, goes_on && go_on)

-- One turn of the loop: the messages that arrive before it looks at the backlog, and whether the
-- response it sends at the end has a receiver. No message for an empty backlog is a closed channel.
pub record Turn : Type 0 where
  pub arrived : List WorkerMessage
  pub is_received : Bool

abbrev pub no_messages : List WorkerMessage → Bool
no_messages [] = true
no_messages (m ∷ ms) = false

module _ {P : Type 0} (pdfium : Pdfium P) (file_indices : PageId → Option ℕ) where
  -- A tile that was rasterized is counted and cached.
  abbrev pub keep_tile : RenderRequest → Option Tile → Serving → Serving
  keep_tile r none s = s
  keep_tile r (some t) s = record s {
    cache = insert r t s.cache;
    rasterizations = (s.rasterizations + 1) % 2 ^ 64;
  }

  -- where the cache has no tile
  unfoldable pub answer_uncached : RenderRequest → Serving → RenderResponse × Serving
  unfolding answer_request
  answer_uncached r s = (
    answer_request pdfium file_indices s.snapshot r,
    keep_tile r (rasterize_request pdfium file_indices s.snapshot r) s,
  )

  -- with what the cache gave
  abbrev pub answer_from :
      RenderRequest → Serving → Option Tile × TileCache → RenderResponse × Serving
  answer_from r s (some t, cache) = (ready r t, record s { cache = cache })
  answer_from r s (none, cache) = answer_uncached r s

  unfoldable pub answer : RenderRequest → Serving → RenderResponse × Serving
  unfolding answer_uncached
  answer r s = answer_from r s (get r s.cache)

  -- with what the backlog gave
  abbrev pub serve_taken :
      Bool → Serving → Option RenderRequest × Backlog → List RenderResponse × Serving × Bool
  serve_taken is_received s (none, b) = ([], s, true)
  serve_taken is_received s (some r, b) =
      let (response, s') = answer r (record s { backlog = b }) in (response ∷ [], s', is_received)

  -- the end of a turn
  unfoldable pub serve_newest : Bool → Serving → List RenderResponse × Serving × Bool
  unfolding answer
  serve_newest is_received s = serve_taken is_received s (take_newest s.backlog)

  -- the end of a turn, with what the messages came to
  unfoldable pub finish_turn :
      Bool → List RenderResponse × Serving × Bool → List RenderResponse × Serving × Bool
  unfolding serve_newest
  finish_turn is_received (superseded, s, true) =
      let (answers, last, goes_on) = serve_newest is_received s in
      (superseded ++ answers, last, goes_on)
  finish_turn is_received (superseded, s, false) = (superseded, s, false)

  unfoldable pub take_turn : Turn → Serving → List RenderResponse × Serving × Bool
  unfolding accept_all finish_turn
  take_turn turn s =
      if is_empty s.backlog && no_messages turn.arrived
      then ([], s, false)
      else finish_turn turn.is_received (accept_all turn.arrived s)

  -- The loop over the turns that there are; the last part tells whether it was still running.
  unfoldable pub serve_requests : List Turn → Serving → List RenderResponse × Serving × Bool
  unfolding take_turn
  serve_requests [] s = ([], s, true)
  serve_requests (turn ∷ turns) s =
      let (responses, s', goes_on) = take_turn turn s in
      let (more, last, go_on) = serve_requests turns s' in
      if goes_on then (responses ++ more, last, go_on) else (responses, s', false)

-- For a document that never opened: each message, and whether a response to it has a receiver
unfoldable pub fail_every_request : List (WorkerMessage × Bool) → List RenderResponse
fail_every_request [] = []
fail_every_request ((render r, is_received) ∷ ms) =
    let rest = fail_every_request ms in if is_received then failed r ∷ rest else failed r ∷ []
fail_every_request ((rebind snapshot, is_received) ∷ ms) = fail_every_request ms
fail_every_request ((shutdown, is_received) ∷ ms) = []

abbrev pub each_message : Turn → List (WorkerMessage × Bool)
each_message turn = map (λ m. (m, turn.is_received)) turn.arrived

abbrev pub all_messages : List Turn → List (WorkerMessage × Bool)
all_messages [] = []
all_messages (turn ∷ turns) = each_message turn ++ all_messages turns

-- `run_worker`, where pdfium opened the file, or did not: what it reports as ready, and its
-- responses
unfoldable pub run_worker :
    {P : Type 0} → Option (Pdfium P) → DocumentSnapshot → List Turn → Bool × List RenderResponse
unfolding serve_requests fail_every_request map_file_indices
run_worker none snapshot turns = (false, fail_every_request (all_messages turns))
run_worker (some pdfium) snapshot turns =
    (true, (serve_requests pdfium (map_file_indices snapshot) turns (initial snapshot)).0)
