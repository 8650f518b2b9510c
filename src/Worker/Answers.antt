-- ===== src/Worker/Answers.antt =====
-- That each request accepted is answered once.
use open_pdf_editor.Base.{
  ℕ, zero, suc, ◌+◌, ◌≡◌, refl, ◌∙◌, ap, Bool, true, false, ◌&&◌, List, [], ◌∷◌, ◌++◌, length,
  Option, none, some, arith, if◌then◌else◌, Bool-cases, Option-cases, inl, inr,
}
use open_pdf_editor.Page.{PageId}
use open_pdf_editor.Render.{RenderRequest, RenderResponse, Tile, response_request}
use open_pdf_editor.Render.RequestMap.{count, hit, member, count-append}
use open_pdf_editor.RenderCache.{TileCache, get}
use open_pdf_editor.RenderCache.Backlog.{
  Backlog, push, take_newest, hits, push-count, take_newest-count, is_empty,
}
use open_pdf_editor.Raster.Library.{Pdfium}
use open_pdf_editor.Worker.{
  response_of, WorkerMessage, render, rebind, shutdown, rasterize_request, answer_request,
}
use open_pdf_editor.Worker.Loop.{
  Serving, failing, supersede, accept_message, accept_all, Turn, no_messages, keep_tile,
  answer_uncached, answer, answer_from, serve_taken, finish_turn, serve_newest, take_turn,
  serve_requests,
}

-- how many of the responses answer `q`
unfoldable pub answers_to : RenderRequest → List RenderResponse → ℕ
answers_to q [] = 0
answers_to q (r ∷ rs) = hit q (response_request r) + answers_to q rs

answers_to-append :
    (q : RenderRequest) (rs ss : List RenderResponse)
    → answers_to q (rs ++ ss) ≡ answers_to q rs + answers_to q ss
unfolding answers_to
answers_to-append q [] ss = omega arith
answers_to-append q (r ∷ rs) ss = omega (arith, answers_to-append q rs ss)

-- The requests that were not coalesced with an identical one that waited
abbrev pub queues : WorkerMessage → Serving → List RenderRequest
queues (render r) s = if member r s.backlog.queued then [] else r ∷ []
queues (rebind snapshot) s = []
queues shutdown s = []

unfoldable pub queues_all : List WorkerMessage → Serving → List RenderRequest
queues_all [] s = []
queues_all (m ∷ ms) s = queues m s ++ queues_all ms (accept_message m s).1

failing-answers :
    (q : RenderRequest) (o : Option RenderRequest) → answers_to q (failing o) ≡ hits q o
unfolding answers_to
failing-answers q none = refl
failing-answers q (some r) = omega arith

supersede-answers :
    (q : RenderRequest) (fuel : ℕ) (b : Backlog)
    → count q b.queued ≡ answers_to q (supersede fuel b).0 + count q (supersede fuel b).1.queued
unfolding supersede answers_to
supersede-answers q zero b = omega arith
supersede-answers q (suc fuel) b = elim (Option-cases (take_newest b).0) [
  | inl e ↦ ground (arith, e, take_newest-count q b)
  | inr (r, e) ↦
      ground (arith, e, take_newest-count q b, supersede-answers q fuel (take_newest b).1)
]

accept_message-answers :
    (q : RenderRequest) (m : WorkerMessage) (s : Serving)
    → count q s.backlog.queued + count q (queues m s)
      ≡ answers_to q (accept_message m s).0 + count q (accept_message m s).1.backlog.queued
unfolding accept_message count answers_to
accept_message-answers q (render r) s =
    ground (arith, push-count r q s.backlog, failing-answers q (push r s.backlog).0)
accept_message-answers q (rebind snapshot) s =
    ground (arith, supersede-answers q (length s.backlog.queued) s.backlog)
accept_message-answers q shutdown s = omega arith

accept_all-answers :
    (q : RenderRequest) (ms : List WorkerMessage) (s : Serving)
    → count q s.backlog.queued + count q (queues_all ms s)
      ≡ answers_to q (accept_all ms s).0 + count q (accept_all ms s).1.backlog.queued
unfolding accept_all queues_all answers_to count
accept_all-answers q [] s = omega arith
accept_all-answers q (m ∷ ms) s = omega (
  arith,
  accept_message-answers q m s,
  accept_all-answers q ms (accept_message m s).1,
  answers_to-append q (accept_message m s).0 (accept_all ms (accept_message m s).1).0,
  count-append q (queues m s) (queues_all ms (accept_message m s).1),
)

module _ {P : Type 0} (pdfium : Pdfium P) (file_indices : PageId → Option ℕ) where
  keep_tile-queue :
      (r : RenderRequest) (o : Option Tile) (s : Serving)
      → (keep_tile pdfium file_indices r o s).backlog ≡ s.backlog
  keep_tile-queue r none s = refl
  keep_tile-queue r (some t) s = refl

  response_of-request :
      (r : RenderRequest) (o : Option Tile)
      → response_request (response_of pdfium file_indices r o) ≡ r
  response_of-request r none = refl
  response_of-request r (some t) = refl

  answer-one :
      (r : RenderRequest) (s : Serving) (found : Option Tile × TileCache)
      → (response_request (answer_from pdfium file_indices r s found).0 ≡ r)
        × ((answer_from pdfium file_indices r s found).1.backlog ≡ s.backlog)
  unfolding answer_uncached answer_request
  answer-one r s (some t, cache) = (refl, refl)
  answer-one r s (none, cache) =
      let o = rasterize_request pdfium file_indices s.snapshot r in
      (response_of-request r o, keep_tile-queue r o s)

  serve_taken-answers :
      (q : RenderRequest) (is_received : Bool) (s : Serving)
      (taken : Option RenderRequest × Backlog)
      → count q taken.1.queued + hits q taken.0 ≡ count q s.backlog.queued
      → count q s.backlog.queued
        ≡ answers_to q (serve_taken pdfium file_indices is_received s taken).0
          + count q (serve_taken pdfium file_indices is_received s taken).1.backlog.queued
  unfolding answers_to answer
  serve_taken-answers q is_received s (none, b) h = omega arith
  serve_taken-answers q is_received s (some r, b) h =
      let rest = record s { backlog = b } in
      let (same, kept) = answer-one r rest (get r s.cache) in
      omega (arith, h, ap (hit q) same, ap (λ b. count q b.queued) kept)

  finish_turn-answers :
      (q : RenderRequest) (is_received : Bool) (accepted : List RenderResponse × Serving × Bool)
      → answers_to q accepted.0 + count q accepted.1.backlog.queued
        ≡ answers_to q (finish_turn pdfium file_indices is_received accepted).0
          + count q (finish_turn pdfium file_indices is_received accepted).1.backlog.queued
  unfolding finish_turn serve_newest
  finish_turn-answers q is_received (superseded, s, true) = omega (
    arith,
    serve_taken-answers q is_received s (take_newest s.backlog) (take_newest-count q s.backlog),
    answers_to-append q superseded (serve_newest pdfium file_indices is_received s).0,
  )
  finish_turn-answers q is_received (superseded, s, false) = refl

  -- what a turn queues
  abbrev pub queues_turn : Turn → Serving → List RenderRequest
  queues_turn turn s =
      if is_empty s.backlog && no_messages turn.arrived then [] else queues_all turn.arrived s

  take_turn-answers :
      (q : RenderRequest) (turn : Turn) (s : Serving)
      → count q s.backlog.queued + count q (queues_turn turn s)
        ≡ answers_to q (take_turn pdfium file_indices turn s).0
          + count q (take_turn pdfium file_indices turn s).1.backlog.queued
  unfolding take_turn answers_to count
  take_turn-answers q turn s = elim (Bool-cases (is_empty s.backlog && no_messages turn.arrived)) [
    | inl e ↦ rw e (omega arith)
    | inr e ↦ rw e (
        accept_all-answers q turn.arrived s
        ∙ finish_turn-answers q turn.is_received (accept_all turn.arrived s))
  ]

  unfoldable pub queues_turns : List Turn → Serving → List RenderRequest
  queues_turns [] s = []
  queues_turns (turn ∷ turns) s =
      let (_, s', goes_on) = take_turn pdfium file_indices turn s in
      let rest = queues_turns turns s' in
      if goes_on then queues_turn turn s ++ rest else queues_turn turn s

  -- Whatever arrives and however the loop ends: each request is as often among those that waited at
  -- the start or were queued, which an identical request that already waits keeps it from, as it is
  -- among those answered, with a tile or a failure, and those that still wait.
  pub serve_requests-answers :
      (q : RenderRequest) (turns : List Turn) (s : Serving)
      → count q s.backlog.queued + count q (queues_turns turns s)
        ≡ answers_to q (serve_requests pdfium file_indices turns s).0
          + count q (serve_requests pdfium file_indices turns s).1.backlog.queued
  unfolding serve_requests queues_turns answers_to count
  serve_requests-answers q [] s = omega arith
  serve_requests-answers q (turn ∷ turns) s =
      elim (Bool-cases (take_turn pdfium file_indices turn s).2) [
        | inl e ↦
            let (responses, s', _) = take_turn pdfium file_indices turn s in
            rw e (
              omega (
                arith,
                take_turn-answers q turn s,
                serve_requests-answers q turns s',
                answers_to-append q responses (serve_requests pdfium file_indices turns s').0,
                count-append q (queues_turn turn s) (queues_turns turns s'),
              ))
        | inr e ↦ rw e (take_turn-answers q turn s)
      ]
