-- ===== src/RenderCache/Backlog.antt =====
-- The worker's queue of pending requests (opdf-render/src/backlog.rs): bounded, newest first.
use open_pdf_editor.Base.{
  ℕ, suc, ◌+◌, ◌≤◌, ◌≡◌, refl, Bool, true, false, List, [], ◌∷◌, ◌++◌, length, Option, none, some,
  arith, ltb, not-lt→ltb, if◌then◌else◌, max, length-append, Bool-cases, Option-cases, inl, inr,
}
use open_pdf_editor.Render.{RenderRequest}
use open_pdf_editor.Render.RequestMap.{count, hit, member, count-append}

abbrev pub max_backlog : ℕ
max_backlog = 64

-- `queued` is oldest first.
pub record Backlog : Type 0 where
  pub queued : List RenderRequest
  pub capacity : ℕ

abbrev pub with_capacity : ℕ → Backlog
with_capacity capacity = record { queued = []; capacity = max capacity 1 }

-- `pop_front` of the queue
abbrev pub pop_front : ℕ → List RenderRequest → Option RenderRequest × Backlog
pop_front capacity [] = (none, record { queued = []; capacity = capacity })
pop_front capacity (oldest ∷ rest) = (some oldest, record { queued = rest; capacity = capacity })

unfoldable pub push : RenderRequest → Backlog → Option RenderRequest × Backlog
push r b =
    if member r b.queued
    then (none, b)
    else if ltb b.capacity (length (b.queued ++ r ∷ []))
    then pop_front b.capacity (b.queued ++ r ∷ [])
    else (none, record b { queued = b.queued ++ r ∷ [] })

-- the last of a list, and those before it
unfoldable pub pop_back : List RenderRequest → Option (RenderRequest × List RenderRequest)
pop_back [] = none
pop_back (q ∷ qs) = elim (pop_back qs) [
  | none ↦ some (q, [])
  | some (newest, rest) ↦ some (newest, q ∷ rest)
]

unfoldable pub take_newest : Backlog → Option RenderRequest × Backlog
take_newest b = elim (pop_back b.queued) [
  | none ↦ (none, b)
  | some (newest, rest) ↦ (some newest, record b { queued = rest })
]

pub is_empty : Backlog → Bool
is_empty b = elim b.queued [ [] ↦ true | _ ∷ _ ↦ false ]

abbrev pub hits : RenderRequest → Option RenderRequest → ℕ
hits q none = 0
hits q (some r) = hit q r

count_of_member :
    (r : RenderRequest) (qs : List RenderRequest)
    → (member r qs ≡ true → 1 ≤ count r qs) × (member r qs ≡ false → count r qs ≡ 0)
unfolding member count
count_of_member r [] = (λ h. absurd (cc), λ h. refl)
count_of_member r (q ∷ qs) =
    let (a, b) = count_of_member r qs in (λ h. ground (arith, a), λ h. ground (arith, b))

pop_back-append :
    (qs : List RenderRequest) (r : RenderRequest) → pop_back (qs ++ r ∷ []) ≡ some (r, qs)
unfolding pop_back
pop_back-append [] r = refl
pop_back-append (q ∷ qs) r = ground (arith, pop_back-append qs r)

pop_front-count :
    (q : RenderRequest) (c : ℕ) (qs : List RenderRequest)
    → count q (pop_front c qs).1.queued + hits q (pop_front c qs).0 ≡ count q qs
unfolding count
pop_front-count q c [] = refl
pop_front-count q c (p ∷ ps) = omega arith

pop_front-length :
    (c : ℕ) (qs : List RenderRequest)
    → 1 ≤ length qs
    → (suc (length (pop_front c qs).1.queued) ≡ length qs) × ((pop_front c qs).1.capacity ≡ c)
pop_front-length c [] h = absurd (omega arith)
pop_front-length c (p ∷ ps) h = (refl, refl)

pub push-count :
    (r q : RenderRequest) (b : Backlog)
    → count q (push r b).1.queued + hits q (push r b).0
      ≡ count q b.queued + (if member r b.queued then 0 else hit q r)
unfolding push count
push-count r q b =
    ground
      (arith, pop_front-count q b.capacity (b.queued ++ r ∷ []), count-append q b.queued (r ∷ []))

pub pop_back_none : (qs : List RenderRequest) → pop_back qs ≡ none → qs ≡ []
unfolding pop_back
pop_back_none [] h = refl
pop_back_none (p ∷ qs) h = elim (Option-cases (pop_back qs)) [
  | inl e ↦ absurd (ground (arith, e, h))
  | inr ((n, r), e) ↦ absurd (ground (arith, e, h))
]

pop_back-count :
    (q newest : RenderRequest) (qs rest : List RenderRequest)
    → pop_back qs ≡ some (newest, rest)
    → count q rest + hit q newest ≡ count q qs
unfolding pop_back count
pop_back-count q newest [] rest h = absurd (cc)
pop_back-count q newest (p ∷ qs) rest h = elim (Option-cases (pop_back qs)) [
  | inl e ↦ ground (arith, e, h, pop_back_none qs e)
  | inr ((n, r), e) ↦ ground (arith, e, h, pop_back-count q n qs r e)
]

pub take_newest-count :
    (q : RenderRequest) (b : Backlog)
    → count q (take_newest b).1.queued + hits q (take_newest b).0 ≡ count q b.queued
unfolding take_newest
take_newest-count q b = elim (Option-cases (pop_back b.queued)) [
  | inl e ↦ ground (arith, e)
  | inr ((newest, rest), e) ↦ ground (arith, e, pop_back-count q newest b.queued rest e)
]

pub pop_back-length :
    (newest : RenderRequest) (qs rest : List RenderRequest)
    → pop_back qs ≡ some (newest, rest)
    → suc (length rest) ≡ length qs
unfolding pop_back
pop_back-length newest [] rest h = absurd (cc)
pop_back-length newest (p ∷ qs) rest h = elim (Option-cases (pop_back qs)) [
  | inl e ↦ ground (arith, e, h, pop_back_none qs e)
  | inr ((n, r), e) ↦ ground (arith, e, h, pop_back-length n qs r e)
]

-- What the worker does with its queue
pub data Event : Type 0 where
  submitted : RenderRequest → Event
  served : Event

abbrev released : Option RenderRequest → List RenderRequest
released none = []
released (some r) = r ∷ []

-- The requests that leave the queue, as superseded or to be served, and the queue at the end.
unfoldable pub drain : List Event → Backlog → List RenderRequest × Backlog
drain [] b = ([], b)
drain (submitted r ∷ es) b =
    let (out, last) = drain es (push r b).1 in (released (push r b).0 ++ out, last)
drain (served ∷ es) b =
    let (out, last) = drain es (take_newest b).1 in (released (take_newest b).0 ++ out, last)

-- The requests that were not coalesced with an identical one already queued.
unfoldable pub accepted : List Event → Backlog → List RenderRequest
accepted [] b = []
accepted (submitted r ∷ es) b =
    let rest = accepted es (push r b).1 in if member r b.queued then rest else r ∷ rest
accepted (served ∷ es) b = accepted es (take_newest b).1

released-count : (q : RenderRequest) (o : Option RenderRequest) → count q (released o) ≡ hits q o
unfolding count
released-count q none = refl
released-count q (some r) = omega arith

-- Nothing is lost and nothing is answered twice: a request is as often among those that were queued
-- or accepted as it is among those that left the queue, superseded or served, and those that wait.
pub drain-count :
    (es : List Event) (b : Backlog) (q : RenderRequest)
    → count q b.queued + count q (accepted es b)
      ≡ count q (drain es b).0 + count q (drain es b).1.queued
unfolding drain accepted count
drain-count [] b q = omega arith
drain-count (submitted r ∷ es) b q = ground (
  arith,
  drain-count es (push r b).1 q,
  push-count r q b,
  released-count q (push r b).0,
  count-append q (released (push r b).0) (drain es (push r b).1).0,
)
drain-count (served ∷ es) b q = ground (
  arith,
  drain-count es (take_newest b).1 q,
  take_newest-count q b,
  released-count q (take_newest b).0,
  count-append q (released (take_newest b).0) (drain es (take_newest b).1).0,
)

push-bounds :
    (r : RenderRequest) (b : Backlog)
    → length b.queued ≤ b.capacity
    → (length (push r b).1.queued ≤ b.capacity) × ((push r b).1.capacity ≡ b.capacity)
unfolding push
push-bounds r b h =
    ground
      (arith, length-append b.queued (r ∷ []), pop_front-length b.capacity (b.queued ++ r ∷ []))

take_newest-bounds :
    (b : Backlog)
    → length b.queued ≤ b.capacity
    → (length (take_newest b).1.queued ≤ b.capacity) × ((take_newest b).1.capacity ≡ b.capacity)
unfolding take_newest
take_newest-bounds b h = elim (Option-cases (pop_back b.queued)) [
  | inl e ↦ ground (arith, e)
  | inr ((newest, rest), e) ↦ ground (arith, e, pop_back-length newest b.queued rest e)
]

drain-le_from :
    (es : List Event) (b : Backlog)
    → length b.queued ≤ b.capacity
    → length (drain es b).1.queued ≤ b.capacity
unfolding drain
drain-le_from [] b h = h
drain-le_from (submitted r ∷ es) b h =
    ground (arith, push-bounds r b h, drain-le_from es (push r b).1)
drain-le_from (served ∷ es) b h =
    ground (arith, take_newest-bounds b h, drain-le_from es (take_newest b).1)

-- However requests come and go, the queue never holds more than its capacity, or one
-- where the capacity asked for is zero.
pub drain-le_capacity :
    (capacity : ℕ) (es : List Event)
    → length (drain es (with_capacity capacity)).1.queued ≤ max capacity 1
drain-le_capacity capacity es = drain-le_from es (with_capacity capacity) (omega arith)

push-ends :
    (r : RenderRequest) (c : ℕ) (qs : List RenderRequest)
    → 1 ≤ c
    → member r qs ≡ false
    → (rest : List RenderRequest) × ((push r (record { queued = qs; capacity = c })).1.queued
        ≡ rest ++ r ∷ [])
unfolding push member
push-ends r c [] k h = ([], rw (not-lt→ltb c 1 k, ltb) refl)
push-ends r c (p ∷ ps) k h = elim (Bool-cases (ltb c (length (p ∷ ps ++ r ∷ [])))) [
  | inl e ↦ (ps, ground (arith, h, e))
  | inr e ↦ (p ∷ ps, ground (arith, h, e))
]

-- With room for one request at least, a request pushed that was not already waiting is the next one
-- served.
pub take_newest-push :
    (r : RenderRequest) (b : Backlog)
    → 1 ≤ b.capacity
    → member r b.queued ≡ false
    → (take_newest (push r b).1).0 ≡ some r
unfolding take_newest
take_newest-push r b k h =
    let (rest, e) = push-ends r b.capacity b.queued k h in ground (arith, e, pop_back-append rest r)
