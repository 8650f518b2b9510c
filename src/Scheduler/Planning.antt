-- ===== src/Scheduler/Planning.antt =====
-- What a frame asks for, of the requests that it wants.
use open_pdf_editor.Base.{
  ℕ, zero, suc, ◌+◌, ◌-◌, ◌≤◌, All, subst, ◌≡◌, refl, sym, ap, ◌∙◌, Bool, true, false, List, [],
  ◌∷◌, ◌++◌, length, take, Option, none, some, arith, leb, if◌then◌else◌, Bool-cases, inl, inr,
  append-nil, append_assoc, length-append,
}
use open_pdf_editor.Page.{PageSize, Rotation}
use open_pdf_editor.VecDocument.Reading.{All-take}
use open_pdf_editor.Document.{DocumentSnapshot}
use open_pdf_editor.Render.{RenderRequest, request}
use open_pdf_editor.Scheduler.{
  RequestPlan, order_by_distance_from_focus, request_at, add_request, add_index, plan_each,
  plan_render_requests,
}

plan_ext :
    (plan other : RequestPlan)
    → plan.requests ≡ other.requests
    → plan.skipped ≡ other.skipped
    → plan ≡ other
plan_ext plan other h k = let record { requests = rs; skipped = m } = plan in cc

take-nil : {A : Type 0} (n : ℕ) → take {A = A} n [] ≡ []
take-nil zero = refl
take-nil (suc n) = refl

length-take : {A : Type 0} (n : ℕ) (xs : List A) → length (take n xs) ≤ n
length-take zero xs = omega arith
length-take (suc n) [] = omega arith
length-take (suc n) (x ∷ xs) = omega (arith, length-take n xs)

module _ (snapshot : DocumentSnapshot) (scale_for_page : PageSize → ℕ) (view_rotation : Rotation)
    (is_wanted : RenderRequest → Bool) (budget : ℕ) where
  abbrev keep_wanted : Option RenderRequest → List RenderRequest → List RenderRequest
  keep_wanted none rest = rest
  keep_wanted (some r) rest = if is_wanted r then r ∷ rest else rest

  -- The requests for the pages at the indices that are wanted, in order.
  unfoldable pub wanted : List ℕ → List RenderRequest
  wanted [] = []
  wanted (index ∷ indices) =
      keep_wanted (request_at snapshot scale_for_page view_rotation is_wanted budget index)
        (wanted indices)

  -- the first of `rs` as far as there is room behind `plan`, and the number of the others
  abbrev extended : RequestPlan → List RenderRequest → RequestPlan
  extended plan rs = record {
    requests = plan.requests ++ take (budget - length plan.requests) rs;
    skipped = plan.skipped + (length rs - (budget - length plan.requests));
  }

  add_request-extended :
      (r : RenderRequest) (rs : List RenderRequest) (plan : RequestPlan)
      → is_wanted r ≡ true
      → extended (add_request snapshot scale_for_page view_rotation is_wanted budget r plan) rs
        ≡ extended plan (r ∷ rs)
  unfolding add_request
  add_request-extended r rs plan h = elim (Bool-cases (leb budget (length plan.requests))) [
    | inl e ↦
        let full : budget - length plan.requests ≡ 0 = ground arith in
        rw (h, e, full) (plan_ext _ _ refl (omega arith))
    | inr e ↦
        let left = budget - (length plan.requests + 1) in
        let room : budget - length plan.requests ≡ suc left = ground arith in
        let longer : budget - length (plan.requests ++ r ∷ []) ≡ left =
          omega (arith, length-append plan.requests (r ∷ [])) in
        rw (h, e, room, longer)
          (plan_ext _ _ (append_assoc plan.requests (r ∷ []) (take left rs)) (omega arith))
  ]

  add_request_unwanted :
      (r : RenderRequest) (plan : RequestPlan)
      → is_wanted r ≡ false
      → add_request snapshot scale_for_page view_rotation is_wanted budget r plan ≡ plan
  unfolding add_request
  add_request_unwanted r plan h = rw h refl

  add_index-extended :
      (o : Option RenderRequest) (rs : List RenderRequest) (plan : RequestPlan)
      → extended (add_index snapshot scale_for_page view_rotation is_wanted budget o plan) rs
        ≡ extended plan (keep_wanted o rs)
  add_index-extended none rs plan = refl
  add_index-extended (some r) rs plan = elim (Bool-cases (is_wanted r)) [
    | inl e ↦
        let kept : keep_wanted (some r) rs ≡ r ∷ rs = rw e refl in
        add_request-extended r rs plan e ∙ ap (extended plan) (sym kept)
    | inr e ↦
        let kept : keep_wanted (some r) rs ≡ rs = rw e refl in
        ap (λ p. extended p rs) (add_request_unwanted r plan e) ∙ ap (extended plan) (sym kept)
  ]

  plan_each-extended :
      (indices : List ℕ) (plan : RequestPlan)
      → plan_each snapshot scale_for_page view_rotation is_wanted budget indices plan
        ≡ extended plan (wanted indices)
  unfolding plan_each wanted
  plan_each-extended [] plan =
      let none_left = append-nil plan.requests in
      plan_ext plan (extended plan [])
        (sym none_left
          ∙ ap (λ rs. plan.requests ++ rs) (sym (take-nil (budget - length plan.requests))))
        (omega arith)
  plan_each-extended (index ∷ indices) plan =
      let o = request_at snapshot scale_for_page view_rotation is_wanted budget index in
      plan_each-extended indices
        (add_index snapshot scale_for_page view_rotation is_wanted budget o plan)
      ∙ add_index-extended o (wanted indices) plan

  -- The plan of a frame has the first requests that are wanted, in the order of the pages' distances
  -- from the focus, as many as the budget allows, and counts all others.
  pub plan_render_requests-wanted :
      (start end focus : ℕ)
      → let rs = wanted (order_by_distance_from_focus start end focus) in
        let plan =
          plan_render_requests snapshot scale_for_page view_rotation is_wanted budget start end
            focus in
        (plan.requests ≡ take budget rs) × (plan.skipped ≡ length rs - budget)
  unfolding plan_render_requests
  plan_render_requests-wanted start end focus =
      let indices = order_by_distance_from_focus start end focus in
      let e = plan_each-extended indices (record { requests = []; skipped = 0 }) in
      let all : budget - 0 ≡ budget = omega arith in
      (
        ap (λ p. p.requests) e ∙ ap (λ n. take n (wanted indices)) all,
        omega (arith, ap (λ p. p.skipped) e),
      )

  -- a request that is wanted, for the snapshot
  abbrev pub IsPlanned : RenderRequest → Type 0
  IsPlanned r =
      (is_wanted r ≡ true)
      × (r.document ≡ snapshot.document)
      × (r.revision ≡ snapshot.revision)
      × (r.rotation ≡ view_rotation)

  request_at-IsPlanned :
      (index : ℕ) {r : RenderRequest}
      → request_at snapshot scale_for_page view_rotation is_wanted budget index ≡ some r
      → is_wanted r ≡ true
      → IsPlanned r
  unfolding request_at request
  request_at-IsPlanned index h k = (k, ground arith, ground arith, ground arith)

  keep_wanted-IsPlanned :
      (o : Option RenderRequest) (rs : List RenderRequest)
      → ((r : RenderRequest) → o ≡ some r → is_wanted r ≡ true → IsPlanned r)
      → All IsPlanned rs
      → All IsPlanned (keep_wanted o rs)
  keep_wanted-IsPlanned none rs k h = h
  keep_wanted-IsPlanned (some r) rs k h = elim (Bool-cases (is_wanted r)) [
    | inl e ↦ rw e (k r refl e, h)
    | inr e ↦ rw e h
  ]

  wanted-IsPlanned : (indices : List ℕ) → All IsPlanned (wanted indices)
  unfolding wanted
  wanted-IsPlanned [] = tt
  wanted-IsPlanned (index ∷ indices) =
      keep_wanted-IsPlanned _ (wanted indices) (λ r e k. request_at-IsPlanned index e k)
        (wanted-IsPlanned indices)

  pub plan_render_requests-IsPlanned :
      (start end focus : ℕ)
      → let plan =
          plan_render_requests snapshot scale_for_page view_rotation is_wanted budget start end
            focus in
        All IsPlanned plan.requests × (length plan.requests ≤ budget)
  plan_render_requests-IsPlanned start end focus =
      let rs = wanted (order_by_distance_from_focus start end focus) in
      let (e, _) = plan_render_requests-wanted start end focus in
      (
        subst (All IsPlanned) (sym e) (All-take IsPlanned budget rs (wanted-IsPlanned _)),
        omega (arith, ap length e, length-take budget rs),
      )
