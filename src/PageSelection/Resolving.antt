-- ===== src/PageSelection/Resolving.antt =====
-- What a selection resolves to, and when.
use native.Mathlib.Decide.{ℕ_discrete}
use open_pdf_editor.Base.{
  ℕ, zero, suc, ◌+◌, ◌-◌, ◌≤◌, ◌<◌, ◌≡◌, refl, ◌↔◌, ◌⊎◌, inl, inr, some, List, [], ◌∷◌, ◌++◌, All,
  arith, Option-cases, subst,
}
use open_pdf_editor.Error.{ok, Result-cases}
use open_pdf_editor.PageSelection.{
  SelectionPart, last_or, indices_from, part_indices, all_indices, sort, dedup, resolve,
}
use open_pdf_editor.PageSelection.Sorting.{Contains, Ascends, dedup-sort}

-- Page `i`, counted from 0, is one that the part names.
abbrev pub Names : ℕ → SelectionPart → ℕ → Type 0
Names page_count part i = (part.first ≤ i + 1) × (i + 1 ≤ last_or page_count part)

abbrev pub SomeNames : ℕ → List SelectionPart → ℕ → Type 0
SomeNames page_count [] i = ⊥
SomeNames page_count (part ∷ parts) i = Names page_count part i ⊎ SomeNames page_count parts i

-- What parsing gives: a part starts at 1 or more, and a closed one does not end before it starts.
abbrev pub WellFormed : SelectionPart → Type 0
WellFormed part = (1 ≤ part.first) × ((last : ℕ) → part.last ≡ some last → part.first ≤ last)

abbrev pub Fits : ℕ → SelectionPart → Type 0
Fits page_count part = (part.first ≤ page_count) × (last_or page_count part ≤ page_count)

Contains-append : (z : ℕ) (xs ys : List ℕ) → Contains z (xs ++ ys) ↔ (Contains z xs ⊎ Contains z ys)
Contains-append z [] ys = (λ h. inr h, λ h. elim h [ inl e ↦ absurd e | inr k ↦ k ])
Contains-append z (x ∷ xs) ys =
    let ih = Contains-append z xs ys in
    (
      λ h. elim h [
        | inl e ↦ inl (inl e)
        | inr k ↦ elim (ih.0 k) [ inl a ↦ inl (inr a) | inr b ↦ inr b ]
      ],
      λ h. elim h [
        | inl a ↦ elim a [ inl e ↦ inl e | inr k ↦ inr (ih.1 (inl k)) ]
        | inr b ↦ inr (ih.1 (inr b))
      ],
    )

Contains-indices_from : (z i n : ℕ) → Contains z (indices_from i n) ↔ ((i ≤ z) × (z < i + n))
unfolding indices_from
Contains-indices_from z i zero = (λ h. absurd h, λ h. absurd (omega arith))
Contains-indices_from z i (suc n) =
    let ih = Contains-indices_from z (i + 1) n in
    (
      λ h. elim h [
        | inl e ↦ (omega arith, omega arith)
        | inr k ↦ let (a, b) = ih.0 k in (omega arith, omega arith)
      ],
      λ h. elim (ℕ_discrete i z) [ yes e ↦ inl e | no ne ↦ inr (ih.1 (omega arith, omega arith)) ],
    )

-- The three ways that one part goes.
part_indices-ok :
    (n : ℕ) (part : SelectionPart) {is : List ℕ}
    → 1 ≤ part.first
    → part_indices n part ≡ ok is
    → Fits n part × ((i : ℕ) → Contains i is ↔ Names n part i)
unfolding part_indices
part_indices-ok n part {is} h e =
    let first_fits : part.first ≤ n = ground arith in
    let last_fits : last_or n part ≤ n = ground arith in
    let f : is ≡ indices_from (part.first - 1) (last_or n part + 1 - part.first) = ground arith in
    (
      (first_fits, last_fits),
      λ i.
          let c = Contains-indices_from i (part.first - 1) (last_or n part + 1 - part.first) in
          rw f (λ k. let (a, b) = c.0 k in (omega arith, omega arith), λ k. c.1 (omega arith)),
    )

part_indices-succeeds :
    (n : ℕ) (part : SelectionPart) → Fits n part → (is : List ℕ) × (part_indices n part ≡ ok is)
unfolding part_indices
part_indices-succeeds n part h =
    (indices_from (part.first - 1) (last_or n part + 1 - part.first), ground arith)

pub all_indices-ok :
    (n : ℕ) (parts : List SelectionPart) {is : List ℕ}
    → All WellFormed parts
    → all_indices n parts ≡ ok is
    → All (Fits n) parts × ((i : ℕ) → Contains i is ↔ SomeNames n parts i)
unfolding all_indices
all_indices-ok n [] w e = (tt, λ i. subst (λ l. Contains i l ↔ ⊥) {x = []} (cc) (λ h. h, λ h. h))
all_indices-ok n (part ∷ parts) {is} w e = elim (Result-cases (part_indices n part)) [
  | inr (x, f) ↦ absurd (ground arith)
  | inl (here, f) ↦ elim (Result-cases (all_indices n parts)) [
    | inr (x, g) ↦ absurd (ground arith)
    | inl (rest, g) ↦
        let (fits, c) = part_indices-ok n part w.0.0 f in
        let (all_fit, d) = all_indices-ok n parts w.1 g in
        let together : is ≡ here ++ rest = ground arith in
        (
          (fits, all_fit),
          λ i.
              let a = Contains-append i here rest in
              rw together (
                λ h. elim (a.0 h) [ inl k ↦ inl ((c i).0 k) | inr k ↦ inr ((d i).0 k) ],
                λ h. a.1 (elim h [ inl k ↦ inl ((c i).1 k) | inr k ↦ inr ((d i).1 k) ]),
              ),
        )
  ]
]

all_indices-succeeds :
    (n : ℕ) (parts : List SelectionPart)
    → All (Fits n) parts
    → (is : List ℕ) × (all_indices n parts ≡ ok is)
unfolding all_indices
all_indices-succeeds n [] h = ([], refl)
all_indices-succeeds n (part ∷ parts) h =
    let (here, e) = part_indices-succeeds n part h.0 in
    let (rest, f) = all_indices-succeeds n parts h.1 in (here ++ rest, rw (e, f))

SomeNames-lt :
    (n : ℕ) (parts : List SelectionPart) (i : ℕ) → All (Fits n) parts → SomeNames n parts i → i < n
SomeNames-lt n [] i h k = absurd k
SomeNames-lt n (part ∷ parts) i h (inl k) = omega arith
SomeNames-lt n (part ∷ parts) i h (inr k) = SomeNames-lt n parts i h.1 k

All-of_Contains : (P : ℕ → Type 0) (xs : List ℕ) → ((i : ℕ) → Contains i xs → P i) → All P xs
All-of_Contains P [] f = tt
All-of_Contains P (x ∷ xs) f = (f x (inl refl), All-of_Contains P xs (λ i k. f i (inr k)))

-- A well-formed selection that resolves against `n` pages fits them, and the indices ascend
-- strictly, are all below `n`, and are exactly the pages that some part names.
pub resolve-ok :
    (n : ℕ) (parts : List SelectionPart) {is : List ℕ}
    → All WellFormed parts
    → resolve parts n ≡ ok is
    → All (Fits n) parts
      × Ascends is
      × All (λ i. i < n) is
      × ((i : ℕ) → Contains i is ↔ SomeNames n parts i)
unfolding resolve
resolve-ok n parts {is} w e = elim (Result-cases (all_indices n parts)) [
  | inr (x, f) ↦ absurd (ground arith)
  | inl (all, f) ↦
      let (fits, c) = all_indices-ok n parts w f in
      let (a, d) = dedup-sort all in
      let g : is ≡ dedup (sort all) = ground arith in
      let named : (i : ℕ) → Contains i (dedup (sort all)) ↔ SomeNames n parts i =
        λ i. (λ k. (c i).0 ((d i).0 k), λ k. (d i).1 ((c i).1 k)) in
      rw g (
        fits,
        a,
        All-of_Contains _ (dedup (sort all)) (λ i k. SomeNames-lt n parts i fits ((named i).0 k)),
        named,
      )
]

some_of_fit :
    (n : ℕ) (part : SelectionPart) (parts : List SelectionPart)
    → WellFormed part
    → Fits n part
    → SomeNames n (part ∷ parts) (part.first - 1)
some_of_fit n part parts w h = elim (Option-cases part.last) [
  | inl open_ended ↦ inl (omega arith, ground arith)
  | inr (last, e) ↦ inl (omega arith, ground (arith, w.1 last e))
]

-- A well-formed selection of at least one part resolves against `n` pages whenever every part fits
-- them.
pub resolve-succeeds :
    (n : ℕ) (part : SelectionPart) (parts : List SelectionPart)
    → All WellFormed (part ∷ parts)
    → All (Fits n) (part ∷ parts)
    → (is : List ℕ) × (resolve (part ∷ parts) n ≡ ok is)
unfolding resolve
resolve-succeeds n part parts w h =
    let (all, e) = all_indices-succeeds n (part ∷ parts) h in
    let (_, c) = all_indices-ok n (part ∷ parts) w e in
    let (_, d) = dedup-sort all in
    let found = (d _).1 ((c _).1 (some_of_fit n part parts w.0 h.0)) in
    go all e (dedup (sort all)) refl found
  where
    go :
        (all : List ℕ)
        → all_indices n (part ∷ parts) ≡ ok all
        → (is : List ℕ) → dedup (sort all) ≡ is
        → Contains (part.first - 1) is
        → (is : List ℕ) × (resolve (part ∷ parts) n ≡ ok is)
    go all e [] f k = absurd k
    go all e (i ∷ is) f k = (i ∷ is, ground (arith, e, f))
