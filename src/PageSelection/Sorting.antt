-- ===== src/PageSelection/Sorting.antt =====
-- Sorting and removing duplicates: the result ascends strictly and holds the same numbers.
use open_pdf_editor.Base.{
  ℕ, ◌≤◌, ◌<◌, ◌≡◌, ◌↔◌, ◌⊎◌, inl, inr, List, [], ◌∷◌, All, arith, leb, ◌==◌, Bool-cases, subst,
}
use open_pdf_editor.PageSelection.{insert_sorted, sort, dedup_after, dedup}

abbrev pub Contains : ℕ → List ℕ → Type 0
Contains x [] = ⊥
Contains x (y ∷ ys) = (y ≡ x) ⊎ Contains x ys

abbrev pub IsSorted : List ℕ → Type 0
IsSorted [] = Unit
IsSorted (x ∷ xs) = All (λ y. x ≤ y) xs × IsSorted xs

abbrev pub Ascends : List ℕ → Type 0
Ascends [] = Unit
Ascends (x ∷ xs) = All (λ y. x < y) xs × Ascends xs

pub All-mono : {P Q : ℕ → Type 0} → ((x : ℕ) → P x → Q x) → (xs : List ℕ) → All P xs → All Q xs
All-mono f [] h = tt
All-mono f (x ∷ xs) (p, ps) = (f x p, All-mono f xs ps)

All-insert_sorted :
    (P : ℕ → Type 0) (x : ℕ) (xs : List ℕ) → P x → All P xs → All P (insert_sorted x xs)
unfolding insert_sorted
All-insert_sorted P x [] p h = (p, tt)
All-insert_sorted P x (y ∷ ys) p h = elim (Bool-cases (leb x y)) [
  | inl le ↦ rw le (p, h)
  | inr gt ↦ rw gt (h.0, All-insert_sorted P x ys p h.1)
]

insert_sorted-IsSorted : (x : ℕ) (xs : List ℕ) → IsSorted xs → IsSorted (insert_sorted x xs)
unfolding insert_sorted
insert_sorted-IsSorted x [] s = (tt, tt)
insert_sorted-IsSorted x (y ∷ ys) s = elim (Bool-cases (leb x y)) [
  | inl below ↦
      let h : x ≤ y = ground arith in rw below ((h, All-mono (λ z k. omega arith) ys s.0), s)
  | inr above ↦
      let h : y ≤ x = ground arith in
      rw above (All-insert_sorted (λ z. y ≤ z) x ys h s.0, insert_sorted-IsSorted x ys s.1)
]

sort-IsSorted : (xs : List ℕ) → IsSorted (sort xs)
unfolding sort
sort-IsSorted [] = tt
sort-IsSorted (x ∷ xs) = insert_sorted-IsSorted x (sort xs) (sort-IsSorted xs)

Contains-insert_sorted :
    (z x : ℕ) (xs : List ℕ) → Contains z (insert_sorted x xs) ↔ ((x ≡ z) ⊎ Contains z xs)
unfolding insert_sorted
Contains-insert_sorted z x [] = (λ h. h, λ h. h)
Contains-insert_sorted z x (y ∷ ys) =
    let ih = Contains-insert_sorted z x ys in
    elim (Bool-cases (leb x y)) [
      | inl below ↦ rw below (λ h. h, λ h. h)
      | inr above ↦ rw above (forward ih, backward ih)
    ]
  where
    forward :
        (Contains z (insert_sorted x ys) ↔ ((x ≡ z) ⊎ Contains z ys))
        → (y ≡ z) ⊎ Contains z (insert_sorted x ys)
        → (x ≡ z) ⊎ ((y ≡ z) ⊎ Contains z ys)
    forward ih (inl e) = inr (inl e)
    forward ih (inr m) = elim (ih.0 m) [ inl e ↦ inl e | inr k ↦ inr (inr k) ]

    backward :
        (Contains z (insert_sorted x ys) ↔ ((x ≡ z) ⊎ Contains z ys))
        → (x ≡ z) ⊎ ((y ≡ z) ⊎ Contains z ys)
        → (y ≡ z) ⊎ Contains z (insert_sorted x ys)
    backward ih (inl e) = inr (ih.1 (inl e))
    backward ih (inr (inl e)) = inl e
    backward ih (inr (inr k)) = inr (ih.1 (inr k))

Contains-sort : (z : ℕ) (xs : List ℕ) → Contains z (sort xs) ↔ Contains z xs
unfolding sort
Contains-sort z [] = (λ h. h, λ h. h)
Contains-sort z (x ∷ xs) =
    let ih = Contains-sort z xs in
    let step = Contains-insert_sorted z x (sort xs) in
    (
      λ h. elim (step.0 h) [ inl e ↦ inl e | inr k ↦ inr (ih.0 k) ],
      λ h. step.1 (elim h [ inl e ↦ inl e | inr k ↦ inr (ih.1 k) ]),
    )

All-dedup_after : (P : ℕ → Type 0) (x : ℕ) (xs : List ℕ) → All P xs → All P (dedup_after x xs)
unfolding dedup_after
All-dedup_after P x [] h = tt
All-dedup_after P x (y ∷ ys) h = elim (Bool-cases (x == y)) [
  | inl same ↦ rw same (All-dedup_after P y ys h.1)
  | inr new ↦ rw new (h.0, All-dedup_after P y ys h.1)
]

dedup_after-Ascends : (x : ℕ) (xs : List ℕ) → IsSorted (x ∷ xs) → Ascends (x ∷ dedup_after x xs)
unfolding dedup_after
dedup_after-Ascends x [] s = (tt, tt)
dedup_after-Ascends x (y ∷ ys) s =
    let (above, rest) = dedup_after-Ascends y ys s.1 in
    elim (Bool-cases (x == y)) [
      | inl same ↦
          let e : y ≡ x = ground arith in
          rw same (subst (λ w. All (λ z. w < z) (dedup_after y ys)) e above, rest)
      | inr new ↦
          let lt : x < y = ground (arith, s.0.0) in
          rw new ((lt, All-mono (λ z k. omega arith) (dedup_after y ys) above), (above, rest))
    ]

Contains-dedup_after :
    (z x : ℕ) (xs : List ℕ) → Contains z (x ∷ dedup_after x xs) ↔ Contains z (x ∷ xs)
unfolding dedup_after
Contains-dedup_after z x [] = (λ h. h, λ h. h)
Contains-dedup_after z x (y ∷ ys) =
    let ih = Contains-dedup_after z y ys in
    elim (Bool-cases (x == y)) [
      | inl same ↦
          let e : y ≡ x = ground arith in
          rw same (
            λ h. elim h [ inl a ↦ inl a | inr k ↦ inr (ih.0 (inr k)) ],
            λ h. elim h [
              | inl a ↦ inl a
              | inr k ↦ elim (ih.1 k) [ inl b ↦ inl (ground arith) | inr c ↦ inr c ]
            ],
          )
      | inr new ↦ rw new (
        λ h. elim h [ inl a ↦ inl a | inr k ↦ inr (ih.0 k) ],
        λ h. elim h [ inl a ↦ inl a | inr k ↦ inr (ih.1 k) ],
      )
    ]

-- `sort` and then `dedup` give the same numbers, each once and in order.
pub dedup-sort :
    (xs : List ℕ)
    → Ascends (dedup (sort xs)) × ((z : ℕ) → Contains z (dedup (sort xs)) ↔ Contains z xs)
unfolding dedup
dedup-sort xs = go (sort xs) (sort-IsSorted xs) (λ z. Contains-sort z xs)
  where
    go :
        (ys : List ℕ)
        → IsSorted ys
        → ((z : ℕ) → Contains z ys ↔ Contains z xs)
        → Ascends (dedup ys) × ((z : ℕ) → Contains z (dedup ys) ↔ Contains z xs)
    go [] s f = (tt, f)
    go (y ∷ ys) s f = (
      dedup_after-Ascends y ys s,
      λ z. let g = Contains-dedup_after z y ys in (λ h. (f z).0 (g.0 h), λ h. g.1 ((f z).1 h)),
    )
