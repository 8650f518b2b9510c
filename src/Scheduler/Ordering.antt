-- ===== src/Scheduler/Ordering.antt =====
-- The order in which pages are asked for.
use open_pdf_editor.Base.{
  ℕ, zero, suc, ◌+◌, ◌-◌, ◌≤◌, ◌<◌, ◌≡◌, ◌≢◌, ◌↔◌, ◌⊎◌, inl, inr, true, false, List, [], ◌∷◌, All,
  arith, Bool-cases,
}
use open_pdf_editor.PageSelection.{indices_from}
use open_pdf_editor.PageSelection.Sorting.{Contains}
use open_pdf_editor.Scheduler.{
  abs_diff, key_le, insert_by_key, sort_by_key, order_by_distance_from_focus,
}

-- `x` is nearer to the focus than `y`, or as near and later.
abbrev pub IsNearer : ℕ → ℕ → ℕ → Type 0
IsNearer focus x y =
    (abs_diff x focus < abs_diff y focus) ⊎ ((abs_diff x focus ≡ abs_diff y focus) × (y < x))

abbrev pub IsOrdered : ℕ → List ℕ → Type 0
IsOrdered focus [] = Unit
IsOrdered focus (x ∷ xs) = All (IsNearer focus x) xs × IsOrdered focus xs

key_le-IsNearer : (focus x y : ℕ) → x ≢ y → key_le focus x y ≡ true → IsNearer focus x y
unfolding key_le
key_le-IsNearer focus x y ne h = ground (arith, h, ne)

IsNearer-swap : (focus x y : ℕ) → x ≢ y → key_le focus x y ≡ false → IsNearer focus y x
unfolding key_le
IsNearer-swap focus x y ne h = ground (arith, h, ne)

IsNearer-trans : (focus x y z : ℕ) → IsNearer focus x y → IsNearer focus y z → IsNearer focus x z
IsNearer-trans focus x y z h k = ground (arith, h, k)

All-IsNearer-trans :
    (focus x y : ℕ) (ys : List ℕ)
    → IsNearer focus x y
    → All (IsNearer focus y) ys
    → All (IsNearer focus x) ys
All-IsNearer-trans focus x y [] h k = tt
All-IsNearer-trans focus x y (z ∷ zs) h (k, ks) =
    (IsNearer-trans focus x y z h k, All-IsNearer-trans focus x y zs h ks)

insert_by_key-All :
    (P : ℕ → Type 0) (focus x : ℕ) (ys : List ℕ) → P x → All P ys → All P (insert_by_key focus x ys)
unfolding insert_by_key
insert_by_key-All P focus x [] h k = (h, tt)
insert_by_key-All P focus x (y ∷ ys) h (k, ks) = elim (Bool-cases (key_le focus x y)) [
  | inl e ↦ rw e (h, (k, ks))
  | inr e ↦ rw e (k, insert_by_key-All P focus x ys h ks)
]

insert_by_key-IsOrdered :
    (focus x : ℕ) (ys : List ℕ)
    → All (λ y. x ≢ y) ys
    → IsOrdered focus ys
    → IsOrdered focus (insert_by_key focus x ys)
unfolding insert_by_key
insert_by_key-IsOrdered focus x [] ne o = (tt, tt)
insert_by_key-IsOrdered focus x (y ∷ ys) (ne, nes) (o, os) = elim (Bool-cases (key_le focus x y)) [
  | inl e ↦
      let near = key_le-IsNearer focus x y ne e in
      rw e ((near, All-IsNearer-trans focus x y ys near o), (o, os))
  | inr e ↦ rw e (
    insert_by_key-All (IsNearer focus y) focus x ys (IsNearer-swap focus x y ne e) o,
    insert_by_key-IsOrdered focus x ys nes os,
  )
]

sort_by_key-All :
    (P : ℕ → Type 0) (focus : ℕ) (xs : List ℕ) → All P xs → All P (sort_by_key focus xs)
unfolding sort_by_key
sort_by_key-All P focus [] h = tt
sort_by_key-All P focus (x ∷ xs) (h, hs) =
    insert_by_key-All P focus x (sort_by_key focus xs) h (sort_by_key-All P focus xs hs)

-- no index of a range is one below its start
indices_from-ne : (i start count : ℕ) → i < start → All (λ j. i ≢ j) (indices_from start count)
unfolding indices_from
indices_from-ne i start zero h = tt
indices_from-ne i start (suc count) h =
    (λ e. omega (arith, h, e), indices_from-ne i (start + 1) count (omega arith))

sorted_range-IsOrdered :
    (focus start count : ℕ) → IsOrdered focus (sort_by_key focus (indices_from start count))
unfolding sort_by_key indices_from
sorted_range-IsOrdered focus start zero = tt
sorted_range-IsOrdered focus start (suc count) =
    insert_by_key-IsOrdered focus start (sort_by_key focus (indices_from (start + 1) count))
      (sort_by_key-All (λ j. start ≢ j) focus (indices_from (start + 1) count)
        (indices_from-ne start (start + 1) count (omega arith)))
      (sorted_range-IsOrdered focus (start + 1) count)

Contains-insert_by_key :
    (z focus x : ℕ) (ys : List ℕ)
    → Contains z (insert_by_key focus x ys) ↔ ((x ≡ z) ⊎ Contains z ys)
unfolding insert_by_key
Contains-insert_by_key z focus x [] = (λ h. h, λ h. h)
Contains-insert_by_key z focus x (y ∷ ys) =
    let (f, g) = Contains-insert_by_key z focus x ys in
    elim (Bool-cases (key_le focus x y)) [
      | inl e ↦ rw e (λ h. h, λ h. h)
      | inr e ↦ rw e (λ h. ground (arith, h, f), λ h. ground (arith, h, g))
    ]

Contains-range :
    (z start count : ℕ)
    → Contains z (indices_from start count) ↔ ((start ≤ z) × (z < start + count))
unfolding indices_from
Contains-range z start zero = (λ h. elim h [ ], λ (h, k). absurd (omega (arith, h, k)))
Contains-range z start (suc count) =
    let (f, g) = Contains-range z (start + 1) count in
    (λ h. ground (arith, h, f), λ h. ground (arith, h, g))

Contains-sort_by_key :
    (z focus start count : ℕ)
    → Contains z (sort_by_key focus (indices_from start count))
      ↔ Contains z (indices_from start count)
unfolding sort_by_key indices_from
Contains-sort_by_key z focus start zero = (λ h. h, λ h. h)
Contains-sort_by_key z focus start (suc count) =
    let rest = sort_by_key focus (indices_from (start + 1) count) in
    let (f, g) = Contains-insert_by_key z focus start rest in
    let (p, q) = Contains-sort_by_key z focus (start + 1) count in
    (λ h. ground (arith, f, p, h), λ h. ground (arith, h, g, q))

-- The order holds exactly the indices of the visible range, each nearer to the focus than all behind
-- it, or as near and the later page of the two.
pub order_by_distance_from_focus-IsOrdered :
    (start end focus : ℕ)
    → IsOrdered focus (order_by_distance_from_focus start end focus)
      × ((z : ℕ)
          → Contains z (order_by_distance_from_focus start end focus) ↔ ((start ≤ z) × (z < end)))
unfolding order_by_distance_from_focus
order_by_distance_from_focus-IsOrdered start end focus = (
  sorted_range-IsOrdered focus start (end - start),
  λ z.
      let (f, g) = Contains-sort_by_key z focus start (end - start) in
      let (p, q) = Contains-range z start (end - start) in
      (λ h. let (a, b) = p (f h) in (a, omega arith), λ (a, b). g (q (a, omega arith))),
)
