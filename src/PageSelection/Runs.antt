-- ===== src/PageSelection/Runs.antt =====
-- The runs of ascending indices: put end to end they are the indices, each is not empty, and no two
-- touch.
use open_pdf_editor.Base.{
  ℕ, zero, suc, ◌+◌, ◌-◌, ◌≤◌, ◌<◌, ◌≡◌, refl, ◌∙◌, inl, inr, List, [], ◌∷◌, ◌++◌, All, All-append,
  reverse, reverse-cons, append_assoc, append-nil, arith, ◌==◌, Bool-cases, sym, ap,
}
use open_pdf_editor.PageSelection.{indices_from, add_index, add_indices, contiguous_runs}
use open_pdf_editor.PageSelection.Sorting.{Ascends, All-mono}

-- the indices of one run
abbrev pub run_indices : ℕ × ℕ → List ℕ
run_indices (start, end) = indices_from start (end - start)

abbrev pub runs_indices : List (ℕ × ℕ) → List ℕ
runs_indices [] = []
runs_indices (r ∷ rs) = run_indices r ++ runs_indices rs

-- Runs in order: none is empty, and each ends before every later one begins, with a gap.
abbrev pub IsSplit : List (ℕ × ℕ) → Type 0
IsSplit [] = Unit
IsSplit (r ∷ rs) = (r.0 < r.1) × All (λ q. r.1 < q.0) rs × IsSplit rs

-- The same of the stack that the loop keeps, the last run on top.
abbrev IsStack : List (ℕ × ℕ) → Type 0
IsStack [] = Unit
IsStack (r ∷ rs) = (r.0 < r.1) × All (λ q. q.1 < r.0) rs × IsStack rs

-- The runs so far end at or before each of the indices to come.
abbrev EndsBefore : List (ℕ × ℕ) → List ℕ → Type 0
EndsBefore [] is = Unit
EndsBefore (r ∷ rs) is = All (λ i. r.1 ≤ i) is

indices_from-suc : (i n : ℕ) → indices_from i (suc n) ≡ indices_from i n ++ (i + n) ∷ []
unfolding indices_from
indices_from-suc i zero = let e : i ≡ i + zero = omega arith in ap (λ k. k ∷ []) e
indices_from-suc i (suc n) =
    let e : i + 1 + n ≡ i + suc n = omega arith in
    ap (i ∷◌) (indices_from-suc (i + 1) n ∙ ap (λ k. indices_from (i + 1) n ++ k ∷ []) e)

runs_indices-append :
    (rs qs : List (ℕ × ℕ)) → runs_indices (rs ++ qs) ≡ runs_indices rs ++ runs_indices qs
runs_indices-append [] qs = refl
runs_indices-append (r ∷ rs) qs =
    ap (λ l. run_indices r ++ l) (runs_indices-append rs qs)
    ∙ sym (append_assoc (run_indices r) (runs_indices rs) (runs_indices qs))

runs_indices-reverse-cons :
    (r : ℕ × ℕ) (rs : List (ℕ × ℕ))
    → runs_indices (reverse (r ∷ rs)) ≡ runs_indices (reverse rs) ++ run_indices r
runs_indices-reverse-cons r rs =
    ap runs_indices (reverse-cons r rs)
    ∙ runs_indices-append (reverse rs) (r ∷ [])
    ∙ ap (λ l. runs_indices (reverse rs) ++ l) (append-nil (run_indices r))

run_indices-one : (i : ℕ) → run_indices (i, i + 1) ≡ i ∷ []
unfolding indices_from
run_indices-one i = let e : i + 1 - i ≡ 1 = omega arith in ap (indices_from i) e

-- One index joins the indices of the runs at their end.
runs_indices-add_index :
    (runs : List (ℕ × ℕ)) (i : ℕ)
    → IsStack runs
    → runs_indices (reverse (add_index runs i)) ≡ runs_indices (reverse runs) ++ i ∷ []
unfolding add_index
runs_indices-add_index [] i s = append-nil (run_indices (i, i + 1)) ∙ run_indices-one i
runs_indices-add_index ((start, end) ∷ runs) i s = elim (Bool-cases (end == i)) [
  | inl joined ↦
      let e : end ≡ i = ground arith in
      let longer : i + 1 - start ≡ suc (end - start) = omega arith in
      let last : start + (end - start) ≡ i = omega arith in
      rw joined (
        runs_indices-reverse-cons (start, i + 1) runs
        ∙ ap (λ l. runs_indices (reverse runs) ++ l)
            (ap (indices_from start) longer
              ∙ indices_from-suc start (end - start)
              ∙ ap (λ k. indices_from start (end - start) ++ k ∷ []) last)
        ∙ sym (append_assoc (runs_indices (reverse runs)) (run_indices (start, end)) (i ∷ []))
        ∙ ap (λ l. l ++ i ∷ []) (sym (runs_indices-reverse-cons (start, end) runs)))
  | inr apart ↦ rw apart (
      runs_indices-reverse-cons (i, i + 1) ((start, end) ∷ runs)
      ∙ ap (λ l. runs_indices (reverse ((start, end) ∷ runs)) ++ l) (run_indices-one i))
]

All-ends :
    (b b' : ℕ) → b < b' → (rs : List (ℕ × ℕ)) → All (λ q. q.1 < b) rs → All (λ q. q.1 < b') rs
All-ends b b' h [] k = tt
All-ends b b' h (r ∷ rs) k = (omega arith, All-ends b b' h rs k.1)

add_index-IsStack :
    (runs : List (ℕ × ℕ)) (i : ℕ) (is : List ℕ)
    → IsStack runs
    → EndsBefore runs (i ∷ is)
    → All (λ j. i < j) is
    → IsStack (add_index runs i) × EndsBefore (add_index runs i) is
unfolding add_index
add_index-IsStack [] i is s b h = ((omega arith, tt, tt), All-mono (λ x k. omega arith) is h)
add_index-IsStack ((start, end) ∷ runs) i is s b h = elim (Bool-cases (end == i)) [
  | inl joined ↦ rw joined ((omega arith, s.1, s.2), All-mono (λ x k. omega arith) is h)
  | inr apart ↦
      let lt : end < i = ground (arith, b.0) in
      let lt' : start < i = omega arith in
      rw apart
        ((omega arith, (lt, All-ends start i lt' runs s.1), s), All-mono (λ x k. omega arith) is h)
]

add_indices_lem :
    (runs : List (ℕ × ℕ)) (is : List ℕ)
    → IsStack runs
    → EndsBefore runs is
    → Ascends is
    → IsStack (add_indices runs is)
      × (runs_indices (reverse (add_indices runs is)) ≡ runs_indices (reverse runs) ++ is)
unfolding add_indices
add_indices_lem runs [] s b a = (s, sym (append-nil (runs_indices (reverse runs))))
add_indices_lem runs (i ∷ is) s b a =
    let (s', b') = add_index-IsStack runs i is s b a.0 in
    let (t, e) = add_indices_lem (add_index runs i) is s' b' a.1 in
    (
      t,
      e
          ∙ ap (λ l. l ++ is) (runs_indices-add_index runs i s)
          ∙ append_assoc (runs_indices (reverse runs)) (i ∷ []) is,
    )

IsSplit-append_one :
    (rs : List (ℕ × ℕ)) (r : ℕ × ℕ)
    → r.0 < r.1
    → IsSplit rs
    → All (λ q. q.1 < r.0) rs
    → IsSplit (rs ++ r ∷ [])
IsSplit-append_one [] r h s b = (h, tt, tt)
IsSplit-append_one (q ∷ rs) r h s b =
    (s.0, All-append (λ p. q.1 < p.0) rs (r ∷ []) s.1 (b.0, tt), IsSplit-append_one rs r h s.2 b.1)

All-reverse : (P : ℕ × ℕ → Type 0) (rs : List (ℕ × ℕ)) → All P rs → All P (reverse rs)
All-reverse P [] h = tt
All-reverse P (r ∷ rs) h =
    rw reverse-cons (All-append P (reverse rs) (r ∷ []) (All-reverse P rs h.1) (h.0, tt))

IsSplit-reverse : (rs : List (ℕ × ℕ)) → IsStack rs → IsSplit (reverse rs)
IsSplit-reverse [] s = tt
IsSplit-reverse (r ∷ rs) s =
    rw reverse-cons
      (IsSplit-append_one (reverse rs) r s.0 (IsSplit-reverse rs s.2) (All-reverse _ rs s.1))

-- For ascending indices, the runs that `contiguous_runs` returns, put end to end, are the indices;
-- no run is empty, and each ends strictly before every later one begins, so no two could be joined.
pub contiguous_runs-IsSplit :
    (indices : List ℕ)
    → Ascends indices
    → (runs_indices (contiguous_runs indices) ≡ indices) × IsSplit (contiguous_runs indices)
unfolding contiguous_runs
contiguous_runs-IsSplit indices a =
    let (s, e) = add_indices_lem [] indices tt tt a in (e, IsSplit-reverse _ s)
