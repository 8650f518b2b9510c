-- ===== src/Tests/Selecting.antt =====
-- Selections of pages: `"1-3,7"` and its resolution.
use open_pdf_editor.Base.{ℕ, ◌≡◌, ◌<◌, ◌↔◌, refl, some, List, [], ◌∷◌, All, arith}
use open_pdf_editor.Error.{ok}
use open_pdf_editor.PageSelection.{
  SelectionPart, parse, resolve, contiguous_runs, all_indices, sort, dedup,
}
use open_pdf_editor.PageSelection.Sorting.{Contains, Ascends}
use open_pdf_editor.PageSelection.Parsing.{IsParsed, parse-ok}
use open_pdf_editor.PageSelection.Resolving.{
  WellFormed, Fits, SomeNames, resolve-ok, resolve-succeeds,
}
use open_pdf_editor.PageSelection.Runs.{IsSplit, runs_indices, contiguous_runs-IsSplit}

-- `1-3,7`
abbrev text : List ℕ
text = 49 ∷ 45 ∷ 51 ∷ 44 ∷ 55 ∷ []

abbrev closed : SelectionPart
closed = record { first = 1; last = some 3 }

abbrev single : SelectionPart
single = record { first = 7; last = some 7 }

text_lem : parse text ≡ ok (closed ∷ single ∷ [])
unfolding parse
text_lem = refl

parse-ok_example : All IsParsed (closed ∷ single ∷ [])
parse-ok_example = parse-ok text text_lem

parts-WellFormed : All WellFormed (closed ∷ single ∷ [])
parts-WellFormed = ((omega arith, λ l h. ground arith), ((omega arith, λ l h. ground arith), tt))

parts-Fits : All (Fits 10) (closed ∷ single ∷ [])
parts-Fits = ((omega arith, omega arith), ((omega arith, omega arith), tt))

abbrev indices : List ℕ
indices = 0 ∷ 1 ∷ 2 ∷ 6 ∷ []

indices_lem : resolve (closed ∷ single ∷ []) 10 ≡ ok indices
unfolding resolve all_indices dedup sort
indices_lem = refl

resolve-ok_example :
    All (Fits 10) (closed ∷ single ∷ [])
    × Ascends indices
    × All (λ i. i < 10) indices
    × ((i : ℕ) → Contains i indices ↔ SomeNames 10 (closed ∷ single ∷ []) i)
resolve-ok_example = resolve-ok 10 (closed ∷ single ∷ []) parts-WellFormed indices_lem

resolve-succeeds_example : (is : List ℕ) × (resolve (closed ∷ single ∷ []) 10 ≡ ok is)
resolve-succeeds_example = resolve-succeeds 10 closed (single ∷ []) parts-WellFormed parts-Fits

indices-Ascends : Ascends indices
indices-Ascends = (
  (omega arith, (omega arith, (omega arith, tt))),
  ((omega arith, (omega arith, tt)), ((omega arith, tt), (tt, tt))),
)

contiguous_runs-IsSplit_example :
    (runs_indices (contiguous_runs indices) ≡ indices) × IsSplit (contiguous_runs indices)
contiguous_runs-IsSplit_example = contiguous_runs-IsSplit indices indices-Ascends
