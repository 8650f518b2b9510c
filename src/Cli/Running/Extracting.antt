-- ===== src/Cli/Running/Extracting.antt =====
-- What the `extract` subcommand writes, over the PDF document (`run_extract` of
-- opdf-cli/src/run.rs).
use open_pdf_editor.Base.{
  Any, Any-append_left, Any-append_right, inl, inr, append_assoc, append-nil, ℕ, zero, suc, ◌+◌,
  ◌-◌, ◌≤◌, ◌<◌, ◌≡◌, refl, sym, ap, ◌∙◌, subst, arith, ◌⊎◌, true, false, ◌&&◌, not, List, [], ◌∷◌,
  ◌++◌, map, All, length, get_elem?, take, drop, map-append, some,
}
use open_pdf_editor.Error.{ok, malformed}
use open_pdf_editor.VecDocument.{VecDocument}
use open_pdf_editor.Page.{PageId, PageInfo}
use open_pdf_editor.VecDocument
use open_pdf_editor.VecDocument.Reading.{ids_of}
use open_pdf_editor.VecDocument.Valid.{Valid}
use open_pdf_editor.VecDocument.Importing.{after_append}
use open_pdf_editor.Transfer.Extracting.{length-map, take-map, drop-map, slice}
use open_pdf_editor.PageSelection.{indices_from, resolve, contiguous_runs}
use open_pdf_editor.PageSelection.Runs.{run_indices, runs_indices, IsSplit, contiguous_runs-IsSplit}
use open_pdf_editor.PageSelection.Resolving.{WellFormed, resolve-ok}
use open_pdf_editor.PdfDocument.{PdfDocument, Objects, pdf_document, page_count, page_ids}
use open_pdf_editor.PdfDocument.Refinement.{shown, page_count-shown, page_ids-shown}
use open_pdf_editor.PdfDocument.Importing.{Uncopyable}
use open_pdf_editor.Cli.Running.Documents.{extract_range-cases}
use open_pdf_editor.Cli.{success, failure, operation}
use open_pdf_editor.Cli.Arguments.{ExtractArgs}
use open_pdf_editor.Cli.Running.Contents.{content, contents, contents-after_append}
use open_pdf_editor.Cli.Running.{
  DocumentIo, ◌>>=◌, guard_output, open_document, saved, extract_runs, run_extract,
}

drop_at :
    {A : Type 0} (xs : List A) (i : ℕ)
    → i < length xs
    → (x : A) × (get_elem? xs i ≡ some x) × (drop i xs ≡ x ∷ drop (i + 1) xs)
drop_at [] i h = absurd (omega arith)
drop_at (x ∷ xs) zero h = (x, refl, refl)
drop_at (x ∷ xs) (suc i) h =
    let e : suc i + 1 ≡ suc (i + 1) = omega arith in rw e (drop_at xs i (omega arith))

-- the elements at the indices of a run are the slice
get_elem?-indices_from :
    {A : Type 0} (xs : List A) (i n : ℕ)
    → i + n ≤ length xs
    → map (get_elem? xs) (indices_from i n) ≡ map some (take n (drop i xs))
unfolding indices_from
get_elem?-indices_from xs i zero h = refl
get_elem?-indices_from xs i (suc n) h =
    let (x, e, f) = drop_at xs i (omega arith) in
    let rest = get_elem?-indices_from xs (i + 1) n (omega arith) in rw (e, f) (ap (some x ∷◌) rest)

abbrev InRange : ℕ → ℕ × ℕ → Type 0
InRange n r = (r.0 ≤ r.1) × (r.1 ≤ n)

last_of_run :
    (n i count : ℕ) (rest : List ℕ)
    → 1 ≤ count
    → All (λ j. j < n) (indices_from i count ++ rest)
    → (i + count ≤ n) × All (λ j. j < n) rest
unfolding indices_from
last_of_run n i zero rest h a = absurd (omega arith)
last_of_run n i (suc zero) rest h (a, more) = (omega arith, more)
last_of_run n i (suc (suc count)) rest h (a, more) =
    let (b, bs) = last_of_run n (i + 1) (suc count) rest (omega arith) more in (omega arith, bs)

runs-InRange :
    (n : ℕ) (runs : List (ℕ × ℕ))
    → IsSplit runs
    → All (λ i. i < n) (runs_indices runs)
    → All (InRange n) runs
runs-InRange n [] s a = tt
runs-InRange n ((start, end) ∷ runs) (h, _, s) a =
    let (b, bs) = last_of_run n start (end - start) (runs_indices runs) (omega arith) a in
    ((omega arith, omega arith), runs-InRange n runs s bs)

-- the slice that a run appends
contents-slice :
    (source : VecDocument) (start end : ℕ)
    → start ≤ end
    → end ≤ length source.pages
    → map some (map content (slice source start end))
      ≡ map (get_elem? (contents source)) (run_indices (start, end))
contents-slice source start end h k =
    let counted = length-map content source.pages in
    let taken : map content (slice source start end)
        ≡ take (end - start) (drop start (contents source)) =
      sym (take-map content (end - start) (drop start source.pages))
      ∙ ap (take (end - start)) (sym (drop-map content start source.pages)) in
    ap (map some) taken
    ∙ sym (get_elem?-indices_from (contents source) start (end - start) (omega arith))

contents-append_slice :
    (source target : VecDocument) (start end : ℕ) (more : List ℕ)
    → start ≤ end
    → end ≤ length source.pages
    → map some (contents (after_append target (slice source start end)))
        ++ map (get_elem? (contents source)) more
      ≡ map some (contents target)
        ++ map (get_elem? (contents source)) (run_indices (start, end) ++ more)
contents-append_slice source target start end more h k =
    let ps = slice source start end in
    let rest = map (get_elem? (contents source)) more in
    ap (λ l. map some l ++ rest) (contents-after_append target ps)
    ∙ ap (λ l. l ++ rest) (map-append some (contents target) (map content ps))
    ∙ append_assoc (map some (contents target)) (map some (map content ps)) rest
    ∙ ap (λ l. map some (contents target) ++ l)
        (ap (λ l. l ++ rest) (contents-slice source start end h k)
          ∙ sym (map-append (get_elem? (contents source)) (run_indices (start, end)) more))

-- The page at an index of the source cannot be copied.
abbrev pub UncopyableAt : {O : Type 0} → Objects O → PdfDocument O → ℕ → Type 0
UncopyableAt objects source i =
    (id : PageId) × (get_elem? (page_ids source) i ≡ some id) × Uncopyable objects source id

-- one of the pages of a run is a page at one of its indices
Any-indices_from :
    {O : Type 0} (objects : Objects O) (source : PdfDocument O) (i n : ℕ)
    → i + n ≤ length (page_ids source)
    → Any (Uncopyable objects source) (take n (drop i (page_ids source)))
    → Any (UncopyableAt objects source) (indices_from i n)
unfolding indices_from
Any-indices_from objects source i zero h u = absurd u
Any-indices_from objects source i (suc n) h u =
    let (id, e, f) = drop_at (page_ids source) i (omega arith) in
    elim (subst (λ ids. Any (Uncopyable objects source) (take (suc n) ids)) f u) [
      | inl one ↦ inl (id, e, one)
      | inr more ↦ inr (Any-indices_from objects source (i + 1) n (omega arith) more)
    ]

Any-run :
    {O : Type 0} (objects : Objects O) (source : PdfDocument O) (start end : ℕ)
    → start ≤ end
    → end ≤ length (shown source).pages
    → Any (Uncopyable objects source) (ids_of (slice (shown source) start end))
    → Any (UncopyableAt objects source) (run_indices (start, end))
unfolding VecDocument.page_ids
Any-run objects source start end h k u =
    let ids = page_ids-shown source in
    let counted : length (page_ids source) ≡ length (shown source).pages =
      ap length (sym ids) ∙ length-map (λ (p : PageInfo). p.id) (shown source).pages in
    let taken : ids_of (slice (shown source) start end)
        ≡ take (end - start) (drop start (page_ids source)) =
      sym (take-map (λ p. p.id) (end - start) (drop start (shown source).pages))
      ∙ ap (take (end - start)) (sym (drop-map (λ p. p.id) start (shown source).pages))
      ∙ ap (λ l. take (end - start) (drop start l)) ids in
    Any-indices_from objects source start (end - start) (omega arith)
      (subst (Any (Uncopyable objects source)) taken u)

module _ {O W : Type 0} (objects : Objects O) (io : DocumentIo (PdfDocument O) W) where
  -- the elements at the indices of all the runs are appended, or a page cannot be copied
  extract_runs-cases :
      (source : PdfDocument O) (runs : List (ℕ × ℕ)) (target : PdfDocument O)
      → Valid (shown source)
      → All (InRange (length (shown source).pages)) runs
      → ((output : PdfDocument O) × (extract_runs (pdf_document objects) io source runs target
            ≡ success output)
          × (map some (contents (shown output))
              ≡ map some (contents (shown target))
                ++ map (get_elem? (contents (shown source))) (runs_indices runs)))
        ⊎ (Any (UncopyableAt objects source) (runs_indices runs)
            × (extract_runs (pdf_document objects) io source runs target
                ≡ failure (operation malformed)))
  unfolding extract_runs
  extract_runs-cases source [] target v a = inl (target, refl, sym (append-nil _))
  extract_runs-cases source ((start, end) ∷ runs) target v ((h, k), a) =
      elim (extract_range-cases objects source target start end v h k) [
        | inr (u, (d, one)) ↦ inr (
          Any-append_left (UncopyableAt objects source) (run_indices (start, end))
              (runs_indices runs) (Any-run objects source start end h k u),
          rw (extract_runs, one) refl,
        )
        | inl (x, next, one, same) ↦ elim (extract_runs-cases source runs next v a) [
          | inr (u, e) ↦ inr (
            Any-append_right (UncopyableAt objects source) (run_indices (start, end))
                (runs_indices runs) u,
            rw (extract_runs, one) e,
          )
          | inl (output, e, c) ↦ inl (
            output,
            rw (extract_runs, one) e,
            c
                ∙ ap
                    (λ shows.
                      map some (contents shows)
                      ++ map (get_elem? (contents (shown source))) (runs_indices runs))
                    same
                ∙ contents-append_slice (shown source) (shown target) start end (runs_indices runs)
                    h k,
          )
        ]
      ]

  extraction-cases :
      (source empty : PdfDocument O) (args : ExtractArgs) {indices : List ℕ}
      → Valid (shown source)
      → (shown empty).pages ≡ []
      → All WellFormed args.pages
      → resolve args.pages (page_count source) ≡ ok indices
      → ((output : PdfDocument O) × (extract_runs
              (pdf_document objects)
              io
              source
              (contiguous_runs indices)
              empty
            ≡ success output)
          × (map some (contents (shown output))
              ≡ map (get_elem? (contents (shown source))) indices))
        ⊎ (Any (UncopyableAt objects source) indices
            × (extract_runs (pdf_document objects) io source (contiguous_runs indices) empty
                ≡ failure (operation malformed)))
  extraction-cases source empty args {indices} v n p r =
      let (_, ascends, bounded, _) = resolve-ok (page_count source) args.pages p r in
      let (same, split) = contiguous_runs-IsSplit indices ascends in
      let counted = sym (page_count-shown source) in
      let inside = runs-InRange (length (shown source).pages) (contiguous_runs indices) split (
        subst (All (λ i. i < length (shown source).pages)) (sym same)
          (subst (λ n. All (λ i. i < n) indices) counted bounded)) in
      elim (extract_runs-cases source (contiguous_runs indices) empty v inside) [
        | inr (u, e) ↦ inr (subst (Any (UncopyableAt objects source)) same u, e)
        | inl (output, e, c) ↦ inl (
          output,
          e,
          c
              ∙ ap
                  (λ pages.
                    map some (map content pages)
                    ++ map (get_elem? (contents (shown source)))
                        (runs_indices (contiguous_runs indices)))
                  n
              ∙ ap (map (get_elem? (contents (shown source)))) same,
        )
      ]

  -- Where no output file is in the way, the input opens as a valid document, the selection resolves
  -- in it and the new document opens without pages, `extract` gets as far as saving, unless one of
  -- the selected pages cannot be copied: then it fails with that error and leaves the disk as it was.
  -- What it saves, to the output's path and with no further failure than the save's, is a document
  -- that shows exactly the selected pages in order, each with its size and rotation.
  pub run_extract-writes :
      (args : ExtractArgs) (w : W) (source empty : PdfDocument O) {indices : List ℕ}
      → (args.force ≡ true) ⊎ (io.exists args.output_path w ≡ false)
      → io.open_file args.input_path w ≡ ok source
      → io.empty w ≡ ok empty
      → Valid (shown source)
      → (shown empty).pages ≡ []
      → All WellFormed args.pages
      → resolve args.pages (page_count source) ≡ ok indices
      → ((output : PdfDocument O) × (run_extract (pdf_document objects) io args w
            ≡ saved args.output_path (io.save_compacted args.output_path output w))
          × (map some (contents (shown output))
              ≡ map (get_elem? (contents (shown source))) indices))
        ⊎ (Any (UncopyableAt objects source) indices
            × (run_extract (pdf_document objects) io args w ≡ (failure (operation malformed), w)))
  unfolding run_extract ◌>>=◌ guard_output open_document
  run_extract-writes args w source empty {indices} free o m v n p r =
      let passes : (not args.force && io.exists args.output_path w) ≡ false = ground arith in
      elim (extraction-cases source empty args v n p r) [
        | inl (output, e, c) ↦ inl (output, rw (passes, o, r, m, e) refl, c)
        | inr (u, e) ↦ inr (u, rw (passes, o, r, m, e) refl)
      ]
