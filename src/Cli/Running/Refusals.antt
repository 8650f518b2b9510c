-- ===== src/Cli/Running/Refusals.antt =====
-- What a run that fails leaves on the disk, and which files a run replaces.
use open_pdf_editor.Base.{
  ◌≡◌, refl, subst, Bool, true, false, ◌&&◌, ◌||◌, not, List, [], ◌∷◌, ◌∙◌, Option, none, some, ◌⊎◌,
  inl, inr, ltb, if◌then◌else◌, Bool-cases,
}
use open_pdf_editor.Error.{Outcome, done, failed}
use open_pdf_editor.Document.{Document}
use open_pdf_editor.Cli.{PathBuf, CliError, Attempt, success, failure, save_failed}
use open_pdf_editor.Cli.Arguments.{
  MergeArgs, SplitArgs, RotateArgs, ExtractArgs, Invocation, help, version,
}
use open_pdf_editor.Cli.Paths.{path_eq}
use open_pdf_editor.Cli.Running.{
  save_compacted, path_or, DocumentIo, Run, follow, ◌>>=◌, open_document, guard_output, open_all,
  saved, guard_given, run_merge, run_split, split_head, save_halves, run_rotate, run_extract,
  run_invocation,
}

abbrev pub IsSaveFailure : CliError → Type 0
IsSaveFailure (save_failed path e) = Unit
IsSaveFailure _ = ⊥

-- A run that began with `w` left the disk as it was, unless it succeeded or a save failed.
abbrev pub Spares : {W A : Type 0} → W → Attempt A × W → Type 0
Spares w (success a, w') = Unit
Spares w (failure e, w') = IsSaveFailure e ⊎ (w' ≡ w)

-- It did not write.
abbrev Reads : {W A : Type 0} → Run W A → Type 0
Reads {W = W} m = (w : W) → (m w).1 ≡ w

follow-Spares :
    {W A B : Type 0} (w : W) (r : Attempt A × W) (f : A → Run W B)
    → r.1 ≡ w
    → ((a : A) (v : W) → Spares v (f a v))
    → Spares w (follow f r)
follow-Spares w (success a, v) f e k = subst (λ x. Spares x (f a v)) {x = v} e (k a v)
follow-Spares w (failure x, v) f e k = inr e

bind-Spares :
    {W A B : Type 0} (m : Run W A) (f : A → Run W B)
    → Reads m
    → ((a : A) (v : W) → Spares v (f a v))
    → (w : W) → Spares w ((m >>= f) w)
unfolding ◌>>=◌
bind-Spares m f h k w = follow-Spares w (m w) f (h w) k

follow-Reads :
    {W A B : Type 0} (w : W) (r : Attempt A × W) (f : A → Run W B)
    → r.1 ≡ w
    → ((a : A) → Reads (f a))
    → (follow f r).1 ≡ w
follow-Reads w (success a, v) f e k = k a v ∙ e
follow-Reads w (failure x, v) f e k = e

bind-Reads :
    {W A B : Type 0} (m : Run W A) (f : A → Run W B)
    → Reads m
    → ((a : A) → Reads (f a))
    → Reads (m >>= f)
unfolding ◌>>=◌
bind-Reads m f h k w = follow-Reads w (m w) f (h w) k

-- of a run that only saves
abbrev OnlySaves : {W A : Type 0} → Attempt A × W → Type 0
OnlySaves (success a, w) = Unit
OnlySaves (failure e, w) = IsSaveFailure e

follow-OnlySaves :
    {W A B : Type 0} (r : Attempt A × W) (f : A → Run W B)
    → OnlySaves r
    → ((a : A) (v : W) → OnlySaves (f a v))
    → OnlySaves (follow f r)
follow-OnlySaves (success a, v) f e k = k a v
follow-OnlySaves (failure x, v) f e k = e

bind-OnlySaves :
    {W A B : Type 0} (m : Run W A) (f : A → Run W B)
    → ((w : W) → OnlySaves (m w))
    → ((a : A) (v : W) → OnlySaves (f a v))
    → (w : W) → OnlySaves ((m >>= f) w)
unfolding ◌>>=◌
bind-OnlySaves m f h k w = follow-OnlySaves (m w) f (h w) k

OnlySaves-Spares : {W A : Type 0} (w : W) (r : Attempt A × W) → OnlySaves r → Spares w r
OnlySaves-Spares w (success a, v) h = tt
OnlySaves-Spares w (failure e, v) h = inl h

saved-OnlySaves :
    {D W : Type 0} (path : PathBuf) (o : Outcome (D × W) (Unit {0})) → OnlySaves (saved path o)
saved-OnlySaves path (done u (d, w)) = tt
saved-OnlySaves path (failed e (d, w)) = tt

if-Spares :
    {W A : Type 0} (b : Bool) (m n : Run W A)
    → ((w : W) → Spares w (m w))
    → ((w : W) → Spares w (n w))
    → (w : W) → Spares w ((if b then m else n) w)
if-Spares true m n h k = h
if-Spares false m n h k = k

module _ {D W : Type 0} (doc : Document D) (io : DocumentIo D W) where
  guard_output-Reads : (path : PathBuf) (force : Bool) → Reads (guard_output doc io path force)
  unfolding guard_output
  guard_output-Reads path force w = elim (Bool-cases (not force && io.exists path w)) [
    | inl e ↦ rw e refl
    | inr e ↦ rw e refl
  ]

  guard_given-Reads : (path : Option PathBuf) (force : Bool) → Reads (guard_given doc io path force)
  guard_given-Reads none force w = refl
  guard_given-Reads (some path) force w = guard_output-Reads path force w

  open_document-Reads : (path : PathBuf) → Reads (open_document doc io path)
  unfolding open_document
  open_document-Reads path w = refl

  open_all-Reads : (paths : List PathBuf) → Reads (open_all doc io paths)
  unfolding open_all
  open_all-Reads [] w = refl
  open_all-Reads (path ∷ paths) w =
      bind-Reads (open_document doc io path) _ (open_document-Reads path)
        (λ d. bind-Reads (open_all doc io paths) _ (open_all-Reads paths) (λ ds v. refl)) w

  run_merge-Spares : (args : MergeArgs) (w : W) → Spares w (run_merge doc io args w)
  unfolding run_merge
  run_merge-Spares args =
      bind-Spares (guard_output doc io args.output_path args.force) _ (guard_output-Reads _ _) λ _.
        bind-Spares (open_all doc io args.input_paths) _ (open_all-Reads args.input_paths)
          λ sources.
            bind-Spares _ _ (λ w. refl)
              λ output.
                bind-Spares _ _ (λ w. refl)
                  λ merged w. OnlySaves-Spares w _ (saved-OnlySaves args.output_path _)

  save_halves-OnlySaves :
      (args : SplitArgs) (ds : D × D) (w : W) → OnlySaves (save_halves doc io args ds w)
  save_halves-OnlySaves args (head, tail) =
      bind-OnlySaves (save_compacted doc io head args.out_a_path) _
        (λ w. saved-OnlySaves args.out_a_path (io.save_compacted args.out_a_path head w))
        (λ _ w. saved-OnlySaves args.out_b_path (io.save_compacted args.out_b_path tail w))

  split_head-Spares :
      (args : SplitArgs) (head : D) (w : W) → Spares w (split_head doc io args head w)
  unfolding split_head
  split_head-Spares args head =
      if-Spares (ltb args.at_page 2 || ltb (doc.page_count head) args.at_page) _ _ (λ w. inr refl)
        (bind-Spares _ _ (λ w. refl)
          (λ tail.
            bind-Spares _ _ (λ w. refl)
              (λ halves w. OnlySaves-Spares w _ (save_halves-OnlySaves args halves w))))

  run_split-Spares : (args : SplitArgs) (w : W) → Spares w (run_split doc io args w)
  unfolding run_split
  run_split-Spares args =
      if-Spares (path_eq args.out_a_path args.out_b_path) _ _ (λ w. inr refl)
        (bind-Spares (guard_output doc io args.out_a_path args.force) _
          (guard_output-Reads args.out_a_path args.force)
          λ _.
            bind-Spares (guard_output doc io args.out_b_path args.force) _
              (guard_output-Reads args.out_b_path args.force)
              λ _.
                bind-Spares (open_document doc io args.input_path) _
                  (open_document-Reads args.input_path) (split_head-Spares args))

  run_rotate-Spares : (args : RotateArgs) (w : W) → Spares w (run_rotate doc io args w)
  unfolding run_rotate
  run_rotate-Spares args =
      bind-Spares (guard_given doc io args.output_path args.force) _
        (guard_given-Reads args.output_path args.force)
        λ _.
          bind-Spares (open_document doc io args.input_path) _ (open_document-Reads args.input_path)
            λ document.
              bind-Spares _ _ (λ w. refl)
                λ selected.
                  bind-Spares _ _ (λ w. refl)
                    λ rotated w.
                      OnlySaves-Spares w _
                        (saved-OnlySaves (path_or args.output_path args.input_path) _)

  run_extract-Spares : (args : ExtractArgs) (w : W) → Spares w (run_extract doc io args w)
  unfolding run_extract
  run_extract-Spares args =
      bind-Spares (guard_output doc io args.output_path args.force) _ (guard_output-Reads _ _) λ _.
        bind-Spares (open_document doc io args.input_path) _ (open_document-Reads args.input_path)
          λ source.
            bind-Spares _ _ (λ w. refl)
              λ indices.
                bind-Spares _ _ (λ w. refl)
                  λ output.
                    bind-Spares _ _ (λ w. refl)
                      λ extracted w. OnlySaves-Spares w _ (saved-OnlySaves args.output_path _)

  run_invocation-Spares : (i : Invocation) (w : W) → Spares w (run_invocation doc io i w)
  unfolding run_invocation
  run_invocation-Spares help w = tt
  run_invocation-Spares version w = tt
  run_invocation-Spares (Invocation.merge args) w = run_merge-Spares args w
  run_invocation-Spares (Invocation.split args) w = run_split-Spares args w
  run_invocation-Spares (Invocation.rotate args) w = run_rotate-Spares args w
  run_invocation-Spares (Invocation.extract args) w = run_extract-Spares args w

  -- Over any implementation of the contracts, an invocation that fails for another reason than that
  -- a file could not be saved leaves the disk exactly as it was.
  pub run_invocation-refuses :
      (i : Invocation) (w : W) {e : CliError} {w' : W}
      → run_invocation doc io i w ≡ (failure e, w')
      → IsSaveFailure e ⊎ (w' ≡ w)
  run_invocation-refuses i w h = subst (Spares w) h (run_invocation-Spares i w)
