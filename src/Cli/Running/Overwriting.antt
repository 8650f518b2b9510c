-- ===== src/Cli/Running/Overwriting.antt =====
-- Files that a run does not replace.
use open_pdf_editor.Base.{
  arith, sym, subst, ◌≡◌, refl, none, ◌⊎◌, inl, inr, Bool, true, false, ◌&&◌, not, Option, some,
  Bool-cases,
}
use open_pdf_editor.Document.{Document}
use open_pdf_editor.Cli.{same_outputs, usage, PathBuf, CliError, Attempt, failure, output_exists}
use open_pdf_editor.Cli.Arguments.{SplitArgs, Invocation, help, version}
use open_pdf_editor.Cli.Paths.{path_eq}
use open_pdf_editor.Cli.Running.{
  guard_given, DocumentIo, Run, ◌>>=◌, guard_output, run_merge, run_split, run_rotate, run_extract,
  run_invocation,
}

-- a file that the invocation is to write and did not name as its input
abbrev pub IsOutput : Invocation → PathBuf → Type 0
IsOutput help path = ⊥
IsOutput version path = ⊥
IsOutput (Invocation.merge args) path = args.output_path ≡ path
IsOutput (Invocation.split args) path = (args.out_a_path ≡ path) ⊎ (args.out_b_path ≡ path)
IsOutput (Invocation.rotate args) path = args.output_path ≡ some path
IsOutput (Invocation.extract args) path = args.output_path ≡ path

abbrev pub is_forced : Invocation → Bool
is_forced help = false
is_forced version = false
is_forced (Invocation.merge args) = args.force
is_forced (Invocation.split args) = args.force
is_forced (Invocation.rotate args) = args.force
is_forced (Invocation.extract args) = args.force

abbrev Declines : {W A : Type 0} → W → Attempt A × W → Type 0
Declines w r = (e : CliError) × (r ≡ (failure e, w))

module _ {D W : Type 0} (doc : Document D) (io : DocumentIo D W) where
  guard_output-Declines :
      {A : Type 0} (path : PathBuf) (f : Unit {0} → Run W A) (force : Bool) (w : W)
      → force ≡ false
      → io.exists path w ≡ true
      → Declines w ((guard_output doc io path force >>= f) w)
  unfolding ◌>>=◌ guard_output
  guard_output-Declines path f force w h k = (output_exists path, rw (h, k) refl)

  exists_at : {p path : PathBuf} {w : W} → p ≡ path → io.exists path w ≡ true → io.exists p w ≡ true
  exists_at {w = w} o k = subst (λ p. io.exists p w ≡ true) (sym o) k

  -- a guard that let the run on
  guard_output-passes :
      {A : Type 0} (path : PathBuf) (f : Unit {0} → Run W A) (force : Bool) (w : W)
      → ((guard_output doc io path force >>= f) w ≡ f tt w)
        ⊎ Declines w ((guard_output doc io path force >>= f) w)
  unfolding ◌>>=◌ guard_output
  guard_output-passes path f force w = elim (Bool-cases (not force && io.exists path w)) [
    | inl e ↦ inr (output_exists path, rw e refl)
    | inr e ↦ inl (rw e refl)
  ]

  second_guard-Declines :
      {A : Type 0} (first path : PathBuf) (f : Unit {0} → Run W A) (force : Bool) (w : W)
      → force ≡ false
      → io.exists path w ≡ true
      → Declines w
          ((guard_output doc io first force >>= λ _. guard_output doc io path force >>= f) w)
  second_guard-Declines first path f force w h k =
      let next = guard_output doc io path force >>= f in
      elim (guard_output-passes first (λ _. next) force w) [
        | inl e ↦ subst (Declines w) (sym e) (guard_output-Declines path f force w h k)
        | inr d ↦ d
      ]

  run_split-Declines :
      (args : SplitArgs) (w : W) (path : PathBuf)
      → (args.out_a_path ≡ path) ⊎ (args.out_b_path ≡ path)
      → args.force ≡ false
      → io.exists path w ≡ true
      → Declines w (run_split doc io args w)
  unfolding run_split
  run_split-Declines args w path o h k =
      elim (Bool-cases (path_eq args.out_a_path args.out_b_path)) [
        | inl e ↦ (usage same_outputs, rw e refl)
        | inr e ↦ rw e (elim o [
          | inl a ↦ guard_output-Declines args.out_a_path _ args.force w h (exists_at a k)
          | inr b ↦
              second_guard-Declines args.out_a_path args.out_b_path _ args.force w h (exists_at b k)
        ])
      ]

  given_guard-Declines :
      (output : Option PathBuf) (force : Bool) (f : Unit {0} → Run W (Unit {0})) (w : W)
      (path : PathBuf)
      → output ≡ some path
      → force ≡ false
      → io.exists path w ≡ true
      → Declines w ((guard_given doc io output force >>= f) w)
  given_guard-Declines none force f w path o h k = absurd (cc)
  given_guard-Declines (some p) force f w path o h k =
      guard_output-Declines p f force w h (exists_at (ground arith) k)

  -- Without `--force`, an invocation one of whose output files exists fails and leaves the disk as
  -- it was.
  pub run_invocation-declines :
      (i : Invocation) (w : W) (path : PathBuf)
      → IsOutput i path
      → is_forced i ≡ false
      → io.exists path w ≡ true
      → (e : CliError) × (run_invocation doc io i w ≡ (failure e, w))
  unfolding run_invocation run_merge run_rotate run_extract
  run_invocation-declines help w path o h k = elim o [ ]
  run_invocation-declines version w path o h k = elim o [ ]
  run_invocation-declines (Invocation.merge args) w path o h k =
      guard_output-Declines args.output_path _ args.force w h (exists_at o k)
  run_invocation-declines (Invocation.split args) w path o h k =
      run_split-Declines args w path o h k
  run_invocation-declines (Invocation.rotate args) w path o h k =
      given_guard-Declines args.output_path args.force _ w path o h k
  run_invocation-declines (Invocation.extract args) w path o h k =
      guard_output-Declines args.output_path _ args.force w h (exists_at o k)
