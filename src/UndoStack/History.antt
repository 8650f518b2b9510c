-- ===== src/UndoStack/History.antt =====
-- The invariant of a session, kept by each of its steps.
use open_pdf_editor.Base.{
  ℕ, suc, ◌≤◌, ◌≡◌, refl, List, [], ◌∷◌, All, length, arith, inl, inr, subst, sym, Bool-cases, ltb,
}
use open_pdf_editor.Error.{done}
use open_pdf_editor.Command.{Command}
use open_pdf_editor.VecDocument.{VecDocument}
use open_pdf_editor.VecDocument.Valid.{Valid, Extends, Extends-refl}
use open_pdf_editor.UndoStack.{UndoStack, push_undo, remove_oldest}
use open_pdf_editor.UndoStack.Sessions.{Ready}
use open_pdf_editor.Undo.Lawful.{Lawful}
use open_pdf_editor.Undo.Runs.{Runs, TakesBack, TakesBack-cons, TakesBack-Extends, Runs-Extends}

length-remove_oldest :
    {C : Type 0} (c : C) (cs : List C) → length (remove_oldest (c ∷ cs)) ≡ length cs
unfolding remove_oldest
length-remove_oldest c [] = refl
length-remove_oldest c (c' ∷ cs) = omega (arith, length-remove_oldest c' cs)

All-remove_oldest :
    {C : Type 0} (P : C → Type 0) (cs : List C) → All P cs → All P (remove_oldest cs)
unfolding remove_oldest
All-remove_oldest P [] p = tt
All-remove_oldest P (c ∷ []) p = tt
All-remove_oldest P (c ∷ c' ∷ cs) (p, ps) = (p, All-remove_oldest P (c' ∷ cs) ps)

Runs-remove_oldest :
    {C : Type 0} (cmd : Command VecDocument C) (cs : List C) (d e : VecDocument)
    → Runs cmd cs d e
    → (e' : VecDocument) × Runs cmd (remove_oldest cs) d e'
unfolding remove_oldest
Runs-remove_oldest cmd [] d e r = (d, refl)
Runs-remove_oldest cmd (c ∷ []) d e r = (d, refl)
Runs-remove_oldest cmd (c ∷ c' ∷ cs) d e (i, d', h, r) =
    let (e', q) = Runs-remove_oldest cmd (c' ∷ cs) d' e r in (e', (i, d', h, q))

-- What `push` and the cap keep of the stack with the new step on top.
record Pushed {C : Type 0} (cmd : Command VecDocument C) (P : C → Type 0) (limit : ℕ) (c : C)
    (cs : List C) (pushed : List C) : Type 0 where
  keeps_all : All P (c ∷ cs) → All P pushed
  keeps_runs :
      (d e : VecDocument) → Runs cmd (c ∷ cs) d e → (e' : VecDocument) × Runs cmd pushed d e'
  within : suc (length cs) ≤ limit → pushed ≡ c ∷ cs
  bounded : length cs ≤ limit → length pushed ≤ limit
  at_most : length pushed ≤ suc (length cs)

push_undo-Pushed :
    {C : Type 0} (cmd : Command VecDocument C) (P : C → Type 0) (limit : ℕ) (c : C) (cs : List C)
    → Pushed cmd P limit c cs (push_undo limit c cs)
unfolding push_undo
push_undo-Pushed cmd P limit c cs = elim (Bool-cases (ltb limit (suc (length cs)))) [
  | inl over ↦ rw over (record {
    keeps_all = λ p. All-remove_oldest P (c ∷ cs) p;
    keeps_runs = λ d e r. Runs-remove_oldest cmd (c ∷ cs) d e r;
    within = λ h. absurd (ground arith);
    bounded = λ h. omega (arith, length-remove_oldest c cs);
    at_most = omega (arith, length-remove_oldest c cs);
  })
  | inr under ↦ rw under (record {
    keeps_all = λ p. p;
    keeps_runs = λ d e r. (e, r);
    within = λ h. refl;
    bounded = λ h. ground arith;
    at_most = omega arith;
  })
]

module _ {C : Type 0} (cmd : Command VecDocument C) (Replays : C → Type 0) (l : Lawful cmd Replays)
    (limit : ℕ) (base : VecDocument) where
  -- a command applied and recorded
  pub recorded-Ready :
      {n : ℕ} {s : UndoStack C} {d : VecDocument} (c : C) {i : C} {d' : VecDocument}
      → Ready cmd Replays limit base n s d
      → cmd.apply c d ≡ done i d'
      → Ready cmd Replays limit base
          (suc n)
          (record s { undo = push_undo s.limit i s.undo; redo = [] })
          d'
  recorded-Ready {n} {s} {d} c {i} {d'} k h =
      let p = push_undo-Pushed cmd Replays s.limit i s.undo in
      let (w, q, _) = l.inverse c d k.valid h in
      let (e, r) = k.undo_Runs in
      let (e2, r2, _) =
        TakesBack-cons cmd Replays l c s.undo d e k.undo_Replays k.valid h (e, r, Extends-refl e) in
      record {
        valid = w;
        undo_Replays = p.keeps_all (q, k.undo_Replays);
        redo_Replays = tt;
        undo_Runs = p.keeps_runs d' e2 r2;
        redo_Runs = (d', refl);
        complete = λ b.
            subst (λ cs. TakesBack cmd cs d' base)
              (sym (p.within (omega (arith, k.counted, k.same_limit))))
              (TakesBack-cons cmd Replays l c s.undo d base k.undo_Replays k.valid h
                (k.complete (omega arith)));
        counted = omega (arith, p.at_most, k.counted);
        capped = omega (arith, p.bounded (omega (arith, k.capped, k.same_limit)), k.same_limit);
        same_limit = k.same_limit;
      }

  -- a document that extends the one before, under the same stacks
  pub extended-Ready :
      {n : ℕ} {s : UndoStack C} {d d' : VecDocument}
      → Ready cmd Replays limit base n s d
      → Valid d'
      → Extends d d'
      → Ready cmd Replays limit base (suc n) s d'
  extended-Ready {n} {s} {d} {d'} k w x =
      let (e, r) = k.undo_Runs in
      let (f, t) = k.redo_Runs in
      let (e2, r2, _) = Runs-Extends cmd Replays l s.undo d d' k.undo_Replays k.valid w x r in
      let (f2, t2, _) = Runs-Extends cmd Replays l s.redo d d' k.redo_Replays k.valid w x t in
      record {
        valid = w;
        undo_Replays = k.undo_Replays;
        redo_Replays = k.redo_Replays;
        undo_Runs = (e2, r2);
        redo_Runs = (f2, t2);
        complete = λ b.
            TakesBack-Extends cmd Replays l s.undo d d' base k.undo_Replays k.valid w x
              (k.complete (omega arith));
        counted = omega (arith, k.counted);
        capped = k.capped;
        same_limit = k.same_limit;
      }
