-- ===== src/Error.antt =====
-- The error type of every crate (opdf-core/src/error.rs), and the results that carry it. The text
-- of a message is not modelled: a constructor keeps the values that a caller can match on.
use open_pdf_editor.Base.{ℕ, ◌≡◌, refl, ◌⊎◌, inl, inr}

pub data Error : Type 0 where
  io malformed unsupported render : Error
  page_not_found : ℕ → Error
  index_out_of_bounds : ℕ → ℕ → Error
  invalid_range : ℕ → ℕ → Error
  rollback_failed : Error → Error → Error

-- `Result<A>` of a read-only function
pub data Result {ℓ} (A : Type ℓ) : Type ℓ where
  ok : A → Result A
  err : Error → Result A

infixl 5 ◌>>=◌
abbrev pub ◌>>=◌ {ℓ κ} : {A : Type ℓ} {B : Type κ} → Result A → (A → Result B) → Result B
ok a >>= f = f a
err e >>= f = err e

-- What a method with `&mut self` comes to: its result, and the state that it leaves behind, which
-- an error may have changed too.
pub data Outcome {ℓ κ} (D : Type ℓ) (A : Type κ) : Type (ℓ ⊔ κ) where
  done : A → D → Outcome D A
  failed : Error → D → Outcome D A

pub Outcome-cases {ℓ κ} :
    {D : Type ℓ} {A : Type κ} (o : Outcome D A)
    → ((a : A) × (d : D) × (o ≡ done a d)) ⊎ ((e : Error) × (d : D) × (o ≡ failed e d))
Outcome-cases (done a d) = inl (a, d, refl)
Outcome-cases (failed e d) = inr (e, d, refl)

pub Result-cases {ℓ} :
    {A : Type ℓ} (r : Result A) → ((a : A) × (r ≡ ok a)) ⊎ ((e : Error) × (r ≡ err e))
Result-cases (ok a) = inl (a, refl)
Result-cases (err e) = inr (e, refl)
