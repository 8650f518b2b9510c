-- ===== src/Base/Int.antt =====
-- The machine's signed integers as ℤ, with Rust's Euclidean division and remainder by a positive
-- number (`div_euclid`, `rem_euclid`) and its test `% n != 0`.
use open_pdf_editor.Base.{ℕ, suc, ◌-◌, ◌/◌, ◌%◌, leb, if◌then◌else◌}

-- `negsuc n` is -(n + 1).
pub data ℤ : Type 0 where
  pos : ℕ → ℤ
  negsuc : ℕ → ℤ

-- `a - b` of two unsigned numbers
abbrev pub difference : ℕ → ℕ → ℤ
difference a b = if leb b a then pos (a - b) else negsuc (b - a - 1)

abbrev pub div_euclid : ℤ → ℕ → ℤ
div_euclid (pos n) k = pos (n / k)
div_euclid (negsuc n) k = negsuc (n / k)

abbrev pub rem_euclid : ℤ → ℕ → ℕ
rem_euclid (pos n) k = n % k
rem_euclid (negsuc n) k = k - 1 - n % k

-- the size of `z % k`, whose sign is that of `z`
abbrev pub rem_abs : ℤ → ℕ → ℕ
rem_abs (pos n) k = n % k
rem_abs (negsuc n) k = suc n % k
