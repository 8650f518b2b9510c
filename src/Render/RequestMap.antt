-- ===== src/Render/RequestMap.antt =====
-- A map keyed by requests: Rust's `HashMap<RenderRequest, V>` as an association list with each key
-- once, and lists of requests, with what the caches measure of them.
use open_pdf_editor.Base.{
  ℕ, ◌+◌, ◌≤◌, ◌≡◌, ◌≢◌, refl, Bool, true, false, List, [], ◌∷◌, ◌++◌, Option, none, some, arith,
  if◌then◌else◌,
}
use open_pdf_editor.Render.{RenderRequest, request_eq, request_eq_iff}

module _ {V : Type 0} where
  unfoldable pub lookup : RenderRequest → List (RenderRequest × V) → Option V
  lookup r [] = none
  lookup r ((k, v) ∷ m) = if request_eq k r then some v else lookup r m

  unfoldable pub remove : RenderRequest → List (RenderRequest × V) → List (RenderRequest × V)
  remove r [] = []
  remove r ((k, v) ∷ m) = let rest = remove r m in if request_eq k r then m else (k, v) ∷ rest

  -- `HashMap::retain` by the key
  unfoldable pub retain :
      (RenderRequest → Bool) → List (RenderRequest × V) → List (RenderRequest × V)
  retain p [] = []
  retain p ((k, v) ∷ m) = let rest = retain p m in if p k then (k, v) ∷ rest else rest

  abbrev pub contains_key : RenderRequest → List (RenderRequest × V) → Bool
  contains_key r m = elim (lookup r m) [ none ↦ false | some _ ↦ true ]

  -- how often a key occurs
  unfoldable pub count_key : RenderRequest → List (RenderRequest × V) → ℕ
  count_key r [] = 0
  count_key r ((k, v) ∷ m) = (if request_eq k r then 1 else 0) + count_key r m

  -- the sum of a measure over the values
  unfoldable pub total : (V → ℕ) → List (RenderRequest × V) → ℕ
  total size [] = 0
  total size ((k, v) ∷ m) = size v + total size m

-- `VecDeque` and `HashSet` of requests
unfoldable pub member : RenderRequest → List RenderRequest → Bool
member r [] = false
member r (q ∷ qs) = if request_eq q r then true else member r qs

-- the first occurrence taken out
unfoldable pub erase : RenderRequest → List RenderRequest → List RenderRequest
erase r [] = []
erase r (q ∷ qs) = let rest = erase r qs in if request_eq q r then qs else q ∷ rest

unfoldable pub keep : (RenderRequest → Bool) → List RenderRequest → List RenderRequest
keep p [] = []
keep p (q ∷ qs) = let rest = keep p qs in if p q then q ∷ rest else rest

abbrev pub hit : RenderRequest → RenderRequest → ℕ
hit r q = if request_eq q r then 1 else 0

unfoldable pub count : RenderRequest → List RenderRequest → ℕ
count r [] = 0
count r (q ∷ qs) = hit r q + count r qs

pub request_eq_self : (r : RenderRequest) → request_eq r r ≡ true
request_eq_self r = (request_eq_iff r r).1 refl

pub count-append :
    (r : RenderRequest) (qs ps : List RenderRequest) → count r (qs ++ ps) ≡ count r qs + count r ps
unfolding count
count-append r [] ps = omega arith
count-append r (q ∷ qs) ps = omega (arith, count-append r qs ps)

pub count-erase :
    (r s : RenderRequest) (qs : List RenderRequest)
    → 1 ≤ count s qs
    → hit r s + count r (erase s qs) ≡ count r qs
unfolding count erase
count-erase r s [] h = absurd (omega arith)
count-erase r s (q ∷ qs) h = ground (arith, request_eq_iff q s, count-erase r s qs)

pub count-keep :
    (r : RenderRequest) (p : RenderRequest → Bool) (qs : List RenderRequest)
    → count r (keep p qs) ≡ (if p r then count r qs else 0)
unfolding count keep
count-keep r p [] = ground arith
count-keep r p (q ∷ qs) = ground (arith, request_eq_iff q r, count-keep r p qs)

module _ {V : Type 0} where
  pub count_key_of_lookup :
      (r : RenderRequest) (m : List (RenderRequest × V)) {v : V}
      → lookup r m ≡ some v
      → 1 ≤ count_key r m
  unfolding lookup count_key
  count_key_of_lookup r [] h = absurd (cc)
  count_key_of_lookup r ((k, w) ∷ m) {v} h = ground (arith, count_key_of_lookup r m {v = v})

  pub count_key_of_lookup_none :
      (r : RenderRequest) (m : List (RenderRequest × V)) → lookup r m ≡ none → count_key r m ≡ 0
  unfolding lookup count_key
  count_key_of_lookup_none r [] h = refl
  count_key_of_lookup_none r ((k, w) ∷ m) h = ground (arith, count_key_of_lookup_none r m)

  pub lookup_of_count_key_zero :
      (r : RenderRequest) (m : List (RenderRequest × V)) → count_key r m ≡ 0 → lookup r m ≡ none
  unfolding lookup count_key
  lookup_of_count_key_zero r [] h = refl
  lookup_of_count_key_zero r ((k, w) ∷ m) h = ground (arith, lookup_of_count_key_zero r m)

  pub count_key-remove :
      (r s : RenderRequest) (m : List (RenderRequest × V)) {v : V}
      → lookup s m ≡ some v
      → hit r s + count_key r (remove s m) ≡ count_key r m
  unfolding lookup count_key remove
  count_key-remove r s [] h = absurd (cc)
  count_key-remove r s ((k, w) ∷ m) {v} h =
      ground (arith, request_eq_iff k s, count_key-remove r s m {v = v})

  pub total-remove :
      (size : V → ℕ) (s : RenderRequest) (m : List (RenderRequest × V)) {v : V}
      → lookup s m ≡ some v
      → size v + total size (remove s m) ≡ total size m
  unfolding lookup total remove
  total-remove size s [] h = absurd (cc)
  total-remove size s ((k, w) ∷ m) {v} h = ground (arith, total-remove size s m {v = v})

  pub count_key-retain :
      (r : RenderRequest) (p : RenderRequest → Bool) (m : List (RenderRequest × V))
      → count_key r (retain p m) ≡ (if p r then count_key r m else 0)
  unfolding count_key retain
  count_key-retain r p [] = ground arith
  count_key-retain r p ((k, v) ∷ m) = ground (arith, request_eq_iff k r, count_key-retain r p m)

  pub total-retain-le :
      (size : V → ℕ) (p : RenderRequest → Bool) (m : List (RenderRequest × V))
      → total size (retain p m) ≤ total size m
  unfolding total retain
  total-retain-le size p [] = omega arith
  total-retain-le size p ((k, v) ∷ m) = ground (arith, total-retain-le size p m)

  pub lookup-remove_ne :
      (r s : RenderRequest) (m : List (RenderRequest × V))
      → r ≢ s
      → lookup r (remove s m) ≡ lookup r m
  unfolding lookup remove
  lookup-remove_ne r s [] h = refl
  lookup-remove_ne r s ((k, v) ∷ m) h =
      ground (arith, request_eq_iff k s, request_eq_iff k r, lookup-remove_ne r s m)

  pub lookup-retain :
      (r : RenderRequest) (p : RenderRequest → Bool) (m : List (RenderRequest × V))
      → lookup r (retain p m) ≡ (if p r then lookup r m else none)
  unfolding lookup retain
  lookup-retain r p [] = ground arith
  lookup-retain r p ((k, v) ∷ m) = ground (arith, request_eq_iff k r, lookup-retain r p m)
