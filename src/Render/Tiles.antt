-- ===== src/Render/Tiles.antt =====
-- Pixels of a tile.
use open_pdf_editor.Base.{
  ◌≤◌, ◌⊎◌, sym, take, drop, ℕ, zero, suc, ◌+◌, ◌*◌, ◌^◌, ◌<◌, ◌≡◌, refl, ◌∙◌, ap, List, [], ◌∷◌,
  length, get_elem?, some, arith,
}
use open_pdf_editor.Error.{ok, err, render}
use open_pdf_editor.Render.{Tile, tile, pixel}

get_elem?-lt :
    {A : Type 0} (xs : List A) (i : ℕ) → i < length xs → (x : A) × (get_elem? xs i ≡ some x)
get_elem?-lt [] i h = elim h [ ]
get_elem?-lt (x ∷ xs) zero h = (x, refl)
get_elem?-lt (x ∷ xs) (suc i) h = get_elem?-lt xs i (omega arith)

-- A tile that `Tile::new` accepts has two sides that are not zero, and four bytes a pixel.
tile-ok :
    (w h : ℕ) (pixels : List ℕ) {t : Tile}
    → tile w h pixels ≡ ok t
    → (t ≡ record { width = w; height = h; pixels = pixels })
      × (0 < w)
      × (0 < h)
      × (length pixels ≡ w * h * 4)
      × (w * h * 4 < 2 ^ 64)
unfolding tile
tile-ok w h pixels e = ground arith

offset-lt : (x y w h : ℕ) → x < w → y < h → (y * w + x) * 4 + 3 < w * h * 4
offset-lt x y w h p q = let inner : y * w + x < h * w = grind arith in omega arith

pixel-in :
    (w h : ℕ) (pixels : List ℕ) (x y : ℕ) {c0 c1 c2 c3 : ℕ}
    → x < w
    → y < h
    → get_elem? pixels ((y * w + x) * 4) ≡ some c0
    → get_elem? pixels ((y * w + x) * 4 + 1) ≡ some c1
    → get_elem? pixels ((y * w + x) * 4 + 2) ≡ some c2
    → get_elem? pixels ((y * w + x) * 4 + 3) ≡ some c3
    → pixel (record { width = w; height = h; pixels = pixels }) x y ≡ ok (c0 ∷ c1 ∷ c2 ∷ c3 ∷ [])
unfolding pixel
pixel-in w h pixels x y a b e0 e1 e2 e3 = ground (arith, e0, e1, e2, e3)

get_elem?-add :
    {A : Type 0} (xs : List A) (m n : ℕ) → get_elem? (drop m xs) n ≡ get_elem? xs (m + n)
get_elem?-add xs zero n = let e : 0 + n ≡ n = omega arith in rw e refl
get_elem?-add [] (suc m) n = refl
get_elem?-add (x ∷ xs) (suc m) n =
    let e : suc m + n ≡ suc (m + n) = omega arith in rw e (get_elem?-add xs m n)

take-four :
    {A : Type 0} (xs : List A) {a b c d : A}
    → get_elem? xs 0 ≡ some a
    → get_elem? xs 1 ≡ some b
    → get_elem? xs 2 ≡ some c
    → get_elem? xs 3 ≡ some d
    → take 4 xs ≡ a ∷ b ∷ c ∷ d ∷ []
take-four [] e0 e1 e2 e3 = cc
take-four (x ∷ []) e0 e1 e2 e3 = cc
take-four (x ∷ y ∷ []) e0 e1 e2 e3 = cc
take-four (x ∷ y ∷ z ∷ []) e0 e1 e2 e3 = cc
take-four (x ∷ y ∷ z ∷ u ∷ xs) e0 e1 e2 e3 = cc

-- The row `y` of an image of RGBA pixels `w` wide, and all below it.
abbrev pub rows_from : ℕ → List ℕ → ℕ → List ℕ
rows_from w pixels y = drop (y * (w * 4)) pixels

-- the elements of a row, found in the buffer
get_elem?-row :
    (w : ℕ) (pixels : List ℕ) (x y n : ℕ) {b : ℕ}
    → get_elem? pixels ((y * w + x) * 4 + n) ≡ some b
    → get_elem? (drop (x * 4) (rows_from w pixels y)) n ≡ some b
get_elem?-row w pixels x y n e =
    let at : y * (w * 4) + (x * 4 + n) ≡ (y * w + x) * 4 + n = grind arith in
    get_elem?-add (rows_from w pixels y) (x * 4) n
    ∙ get_elem?-add pixels (y * (w * 4)) (x * 4 + n)
    ∙ ap (get_elem? pixels) at
    ∙ e

-- Reading a pixel of a tile that `Tile::new` built: with both coordinates inside it gives the four
-- bytes that stand `x` pixels into row `y` of the image, and otherwise an error.
pub pixel-ok :
    (w h : ℕ) (pixels : List ℕ) (x y : ℕ) {t : Tile}
    → tile w h pixels ≡ ok t
    → ((x < w) × (y < h)
        → (length (take 4 (drop (x * 4) (rows_from w pixels y))) ≡ 4)
          × (pixel t x y ≡ ok (take 4 (drop (x * 4) (rows_from w pixels y)))))
      × ((w ≤ x) ⊎ (h ≤ y) → pixel t x y ≡ err render)
unfolding pixel
pixel-ok w h pixels x y {t} e =
    let (f, _, _, len, _) = tile-ok w h pixels e in
    (
      λ (a, b).
          let bound = offset-lt x y w h a b in
          let i = (y * w + x) * 4 in
          let first : i + 0 ≡ i = omega arith in
          let (c0, e0) = get_elem?-lt pixels i (omega arith) in
          let (c1, e1) = get_elem?-lt pixels (i + 1) (omega arith) in
          let (c2, e2) = get_elem?-lt pixels (i + 2) (omega arith) in
          let (c3, e3) = get_elem?-lt pixels (i + 3) (omega arith) in
          let bytes =
            take-four (drop (x * 4) (rows_from w pixels y))
              (get_elem?-row w pixels x y 0 (ap (get_elem? pixels) first ∙ e0))
              (get_elem?-row w pixels x y 1 e1) (get_elem?-row w pixels x y 2 e2)
              (get_elem?-row w pixels x y 3 e3) in
          (
            ap length bytes,
            ap (λ u. pixel u x y) f ∙ pixel-in w h pixels x y a b e0 e1 e2 e3 ∙ ap ok (sym bytes),
          ),
      λ out. ap (λ u. pixel u x y) f ∙ ground arith,
    )
