-- ===== src/VecDocument/Search.antt =====
-- Pages by identity: how often an identity occurs, the first page that has it, and where it stands.
use open_pdf_editor.Base.{
  ap, ◌⊎◌, ℕ, zero, suc, ◌+◌, ◌≤◌, ◌<◌, ◌≡◌, ◌≢◌, refl, subst, inl, inr, Option, none, some, List,
  [], ◌∷◌, ◌++◌, arith, length, get_elem?, insert_idx, erase_idx, modify, ◌==◌, if◌then◌else◌,
  Bool-cases, Option-cases,
}
use open_pdf_editor.Page.{PageId, PageInfo, Rotation}
use open_pdf_editor.VecDocument.{position, rotate_to}

abbrev pub hits : PageId → PageInfo → ℕ
hits id p = if p.id == id then 1 else 0

unfoldable pub count : PageId → List PageInfo → ℕ
count id [] = 0
count id (p ∷ ps) = hits id p + count id ps

unfoldable pub find : PageId → List PageInfo → Option PageInfo
find id [] = none
find id (p ∷ ps) = if p.id == id then some p else find id ps

pub count-append :
    (id : PageId) (ps qs : List PageInfo) → count id (ps ++ qs) ≡ count id ps + count id qs
unfolding count
count-append id [] qs = omega arith
count-append id (p ∷ ps) qs = omega (arith, count-append id ps qs)

pub count-insert_idx :
    (id : PageId) (ps : List PageInfo) (i : ℕ) (p : PageInfo)
    → count id (insert_idx ps i p) ≡ hits id p + count id ps
unfolding count
count-insert_idx id ps zero p = refl
count-insert_idx id [] (suc i) p = refl
count-insert_idx id (q ∷ ps) (suc i) p = omega (arith, count-insert_idx id ps i p)

pub count-erase_idx :
    (id : PageId) (ps : List PageInfo) (i : ℕ) {p : PageInfo}
    → get_elem? ps i ≡ some p
    → hits id p + count id (erase_idx ps i) ≡ count id ps
unfolding count
count-erase_idx id [] i h = cc
count-erase_idx id (q ∷ ps) zero h = ground arith
count-erase_idx id (q ∷ ps) (suc i) {p} h = omega (arith, count-erase_idx id ps i {p = p} h)

pub count-modify :
    (id : PageId) (r : Rotation) (ps : List PageInfo) (i : ℕ)
    → count id (modify (rotate_to r) ps i) ≡ count id ps
unfolding count
count-modify id r [] i = refl
count-modify id r (p ∷ ps) zero = refl
count-modify id r (p ∷ ps) (suc i) = omega (arith, count-modify id r ps i)

pub count_of_position_none :
    (id : PageId) (ps : List PageInfo) → position id ps ≡ none → count id ps ≡ 0
unfolding position count
count_of_position_none id [] h = refl
count_of_position_none id (p ∷ ps) h = ground (arith, count_of_position_none id ps)

pub position_of_count_zero :
    (id : PageId) (ps : List PageInfo) → count id ps ≡ 0 → position id ps ≡ none
unfolding position count
position_of_count_zero id [] h = refl
position_of_count_zero id (p ∷ ps) h = ground (arith, position_of_count_zero id ps)

pub find_of_count_zero : (id : PageId) (ps : List PageInfo) → count id ps ≡ 0 → find id ps ≡ none
unfolding find count
find_of_count_zero id [] h = refl
find_of_count_zero id (p ∷ ps) h = ground (arith, find_of_count_zero id ps)

-- What a position tells of the list.
pub record Located (id : PageId) (ps : List PageInfo) (i : ℕ) (p : PageInfo) : Type 0 where
  pub at_position : position id ps ≡ some i
  pub element : get_elem? ps i ≡ some p
  pub same_id : p.id ≡ id
  pub found : find id ps ≡ some p
  pub in_range : i < length ps
  pub counted : 1 ≤ count id ps

pub position-Located :
    (id : PageId) (ps : List PageInfo) (i : ℕ)
    → position id ps ≡ some i
    → (p : PageInfo) × Located id ps i p
unfolding position count find
position-Located id [] i h = cc
position-Located id (p ∷ ps) i h = elim (Bool-cases (p.id == id)) [
  | inl here ↦ (
    p,
    record {
      at_position = h;
      element = ground arith;
      same_id = ground arith;
      found = ground arith;
      in_range = ground arith;
      counted = ground arith;
    },
  )
  | inr there ↦ elim (Option-cases (position id ps)) [
    | inl absent ↦ absurd (ground arith)
    | inr (j, e) ↦
        let (q, l) = position-Located id ps j e in
        (
          q,
          record {
            at_position = h;
            element = ground arith;
            same_id = l.same_id;
            found = ground (arith, l.found);
            in_range = ground (arith, l.in_range);
            counted = ground (arith, l.counted);
          },
        )
  ]
]

pub Located-of_find :
    (id : PageId) (ps : List PageInfo) {p : PageInfo}
    → find id ps ≡ some p
    → (i : ℕ) × Located id ps i p
unfolding find
Located-of_find id ps {p} h = elim (Option-cases (position id ps)) [
  | inl absent ↦ absurd (ground (arith, find_of_count_zero id ps, count_of_position_none id ps))
  | inr (i, e) ↦
      let (q, l) = position-Located id ps i e in
      (i, subst (λ x. Located id ps i x) (cc (l.found)) l)
]

pub position-insert_idx :
    (ps : List PageInfo) (i : ℕ) (p : PageInfo)
    → i ≤ length ps
    → count p.id ps ≡ 0
    → position p.id (insert_idx ps i p) ≡ some i
unfolding position count
position-insert_idx ps zero p h c = ground arith
position-insert_idx [] (suc i) p h c = absurd (omega arith)
position-insert_idx (q ∷ ps) (suc i) p h c =
    ground (arith, position-insert_idx ps i p (omega arith))

pub get_elem?-insert_idx :
    (ps : List PageInfo) (i : ℕ) (p : PageInfo)
    → i ≤ length ps
    → get_elem? (insert_idx ps i p) i ≡ some p
get_elem?-insert_idx ps zero p h = refl
get_elem?-insert_idx [] (suc i) p h = absurd (omega arith)
get_elem?-insert_idx (q ∷ ps) (suc i) p h = get_elem?-insert_idx ps i p (omega arith)

pub find-erase_idx :
    (id other : PageId) (ps : List PageInfo) (i : ℕ)
    → position id ps ≡ some i
    → other ≢ id
    → find other (erase_idx ps i) ≡ find other ps
unfolding position find
find-erase_idx id other [] i h n = cc
find-erase_idx id other (p ∷ ps) i h n = elim (Bool-cases (p.id == id)) [
  | inl here ↦ ground arith
  | inr there ↦ elim (Option-cases (position id ps)) [
    | inl absent ↦ absurd (ground arith)
    | inr (j, e) ↦ ground (arith, find-erase_idx id other ps j e n)
  ]
]

pub find-append :
    (id : PageId) (ps qs : List PageInfo) {p : PageInfo}
    → find id ps ≡ some p
    → find id (ps ++ qs) ≡ some p
unfolding find
find-append id [] qs h = cc
find-append id (q ∷ ps) qs {p} h = ground (arith, find-append id ps qs {p = p})

pub find-append_right :
    (id : PageId) (ps qs : List PageInfo) → count id ps ≡ 0 → find id (ps ++ qs) ≡ find id qs
unfolding find count
find-append_right id [] qs h = refl
find-append_right id (q ∷ ps) qs h = ground (arith, find-append_right id ps qs)

pub find-append_one :
    (id : PageId) (ps : List PageInfo) (p : PageInfo) {q : PageInfo}
    → find id (ps ++ p ∷ []) ≡ some q
    → (find id ps ≡ some q) ⊎ ((p.id ≡ id) × (q ≡ p))
unfolding find
find-append_one id [] p h = elim (Bool-cases (p.id == id)) [
  | inl here ↦ inr (ground arith, ground arith)
  | inr there ↦ absurd (ground arith)
]
find-append_one id (r ∷ ps) p {q} h = elim (Bool-cases (r.id == id)) [
  | inl here ↦ inl (ground arith)
  | inr there ↦ rw there (find-append_one id ps p (rw there at h))
]

pub Located-of_element :
    (id : PageId) (ps : List PageInfo) (i : ℕ) {p : PageInfo}
    → position id ps ≡ some i
    → get_elem? ps i ≡ some p
    → Located id ps i p
Located-of_element id ps i e g =
    let (q, l) = position-Located id ps i e in subst (λ x. Located id ps i x) (cc (l.element)) l

pub Located-insert_idx :
    (id : PageId) (ps : List PageInfo) (i : ℕ) (p : PageInfo)
    → p.id ≡ id
    → i ≤ length ps
    → count id ps ≡ 0
    → Located id (insert_idx ps i p) i p
Located-insert_idx id ps i p e h c =
    Located-of_element id _ i (rw (← e) (position-insert_idx ps i p h (rw e c)))
      (get_elem?-insert_idx ps i p h)

pub position-modify :
    (id : PageId) (r : Rotation) (ps : List PageInfo) (i : ℕ)
    → position id (modify (rotate_to r) ps i) ≡ position id ps
unfolding position
position-modify id r [] i = refl
position-modify id r (p ∷ ps) zero = refl
position-modify id r (p ∷ ps) (suc i) = rw (position-modify id r ps i)

pub get_elem?-modify :
    (r : Rotation) (ps : List PageInfo) (i : ℕ) {p : PageInfo}
    → get_elem? ps i ≡ some p
    → get_elem? (modify (rotate_to r) ps i) i ≡ some (rotate_to r p)
get_elem?-modify r [] i h = cc
get_elem?-modify r (p ∷ ps) zero h = ground arith
get_elem?-modify r (p ∷ ps) (suc i) h = get_elem?-modify r ps i h

pub modify-modify :
    (r : Rotation) (ps : List PageInfo) (i : ℕ) {p : PageInfo}
    → get_elem? ps i ≡ some p
    → modify (rotate_to p.rotation) (modify (rotate_to r) ps i) i ≡ ps
modify-modify r [] i h = refl
modify-modify r (p ∷ ps) zero {p = q} h = ground arith
modify-modify r (p ∷ ps) (suc i) {p = q} h = ap (p ∷◌) (modify-modify r ps i h)

pub length-modify :
    (r : Rotation) (ps : List PageInfo) (i : ℕ) → length (modify (rotate_to r) ps i) ≡ length ps
length-modify r [] i = refl
length-modify r (p ∷ ps) zero = refl
length-modify r (p ∷ ps) (suc i) = ap suc (length-modify r ps i)
