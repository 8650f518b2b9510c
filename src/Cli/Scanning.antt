-- ===== src/Cli/Scanning.antt =====
-- What a successful scan guarantees.
use open_pdf_editor.Base.{
  Bool, true, false, List, [], ◌∷◌, ◌++◌, All, All-append, Option, none, some, ◌≡◌, refl, sym,
  subst, ◌↔◌, arith, Bool-cases, inl, inr,
}
use open_pdf_editor.Cli.{Text, OsString, text_eq, Attempt, success, failure, usage, needs_value}
use open_pdf_editor.Cli.Line.{
  CommandLine, Reading, positional, end_of_flags, flag, Decision, refuse, push, await, decide,
  read_item, scan, scan_from, starts_a_flag, contains_text, is_given, switches, empty_line,
}

pub text_eq_iff : (s t : Text) → (text_eq s t ≡ true) ↔ (s ≡ t)
unfolding text_eq
text_eq_iff [] [] = (λ h. refl, λ h. refl)
text_eq_iff [] (d ∷ ds) = (λ h. absurd (cc), λ h. absurd (cc))
text_eq_iff (c ∷ cs) [] = (λ h. absurd (cc), λ h. absurd (cc))
text_eq_iff (c ∷ cs) (d ∷ ds) =
    let (a, b) = text_eq_iff cs ds in (λ h. ground (arith, a), λ h. ground (arith, b))

-- A flag that the subcommand knows: a switch without a value, or one of its flags with a value.
abbrev pub IsKnown : List Text → Text × Option OsString → Type 0
IsKnown value_flags (name, none) = contains_text name switches ≡ true
IsKnown value_flags (name, some v) =
    (contains_text name switches ≡ false) × (contains_text name value_flags ≡ true)

-- No name stands twice.
abbrev pub AreDistinct : List (Text × Option OsString) → Type 0
AreDistinct [] = Unit
AreDistinct (f ∷ fs) = (is_given f.0 fs ≡ false) × AreDistinct fs

abbrev IsScanned : List Text → CommandLine → Type 0
IsScanned vf line = All (IsKnown vf) line.flags × AreDistinct line.flags

is_given-append :
    (name : Text) (fs : List (Text × Option OsString)) (f : Text × Option OsString)
    → is_given name fs ≡ false
    → text_eq f.0 name ≡ false
    → is_given name (fs ++ f ∷ []) ≡ false
unfolding is_given
is_given-append name [] f g h = ground (arith, h)
is_given-append name (k ∷ ks) f g h = ground (arith, g, h, is_given-append name ks f)

AreDistinct-append :
    (fs : List (Text × Option OsString)) (f : Text × Option OsString)
    → AreDistinct fs
    → is_given f.0 fs ≡ false
    → AreDistinct (fs ++ f ∷ [])
unfolding is_given
AreDistinct-append [] f d h = (refl, tt)
AreDistinct-append (k ∷ ks) f (a, d) h = (
  is_given-append k.0 ks f a (ground (arith, h, text_eq_iff k.0 f.0, text_eq_iff f.0 k.0)),
  AreDistinct-append ks f d (ground (arith, h)),
)

add-IsScanned :
    (vf : List Text) (line : CommandLine) (name : Text) (value : Option OsString)
    → IsScanned vf line
    → IsKnown vf (name, value)
    → is_given name line.flags ≡ false
    → IsScanned vf (record line { flags = line.flags ++ (name, value) ∷ [] })
add-IsScanned vf line name value (k, d) h g = (
  All-append (IsKnown vf) line.flags ((name, value) ∷ []) k (h, tt),
  AreDistinct-append line.flags (name, value) d g,
)

-- What the decision to keep a flag, or to wait for its value, has made sure of.
abbrev IsSound : List Text → List (Text × Option OsString) → Text → Decision → Type 0
IsSound vf flags name (refuse u) = Unit
IsSound vf flags name (push value) = (is_given name flags ≡ false) × IsKnown vf (name, value)
IsSound vf flags name await =
    (is_given name flags ≡ false)
    × (contains_text name switches ≡ false)
    × (contains_text name vf ≡ true)

decide-IsSound :
    (vf : List Text) (flags : List (Text × Option OsString)) (name : Text) (v : Option Text)
    → IsSound vf flags name (decide vf flags name v)
unfolding decide
decide-IsSound vf flags name none = elim (Bool-cases (is_given name flags)) [
  | inl a ↦ rw a tt
  | inr a ↦ elim (Bool-cases (contains_text name switches)) [
    | inl b ↦ rw (a, b) (a, b)
    | inr b ↦ elim (Bool-cases (contains_text name vf)) [
      | inl c ↦ rw (a, b, c) (a, b, c)
      | inr c ↦ rw (a, b, c) tt
    ]
  ]
]
decide-IsSound vf flags name (some v) = elim (Bool-cases (is_given name flags)) [
  | inl a ↦ rw a tt
  | inr a ↦ elim (Bool-cases (contains_text name switches)) [
    | inl b ↦ rw (a, b) tt
    | inr b ↦ elim (Bool-cases (contains_text name vf)) [
      | inl c ↦ rw (a, b, c) (a, (b, c))
      | inr c ↦ rw (a, b, c) tt
    ]
  ]
]

-- What is known of a flag that waits for its value.
abbrev IsAwaited : List Text → CommandLine → Option Text → Type 0
IsAwaited vf line none = Unit
IsAwaited vf line (some name) =
    (is_given name line.flags ≡ false)
    × (contains_text name switches ≡ false)
    × (contains_text name vf ≡ true)

-- A scan that succeeds gives such a line.
abbrev Ensures : List Text → Attempt CommandLine → Type 0
Ensures vf (success line) = IsScanned vf line
Ensures vf (failure e) = Unit

-- What the loop does after an item, by what it has decided.
abbrev after_decision :
    List Text → List OsString → CommandLine → Text → Decision → Attempt CommandLine
after_decision vf rest line name (refuse u) = failure (usage u)
after_decision vf rest line name (push value) =
    scan_from vf rest (record line { flags = line.flags ++ (name, value) ∷ [] }) none
after_decision vf rest line name await = scan_from vf rest line (some name)

abbrev after_reading :
    List Text → OsString → List OsString → CommandLine → Reading → Attempt CommandLine
after_reading vf item rest line positional =
    scan_from vf rest (record line { positionals = line.positionals ++ item ∷ [] }) none
after_reading vf item rest line end_of_flags =
    success (record line { positionals = line.positionals ++ rest })
after_reading vf item rest line (flag name v) =
    after_decision vf rest line name (decide vf line.flags name v)

abbrev after_value :
    List Text → OsString → List OsString → CommandLine → Text → Bool → Attempt CommandLine
after_value vf item rest line name true = failure (usage (needs_value name))
after_value vf item rest line name false =
    scan_from vf rest (record line { flags = line.flags ++ (name, some item) ∷ [] }) none

module _ (vf : List Text) (rest : List OsString)
    (ih : (line : CommandLine) (waits : Option Text)
      → IsScanned vf line
      → IsAwaited vf line waits
      → Ensures vf (scan_from vf rest line waits))
    (line : CommandLine) (k : IsScanned vf line) where
  after_decision-Ensures :
      (name : Text) (d : Decision)
      → IsSound vf line.flags name d
      → Ensures vf (after_decision vf rest line name d)
  after_decision-Ensures name (refuse u) s = tt
  after_decision-Ensures name (push value) (a, b) =
      ih (record line { flags = line.flags ++ (name, value) ∷ [] }) none
        (add-IsScanned vf line name value k b a) tt
  after_decision-Ensures name await s = ih line (some name) k s

  after_reading-Ensures :
      (item : OsString) (r : Reading) → Ensures vf (after_reading vf item rest line r)
  after_reading-Ensures item positional =
      ih (record line { positionals = line.positionals ++ item ∷ [] }) none k tt
  after_reading-Ensures item end_of_flags = k
  after_reading-Ensures item (flag name v) =
      after_decision-Ensures name (decide vf line.flags name v)
        (decide-IsSound vf line.flags name v)

  after_value-Ensures :
      (item : OsString) (name : Text) (b : Bool)
      → IsAwaited vf line (some name)
      → Ensures vf (after_value vf item rest line name b)
  after_value-Ensures item name true w = tt
  after_value-Ensures item name false (a, b, c) =
      ih (record line { flags = line.flags ++ (name, some item) ∷ [] }) none
        (add-IsScanned vf line name (some item) k (b, c) a) tt

scan_from-value :
    (vf : List Text) (item : OsString) (rest : List OsString) (line : CommandLine) (name : Text)
    → scan_from vf (item ∷ rest) line (some name)
      ≡ after_value vf item rest line name (starts_a_flag item)
unfolding scan_from
scan_from-value vf item rest line name = ground arith

scan_from-flag :
    (vf : List Text) (item : OsString) (rest : List OsString) (line : CommandLine)
    → scan_from vf (item ∷ rest) line none ≡ after_reading vf item rest line (read_item item)
unfolding scan_from
scan_from-flag vf item rest line = ground arith

scan_from-Ensures :
    (vf : List Text) (items : List OsString) (line : CommandLine) (waits : Option Text)
    → IsScanned vf line
    → IsAwaited vf line waits
    → Ensures vf (scan_from vf items line waits)
unfolding scan_from
scan_from-Ensures vf [] line none k w = k
scan_from-Ensures vf [] line (some name) k w = tt
scan_from-Ensures vf (item ∷ rest) line (some name) k w =
    subst (Ensures vf) (sym (scan_from-value vf item rest line name)) (
      after_value-Ensures vf rest (scan_from-Ensures vf rest) line k item name (starts_a_flag item)
        w)
scan_from-Ensures vf (item ∷ rest) line none k w =
    subst (Ensures vf) (sym (scan_from-flag vf item rest line))
      (after_reading-Ensures vf rest (scan_from-Ensures vf rest) line k item (read_item item))

-- A line that `scan` accepts has each flag once at most, and only flags that the subcommand knows:
-- the switch without a value, and its own flags with one.
pub scan-IsKnown :
    (vf : List Text) (items : List OsString) {line : CommandLine}
    → scan items vf ≡ success line
    → All (IsKnown vf) line.flags × AreDistinct line.flags
unfolding scan
scan-IsKnown vf items h =
    subst (Ensures vf) h (scan_from-Ensures vf items empty_line none (tt, tt) tt)
