-- ===== src/Kernel/Fs/Split.antt =====
-- `skipelem` against splitting a path at its slashes.
use xv6_tp.Base.{
  ℕ, suc, ◌≡◌, ◌≤◌, ◌<◌, Bool, true, false, Option, none, some, List, [], ◌∷◌, ◌==◌, if◌then◌else◌,
  length, Bool-cases, inl, inr, arith, refl, ap, sym, ◌∙◌,
}
use xv6_tp.Kernel.Fs.{
  dirsiz, slash, skip_slashes, elem_of, after_elem, first_bytes, elem_at, skipelem, is_empty,
}

abbrev pub onto_first : ℕ → List (List ℕ) → List (List ℕ)
onto_first c [] = (c ∷ []) ∷ []
onto_first c (w ∷ ws) = (c ∷ w) ∷ ws

-- A path cut at each slash.
abbrev pub split : List ℕ → List (List ℕ)
split [] = [] ∷ []
split (c ∷ l) = let rest = split l in if c == slash then [] ∷ rest else onto_first c rest

-- The names in a list of words: each that is not empty, cut to `DIRSIZ` bytes.
abbrev pub names : List (List ℕ) → List (List ℕ)
names [] = []
names (w ∷ ws) = let rest = names ws in if is_empty w then rest else first_bytes dirsiz w ∷ rest

abbrev pub elements : List ℕ → List (List ℕ)
elements path = names (split path)

abbrev after_slash : List ℕ → List (List ℕ)
after_slash [] = []
after_slash (c ∷ l) = split l

split-elem : (p : List ℕ) → split p ≡ elem_of p ∷ after_slash (after_elem p)
split-elem [] = refl
split-elem (c ∷ l) = elim (Bool-cases (c == slash)) [
  | inl cut ↦ ground (arith, cut)
  | inr goes ↦ let ih = ap (onto_first c) (split-elem l) in ground (arith, goes, ih)
]

elements-skip : (p : List ℕ) → elements (skip_slashes p) ≡ elements p
elements-skip [] = refl
elements-skip (c ∷ l) = elim (Bool-cases (c == slash)) [
  | inl cut ↦ ground (arith, cut, elements-skip l)
  | inr goes ↦ ground (arith, goes)
]

after_elem-slash : (p : List ℕ) → names (after_slash (after_elem p)) ≡ elements (after_elem p)
after_elem-slash [] = refl
after_elem-slash (c ∷ l) = elim (Bool-cases (c == slash)) [
  | inl cut ↦ ground (arith, cut)
  | inr goes ↦ ground (arith, goes, after_elem-slash l)
]

length-skip : (p : List ℕ) → length (skip_slashes p) ≤ length p
length-skip [] = omega arith
length-skip (c ∷ l) = elim (Bool-cases (c == slash)) [
  | inl cut ↦ ground (arith, cut, length-skip l)
  | inr goes ↦ ground (arith, goes)
]

length-after : (p : List ℕ) → length (after_elem p) ≤ length p
length-after [] = omega arith
length-after (c ∷ l) = elim (Bool-cases (c == slash)) [
  | inl cut ↦ ground (arith, cut)
  | inr goes ↦ ground (arith, goes, length-after l)
]

-- What is left once the slashes in front are skipped.
data Skipped (p : List ℕ) : Type 0 where
  nothing : skip_slashes p ≡ [] → Skipped p
  word : (c : ℕ) (l : List ℕ) → (c == slash) ≡ false → skip_slashes p ≡ c ∷ l → Skipped p

skip-Skipped : (p : List ℕ) → Skipped p
skip-Skipped [] = nothing refl
skip-Skipped (c ∷ l) = elim (Bool-cases (c == slash)) [
  | inr goes ↦ word c l goes (rw goes refl)
  | inl cut ↦ elim (skip-Skipped l) [
    | nothing e ↦ nothing (rw cut e)
    | word d m g e ↦ word d m g (rw cut e)
  ]
]

abbrev pub no_names : List (List ℕ) → Bool
no_names [] = true
no_names (w ∷ ws) = false

-- The elements of a path whose first byte is no slash.
elements-word :
    (c : ℕ) (l : List ℕ)
    → (c == slash) ≡ false
    → elements (c ∷ l) ≡ first_bytes dirsiz (elem_of (c ∷ l)) ∷ elements (after_elem (c ∷ l))
elements-word c l goes =
    let cut = ap names (split-elem (c ∷ l)) in
    let rest = after_elem-slash (c ∷ l) in
    let some_bytes : is_empty (elem_of (c ∷ l)) ≡ false = rw goes refl in
    let first : names (elem_of (c ∷ l) ∷ after_slash (after_elem (c ∷ l)))
        ≡ first_bytes dirsiz (elem_of (c ∷ l)) ∷ names (after_slash (after_elem (c ∷ l))) =
      rw some_bytes refl in
    cut ∙ first ∙ ap (λ (ws : List (List ℕ)). first_bytes dirsiz (elem_of (c ∷ l)) ∷ ws) rest

skip-no_names : (p : List ℕ) → is_empty (skip_slashes p) ≡ no_names (elements (skip_slashes p))
skip-no_names p = elim (skip-Skipped p) [
  | nothing e ↦ rw e refl
  | word c l g e ↦ rw (e, elements-word c l g) refl
]

-- What `skipelem` may come to.
pub data Skips (path : List ℕ) (out : Option (List ℕ × List ℕ)) : Type 0 where
  no_more : out ≡ none → elements path ≡ [] → Skips path out
  element :
      (name rest : List ℕ)
      → out ≡ some (name, rest)
      → elements path ≡ name ∷ elements rest
      → length rest < length path
      → is_empty rest ≡ no_names (elements rest)
      → Skips path out

-- `skipelem` answers the first of the elements of the path, the words between its slashes
-- that are not empty, each cut to 14 bytes, and a shorter path with the other elements, which is
-- empty exactly when there are none; it answers nothing exactly when the path has no element.
pub skipelem-Skips : (path : List ℕ) → Skips path (skipelem path)
unfolding skipelem
skipelem-Skips path = elim (skip-Skipped path) [
  | nothing e ↦ no_more (ap elem_at e) (sym (elements-skip path) ∙ ap elements e)
  | word c l g e ↦
      let rest : List ℕ = skip_slashes (after_elem (c ∷ l)) in
      let shorter : length rest ≤ length l =
        ground (arith, g, length-skip (after_elem (c ∷ l)), length-after l) in
      let whole : suc (length l) ≤ length path = ground (arith, length-skip path, ap length e) in
      element (first_bytes dirsiz (elem_of (c ∷ l))) rest (ap elem_at e)
        (sym (elements-skip path)
          ∙ ap elements e
          ∙ elements-word c l g
          ∙ ap (λ (ws : List (List ℕ)). first_bytes dirsiz (elem_of (c ∷ l)) ∷ ws)
              (sym (elements-skip (after_elem (c ∷ l)))))
        (omega (arith, shorter, whole)) (skip-no_names (after_elem (c ∷ l)))
]
