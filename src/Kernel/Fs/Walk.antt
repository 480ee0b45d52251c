-- ===== src/Kernel/Fs/Walk.antt =====
-- `namex` against following the elements of a path, and its references.
use xv6_tp.Base.{
  ℕ, zero, suc, ◌+◌, ◌≡◌, ◌<◌, Bool, true, false, not, ◌&&◌, Option, none, some, List, [], ◌∷◌,
  if◌then◌else◌, length, Bool-cases, Option-cases, inl, inr, arith, refl, ap, ◌∙◌,
}
use xv6_tp.Base.Run.{Run, done}
use xv6_tp.Kernel.Fs.{Refs, get, put, is_empty, namex_loop, namex, starts_at}
use xv6_tp.Kernel.Fs.Split.{elements, no_names, no_more, element, skipelem-Skips}

module _ (is_dir : ℕ → Bool) (lookup : ℕ → List ℕ → Option ℕ) (parent : Bool) where
  -- The inode that a list of names leads to, from inode `ip`; for the parent, one name earlier.
  unfoldable pub follow : List (List ℕ) → ℕ → Option ℕ
  follow [] ip = if parent then none else some ip
  follow (n ∷ ns) ip =
      if not (is_dir ip)
      then none
      else if parent && no_names ns
      then some ip
      else elim (lookup ip n) [ none ↦ none | some j ↦ follow ns j ]

abbrev pub with_answer : Option ℕ → Refs → Refs
with_answer none s = s
with_answer (some ip) s = get ip s

-- The call ends with an answer, and only the answer has a new reference.
pub record Resolves (answer : Option ℕ) (s : Refs) (run : Run (Option ℕ × Refs)) : Type 0 where
  pub refs : Refs
  pub ends : run ≡ done (answer, refs)
  pub counted : (i : ℕ) → refs i ≡ with_answer answer s i

module _ (is_dir : ℕ → Bool) (lookup : ℕ → List ℕ → Option ℕ) (parent : Bool) where
  put-get : (ip : ℕ) (s u : Refs) → ((i : ℕ) → u i ≡ get ip s i) → (i : ℕ) → put ip u i ≡ s i
  put-get ip s u h i = ground (arith, h i, h ip)

  put-next :
      (ip j : ℕ) (s u : Refs)
      → ((i : ℕ) → u i ≡ get ip s i)
      → (i : ℕ) → put ip (get j u) i ≡ get j s i
  put-next ip j s u h i = ground (arith, h i, h ip, h j)

  loop-Resolves :
      (fuel : ℕ) (path : List ℕ) (ip : ℕ) (s u : Refs)
      → length path < fuel
      → ((i : ℕ) → u i ≡ get ip s i)
      → Resolves
          (follow is_dir lookup parent (elements path) ip)
          s
          (namex_loop is_dir lookup parent fuel path ip u)
  unfolding namex_loop follow
  loop-Resolves zero path ip s u lt h = absurd (omega arith)
  loop-Resolves (suc fuel) path ip s u lt h = elim (skipelem-Skips path) [
    | no_more e q ↦ elim (Bool-cases parent) [
      | inl up ↦
          rw (e, q, up, namex_loop, follow)
            (record { refs = put ip u; ends = refl; counted = put-get ip s u h })
      | inr to ↦ rw (e, q, to, namex_loop, follow) (record { refs = u; ends = refl; counted = h })
    ]
    | element name rest e q shorter same_end ↦ elim (Bool-cases (is_dir ip)) [
      | inr file ↦
          rw (e, q, file, namex_loop, follow)
            (record { refs = put ip u; ends = refl; counted = put-get ip s u h })
      | inl dir ↦ elim (Bool-cases (parent && no_names (elements rest))) [
        | inl last ↦
            let last' : (parent && is_empty rest) ≡ true =
              ap (λ (b : Bool). parent && b) same_end ∙ last in
            rw (e, q, dir, last, last', namex_loop, follow)
              (record { refs = u; ends = refl; counted = h })
        | inr inner ↦
            let inner' : (parent && is_empty rest) ≡ false =
              ap (λ (b : Bool). parent && b) same_end ∙ inner in
            elim (Option-cases (lookup ip name)) [
              | inl missing ↦
                  rw (e, q, dir, inner, inner', missing, namex_loop, follow)
                    (record { refs = put ip u; ends = refl; counted = put-get ip s u h })
              | inr (j, found) ↦
                  rw (e, q, dir, inner, inner', found, namex_loop, follow)
                    (loop-Resolves fuel rest j s (put ip (get j u)) (omega (arith, shorter, lt))
                      (put-next ip j s u h))
            ]
      ]
    ]
  ]

  -- `namex` ends, for every path: it answers the inode that the elements of the path lead to,
  -- through directories, from the root or the current directory, or nothing if they do not; for the
  -- parent it stops one element early. Afterwards the answer has one more reference
  -- than before, and no other inode has more or fewer.
  pub namex-Resolves :
      (cwd : ℕ) (path : List ℕ) (s : Refs)
      → Resolves
          (follow is_dir lookup parent (elements path) (starts_at is_dir lookup cwd path))
          s
          (namex is_dir lookup parent cwd path s)
  unfolding namex
  namex-Resolves cwd path s =
      let ip = starts_at is_dir lookup cwd path in
      loop-Resolves (length path + 1) path ip s (get ip s) (omega arith) (λ i. refl)
