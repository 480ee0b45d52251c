-- ===== src/Kernel/Fs.antt =====
-- kernel/fs.c: path names, `skipelem`, `namex`, `namei` and `nameiparent`.
--
-- A path is its bytes up to the terminating 0. An inode is a number; what is known of it and of the
-- entries of a directory, `is_dir` and `lookup`, is an argument, and the state is the number of
-- references to each inode.
pub mod Split
pub mod Walk
mod Tests
use xv6_tp.Base.{
  ℕ, zero, suc, ◌+◌, ◌-◌, Bool, true, false, not, ◌&&◌, Option, none, some, List, [], ◌∷◌, ◌==◌,
  if◌then◌else◌, length, update,
}
use xv6_tp.Base.Run.{Run, done, out_of_fuel}

abbrev pub dirsiz : ℕ
dirsiz = 14

abbrev pub rootino : ℕ
rootino = 1

-- '/'
abbrev pub slash : ℕ
slash = 47

abbrev pub skip_slashes : List ℕ → List ℕ
skip_slashes [] = []
skip_slashes (c ∷ l) = let rest = skip_slashes l in if c == slash then rest else c ∷ l

-- The bytes up to a slash, and the rest from it on.
abbrev pub elem_of : List ℕ → List ℕ
elem_of [] = []
elem_of (c ∷ l) = let rest = elem_of l in if c == slash then [] else c ∷ rest

abbrev pub after_elem : List ℕ → List ℕ
after_elem [] = []
after_elem (c ∷ l) = let rest = after_elem l in if c == slash then c ∷ l else rest

abbrev pub first_bytes : ℕ → List ℕ → List ℕ
first_bytes zero l = []
first_bytes (suc n) [] = []
first_bytes (suc n) (c ∷ l) = c ∷ first_bytes n l

abbrev pub elem_at : List ℕ → Option (List ℕ × List ℕ)
elem_at [] = none
elem_at (c ∷ l) = some (first_bytes dirsiz (elem_of (c ∷ l)), skip_slashes (after_elem (c ∷ l)))

-- The name of the next element and the path behind it.
unfoldable pub skipelem : List ℕ → Option (List ℕ × List ℕ)
skipelem path = elem_at (skip_slashes path)

abbrev pub Refs : Type 0
Refs = ℕ → ℕ

-- `iget` and `idup`, and `iput`
abbrev pub get : ℕ → Refs → Refs
get ip s = update s ip (s ip + 1)

abbrev pub put : ℕ → Refs → Refs
put ip s = update s ip (s ip - 1)

abbrev pub is_empty : List ℕ → Bool
is_empty [] = true
is_empty (c ∷ l) = false

module _ (is_dir : ℕ → Bool) (lookup : ℕ → List ℕ → Option ℕ) where
  -- The loop of `namex` at inode `ip`, of which it has a reference; the answer is the inode, if there is one.
  unfoldable pub namex_loop : (parent : Bool) (fuel : ℕ) → List ℕ → ℕ → Refs → Run (Option ℕ × Refs)
  namex_loop parent zero path ip s = out_of_fuel
  namex_loop parent (suc fuel) path ip s = elim (skipelem path) [
    | none ↦ if parent then done (none, put ip s) else done (some ip, s)
    | some (name, rest) ↦
        if not (is_dir ip)
        then done (none, put ip s)
        else if parent && is_empty rest
        then done (some ip, s)
        else elim (lookup ip name) [
          | none ↦ done (none, put ip s)
          | some next ↦ namex_loop parent fuel rest next (put ip (get next s))
        ]
  ]

  abbrev pub starts_at : (cwd : ℕ) → List ℕ → ℕ
  starts_at cwd [] = cwd
  starts_at cwd (c ∷ l) = if c == slash then rootino else cwd

  unfoldable pub namex : (parent : Bool) (cwd : ℕ) → List ℕ → Refs → Run (Option ℕ × Refs)
  namex parent cwd path s =
      let ip = starts_at cwd path in namex_loop parent (length path + 1) path ip (get ip s)

  pub namei : (cwd : ℕ) → List ℕ → Refs → Run (Option ℕ × Refs)
  namei cwd path s = namex false cwd path s

  pub nameiparent : (cwd : ℕ) → List ℕ → Refs → Run (Option ℕ × Refs)
  nameiparent cwd path s = namex true cwd path s
