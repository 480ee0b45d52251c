-- ===== src/Kernel/Fs/Tests.antt =====
-- The theorems at the path "/a//b", where inode 1 is a directory with an entry "a", a directory 5
-- that has "b", a file 6.
use xv6_tp.Base.{ℕ, ◌==◌, ◌||◌, Bool, false, Option, none, some, List, [], ◌∷◌, if◌then◌else◌}
use xv6_tp.Kernel.Fs.{skipelem, namex}
use xv6_tp.Kernel.Fs.Split.{Skips, skipelem-Skips}
use xv6_tp.Kernel.Fs.Walk.{Resolves, follow, namex-Resolves}

abbrev path : List ℕ
path = 47 ∷ 97 ∷ 47 ∷ 47 ∷ 98 ∷ []

abbrev directory : ℕ → Bool
directory ip = (ip == 1) || (ip == 5)

abbrev entries : ℕ → List ℕ → Option ℕ
entries ip name = if ip == 1 then some 5 else if ip == 5 then some 6 else none

skipelem-Skips_example : Skips path (skipelem path)
skipelem-Skips_example = skipelem-Skips path

namex-Resolves_example : Resolves (some 6) (λ i. 3) (namex directory entries false 9 path (λ i. 3))
unfolding follow
namex-Resolves_example = namex-Resolves directory entries false 9 path (λ i. 3)
