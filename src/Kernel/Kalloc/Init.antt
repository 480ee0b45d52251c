-- ===== src/Kernel/Kalloc/Init.antt =====
-- `kinit`: every page between the kernel's image and the end of memory becomes free.
use mathlib.Core.Path.{subst}
use xv6_tp.Base.{
  ℕ, zero, suc, ◌+◌, ◌-◌, ◌/◌, ◌%◌, ◌^◌, ◌≤◌, ◌<◌, ◌≡◌, leb, List, [], ◌∷◌, length, arith, refl,
  inl, inr, Bool-cases,
}
use xv6_tp.Base.Run.{Run, done}
use xv6_tp.Kernel.Kalloc.{Kmem, kinit, freerange, freerange_loop, pgsize, phystop, pground_up}
use xv6_tp.Kernel.Kalloc.Free.{NotIn, IsPage, IsFree, kfree-IsFree}

abbrev AllBelow : ℕ → List ℕ → Type 0
AllBelow p [] = Unit {0}
AllBelow p (x ∷ xs) = (x < p) × AllBelow p xs

NotIn-of_below : (p : ℕ) (xs : List ℕ) → AllBelow p xs → NotIn p xs
NotIn-of_below p [] b = tt
NotIn-of_below p (x ∷ xs) (lt, b) = (omega arith, NotIn-of_below p xs b)

AllBelow-mono : (p q : ℕ) (xs : List ℕ) → p ≤ q → AllBelow p xs → AllBelow q xs
AllBelow-mono p q [] h b = tt
AllBelow-mono p q (x ∷ xs) h (lt, b) = (omega arith, AllBelow-mono p q xs h b)

-- The pages from `p` up to the end of memory.
abbrev pub pages_from : ℕ → ℕ
pages_from p = (phystop - p) / pgsize

-- Some `k'` that the run comes to, with `n` free pages.
abbrev pub EndsFree : ℕ → ℕ → Run Kmem → Type 0
EndsFree end n r = (k' : Kmem) × (ys : List ℕ) × (r ≡ done k') × IsFree end k' ys × (length ys ≡ n)

module _ (end : ℕ) (pos_end : 0 < end) where
  freerange_loop-EndsFree :
      (f p : ℕ) (xs : List ℕ) (k : Kmem)
      → p % pgsize ≡ 0
      → end ≤ p
      → pages_from p < f
      → AllBelow p xs
      → IsFree end k xs
      → length xs + pages_from p < 2 ^ 64
      → EndsFree end (length xs + pages_from p) (freerange_loop end f p phystop k)
  unfolding freerange_loop
  freerange_loop-EndsFree zero p xs k al lo fuel b free small = absurd (omega arith)
  freerange_loop-EndsFree (suc f) p xs k al lo fuel b free small =
      elim (Bool-cases (leb (p + pgsize) phystop)) [
        | inl more ↦
            let page : IsPage end p = record { aligned = al; above = lo; below = ground arith } in
            let (k', run, free') =
              kfree-IsFree end p xs k pos_end page (NotIn-of_below p xs b) free (ground arith) in
            let (k'', ys, run', free'', len) =
              freerange_loop-EndsFree f (p + pgsize) (p ∷ xs) k' (omega arith) (omega arith)
                (ground arith) (omega arith, AllBelow-mono p (p + pgsize) xs (omega arith) b) free'
                (ground arith) in
            (k'', ys, rw (more, run, freerange_loop) run', free'', ground arith)
        | inr over ↦ (k, xs, rw (over, freerange_loop) refl, free, ground arith)
      ]

  -- `kinit` panics nowhere and its loop ends: it frees each page between the kernel's image and the
  -- end of memory once.
  pub kinit-EndsFree :
      (k : Kmem) → k.freelist ≡ 0 → EndsFree end (pages_from (pground_up end)) (kinit end k)
  unfolding kinit freerange
  kinit-EndsFree k e =
      let none_yet : 0 + pages_from (pground_up end) ≡ pages_from (pground_up end) = omega arith in
      subst (λ n. EndsFree end n (kinit end k)) none_yet
        (freerange_loop-EndsFree (phystop / pgsize + 1) (pground_up end) []
          (record k { nb_free_pages = 0 }) (omega arith) (omega arith) (omega arith) tt
          (record { chain = e; counted = refl; pages = tt }) (omega arith))
