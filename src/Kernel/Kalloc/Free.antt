-- ===== src/Kernel/Kalloc/Free.antt =====
-- The allocator against the list of the free pages.
use xv6_tp.Base.{
  ℕ, ◌+◌, ◌-◌, ◌*◌, ◌%◌, ◌^◌, ◌≤◌, ◌<◌, ◌≡◌, ◌≢◌, not, ◌||◌, ◌==◌, ltb, leb, update, List, [], ◌∷◌,
  length, arith, refl, Bool-cases, inl, inr,
}
use xv6_tp.Base.Run.{done, panics}
use xv6_tp.Kernel.Kalloc.{Kmem, kfree, kalloc, kalloc_free_memory, pgsize, phystop, filled}

abbrev pub NotIn : ℕ → List ℕ → Type 0
NotIn a [] = Unit {0}
NotIn a (x ∷ xs) = (x ≢ a) × NotIn a xs

-- From `p` the words lead through the distinct pages `xs` to the null pointer.
abbrev pub Chain : (ℕ → ℕ) → ℕ → List ℕ → Type 0
Chain word p [] = p ≡ 0
Chain word p (x ∷ xs) = (p ≡ x) × (x ≢ 0) × NotIn x xs × Chain word (word x) xs

-- An address that `kfree` accepts.
pub record IsPage (end pa : ℕ) : Type 0 where
  pub aligned : pa % pgsize ≡ 0
  pub above : end ≤ pa
  pub below : pa < phystop

abbrev pub Pages : ℕ → List ℕ → Type 0
Pages end [] = Unit {0}
Pages end (x ∷ xs) = IsPage end x × Pages end xs

-- The free pages are `xs`, each linked once, and the counter counts them.
pub record IsFree (end : ℕ) (k : Kmem) (xs : List ℕ) : Type 0 where
  pub chain : Chain k.word k.freelist xs
  pub counted : k.nb_free_pages ≡ length xs
  pub pages : Pages end xs

pub Chain-update :
    (word : ℕ → ℕ) (a w p : ℕ) (xs : List ℕ)
    → NotIn a xs
    → Chain word p xs
    → Chain (update word a w) p xs
Chain-update word a w p [] out c = c
Chain-update word a w p (x ∷ xs) (ne, out) (e, nz, new, c) =
    (e, nz, new, rw (update_away word a x w ne) (Chain-update word a w (word x) xs out c))
  where
    update_away : (word : ℕ → ℕ) (a x w : ℕ) → x ≢ a → update word a w x ≡ word x
    update_away word a x w ne = ground arith

-- `kfree` accepts every page above the kernel, puts one that is not free in front of the free pages,
-- and counts it.
pub kfree-IsFree :
    (end pa : ℕ) (xs : List ℕ) (k : Kmem)
    → 0 < end
    → IsPage end pa
    → NotIn pa xs
    → IsFree end k xs
    → length xs + 1 < 2 ^ 64
    → (k' : Kmem) × (kfree end pa k ≡ done k') × IsFree end k' (pa ∷ xs)
unfolding kfree
kfree-IsFree end pa xs k pos_end page out free small = (
  record {
    word = update (update k.word pa 0x0101_0101_0101_0101) pa k.freelist;
    freelist = pa;
    nb_free_pages = (k.nb_free_pages + 1) % 2 ^ 64;
  },
  ground (arith, page),
  record {
    chain = (
      refl,
      omega (arith, page),
      out,
      rw (at_front k.word pa k.freelist) (
          Chain-update _ pa k.freelist k.freelist xs out
            (Chain-update k.word pa _ k.freelist xs out free.chain)),
    );
    counted = omega (arith, free.counted);
    pages = (page, free.pages);
  },
)
  where
    at_front : (word : ℕ → ℕ) (a w : ℕ) → update (update word a 0x0101_0101_0101_0101) a w a ≡ w
    at_front word a w = ground arith

-- `kfree` of anything that is not a page above the kernel panics.
pub kfree-panics : (end pa : ℕ) (k : Kmem) → ¬ IsPage end pa → kfree end pa k ≡ panics
unfolding kfree
kfree-panics end pa k bad =
    elim (Bool-cases (not (pa % pgsize == 0) || ltb pa end || leb phystop pa)) [
      | inl hit ↦ rw hit
      | inr miss ↦
          absurd
            (bad (record { aligned = ground arith; above = ground arith; below = ground arith }))
    ]

-- What `kalloc` may return when the pages `xs` are free.
abbrev pub Taken : ℕ → List ℕ → Kmem → ℕ × Kmem → Type 0
Taken end [] k (r, k') = (r ≡ 0) × (k' ≡ k)
Taken end (x ∷ xs) k (r, k') = (r ≡ x) × IsFree end k' xs × NotIn x xs × IsPage end x

-- If the pages `xs` are free, in that order, `kalloc` returns the first of them, the one that was
-- freed last, and the others are free; without free pages it returns 0 and changes nothing.
pub kalloc-Taken :
    (end : ℕ) (xs : List ℕ) (k : Kmem)
    → IsFree end k xs
    → length xs < 2 ^ 64
    → Taken end xs k (kalloc k)
unfolding kalloc
kalloc-Taken end [] k free small = (ground (arith, free.chain), ground (arith, free.chain))
kalloc-Taken end (x ∷ xs) k free small =
    let (e, nz, new, c) = free.chain in
    let r : Kmem = record {
      word = update k.word x (filled 5);
      freelist = k.word x;
      nb_free_pages = (k.nb_free_pages + 2 ^ 64 - 1) % 2 ^ 64;
    } in
    let run : kalloc k ≡ (x, r) = ground arith in
    rw run (
      refl,
      record {
        chain = Chain-update k.word x _ (k.word x) xs new c;
        counted = omega (arith, free.counted);
        pages = free.pages.1;
      },
      new,
      free.pages.0,
    )

-- `sys_freemem` answers the size in bytes of the free pages.
pub kalloc_free_memory-IsFree :
    (end : ℕ) (xs : List ℕ) (k : Kmem)
    → IsFree end k xs
    → length xs * pgsize < 2 ^ 64
    → kalloc_free_memory k ≡ length xs * pgsize
unfolding kalloc_free_memory
kalloc_free_memory-IsFree end xs k free small = omega (arith, free.counted)
