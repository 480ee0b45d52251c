-- ===== src/Kernel/Kalloc.antt =====
-- kernel/kalloc.c: the allocator of physical pages.
--
-- `word p` is the first word of the page at address `p`, through which the free pages are linked;
-- it is the only part of a page that the allocator reads. `memset` of a page fills that word with
-- eight copies of a byte. A critical section of `kmem.lock` is one atomic step.
pub mod Free
pub mod Init
mod Tests
use xv6_tp.Base.{
  ℕ, zero, suc, ◌+◌, ◌-◌, ◌*◌, ◌/◌, ◌%◌, ◌^◌, true, false, not, ◌||◌, ◌==◌, ltb, leb, if◌then◌else◌,
  update,
}
use xv6_tp.Base.Run.{Run, done, panics, out_of_fuel, ◌>>=◌}

abbrev pub pgsize : ℕ
pgsize = 4096

abbrev pub phystop : ℕ
phystop = 0x8000_0000 + 128 * 1024 * 1024

-- `(sz + PGSIZE - 1) & ~(PGSIZE - 1)`
abbrev pub pground_up : ℕ → ℕ
pground_up sz = (sz + pgsize - 1) / pgsize * pgsize

-- `kmem` and the pages; `freelist` 0 is the null pointer.
pub record Kmem : Type 0 where
  pub word : ℕ → ℕ
  pub freelist : ℕ
  pub nb_free_pages : ℕ

-- The word that `memset(p, c, PGSIZE)` leaves.
abbrev pub filled : ℕ → ℕ
filled c = c * 0x0101_0101_0101_0101

-- `end` is the first address behind the kernel's image, which the linker sets.
module _ (end : ℕ) where
  pub kfree : ℕ → Kmem → Run Kmem
  kfree pa k =
      if not (pa % pgsize == 0) || ltb pa end || leb phystop pa
      then panics
      else let junk = update k.word pa (filled 1) in
        done (record {
          word = update junk pa k.freelist;
          freelist = pa;
          nb_free_pages = (k.nb_free_pages + 1) % 2 ^ 64;
        })

  pub freerange_loop : ℕ → (p pa_end : ℕ) → Kmem → Run Kmem
  freerange_loop zero p pa_end k = out_of_fuel
  freerange_loop (suc f) p pa_end k = elim (leb (p + pgsize) pa_end) [
    | true ↦ kfree p k >>= freerange_loop f (p + pgsize) pa_end
    | false ↦ done k
  ]

  -- The loop makes at most one round for each page below `pa_end`, and one more test.
  pub freerange : (pa_start pa_end : ℕ) → Kmem → Run Kmem
  freerange pa_start pa_end k = freerange_loop (pa_end / pgsize + 1) (pground_up pa_start) pa_end k

  pub kinit : Kmem → Run Kmem
  kinit k = freerange end phystop (record k { nb_free_pages = 0 })

-- The page's address, or 0 if there is none.
pub kalloc : Kmem → ℕ × Kmem
kalloc k =
    let r = k.freelist in
    if not (r == 0)
    then (
      r,
      record {
        word = update k.word r (filled 5);
        freelist = k.word r;
        nb_free_pages = (k.nb_free_pages + 2 ^ 64 - 1) % 2 ^ 64;
      },
    )
    else (r, k)

pub kalloc_free_memory : Kmem → ℕ
kalloc_free_memory k = k.nb_free_pages * pgsize % 2 ^ 64
