-- ===== src/Kernel/Kalloc/Tests.antt =====
-- The theorems at a kernel that ends at 0x80020000.
use xv6_tp.Base.{ℕ, ◌≡◌, [], ◌∷◌, arith, refl}
use xv6_tp.Kernel.Kalloc.{Kmem, kinit, kalloc_free_memory, pground_up}
use xv6_tp.Kernel.Kalloc.Free.{IsPage, IsFree, kalloc_free_memory-IsFree}
use xv6_tp.Kernel.Kalloc.Init.{pages_from, EndsFree, kinit-EndsFree}

abbrev image_end : ℕ
image_end = 0x8002_0000

abbrev page : ℕ
page = 0x8003_0000

abbrev empty : Kmem
empty = record { word = λ p. 0; freelist = 0; nb_free_pages = 0 }

abbrev one_page : Kmem
one_page = record { word = λ p. 0; freelist = page; nb_free_pages = 1 }

page-IsPage : IsPage image_end page
page-IsPage = omega arith

empty-IsFree : IsFree image_end empty []
empty-IsFree = record { chain = refl; counted = refl; pages = tt }

one_page-IsFree : IsFree image_end one_page (page ∷ [])
one_page-IsFree = record {
  chain = (refl, omega arith, tt, refl);
  counted = refl;
  pages = (page-IsPage, tt);
}

kalloc_free_memory-IsFree_example : kalloc_free_memory one_page ≡ 4096
kalloc_free_memory-IsFree_example =
    kalloc_free_memory-IsFree image_end (page ∷ []) one_page one_page-IsFree (omega arith)

kinit-EndsFree_example :
    EndsFree image_end (pages_from (pground_up image_end)) (kinit image_end empty)
kinit-EndsFree_example = kinit-EndsFree image_end (omega arith) empty refl
