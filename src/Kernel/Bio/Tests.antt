-- ===== src/Kernel/Bio/Tests.antt =====
-- The theorems at an empty cache.
use xv6_tp.Base.{◌≡◌, true, false, refl, arith, [], ◌+◌}
use xv6_tp.Base.Run.{done}
use xv6_tp.Kernel.Bio.{
  Bcache, binit, recycle, bread, bget, find_in, find_back, insert_all, set_buf, refer,
}
use xv6_tp.Kernel.Bio.Once.{start, next, pins, reads, Once, one_buffer_each}

abbrev empty : Bcache
empty = record {
  buf = λ b. record { valid = false; dev = 0; blockno = 0; refcnt = 0; bytes = λ i. 0 };
  order = [];
  disk = λ dev blockno i. blockno + i;
}

-- The last buffer of the list takes block 33.
abbrev taken : Bcache
taken = recycle 1 33 0 (binit empty)

abbrev after_read : Bcache
after_read = set_buf 0 (record (taken.buf 0) { bytes = taken.disk 1 33; valid = true }) taken

reads_block : bread 1 33 (binit empty) ≡ done (0, after_read)
unfolding bread bget find_in find_back binit insert_all
reads_block = refl

one_buffer_each_example : Once (refer 0 after_read)
one_buffer_each_example =
    one_buffer_each empty (refer 0 after_read) (λ b. refl)
      (next (next start (reads 1 33 0 after_read (λ e. absurd (omega (arith, e))) reads_block))
        (pins 0))
