-- ===== src/Kernel/Pipe/Tests.antt =====
-- The theorems at a pipe that holds two bytes round the end of its ring.
use xv6_tp.Base.{◌≡◌, ◌≢◌, ◌⊎◌, false, true, some, [], ◌∷◌, arith, refl, pos}
use xv6_tp.Kernel.Pipe.{
  Pipe, pipewrite_loop, piperead, read, empty, writers, take_byte, piperead_copy,
}
use xv6_tp.Kernel.Pipe.Window.{contents, IsValid}
use xv6_tp.Kernel.Pipe.Write.{Outcome, pipewrite_loop-Outcome}
use xv6_tp.Kernel.Pipe.Read.{Copied, piperead-Copied}

-- The counters are about to wrap.
abbrev wrapping : Pipe
wrapping = record {
  bytes = λ i. i;
  nread = 0xffff_fffe;
  nwrite = 0;
  readopen = true;
  writeopen = true;
}

wrapping-IsValid : IsValid wrapping
wrapping-IsValid = omega arith

contents-wrapping : contents wrapping ≡ 510 ∷ 511 ∷ []
contents-wrapping = refl

pipewrite_loop-Outcome_example :
    Outcome
      (λ i. false)
      (λ i. some i)
      3
      0
      wrapping
      (pipewrite_loop (λ i. false) (λ i. some i) 3 0 wrapping)
pipewrite_loop-Outcome_example =
    pipewrite_loop-Outcome (λ i. false) (λ i. some i) 3 0 wrapping wrapping-IsValid

piperead-Copied_example :
    ((contents wrapping ≡ [])
      × (wrapping.writeopen ≡ true)
      × (piperead false (λ i. true) 5 wrapping ≡ empty wrapping))
    ⊎ (((contents wrapping ≢ []) ⊎ (wrapping.writeopen ≡ false))
        × Copied (λ i. true) 5 0 wrapping (piperead false (λ i. true) 5 wrapping))
piperead-Copied_example = piperead-Copied false (λ i. true) 5 wrapping wrapping-IsValid

-- Two of five bytes are there: the read returns both and wakes the writers.
read_wraps :
    piperead false (λ i. true) 5 wrapping
    ≡ read (pos 2) (510 ∷ 511 ∷ []) writers (record wrapping { nread = 0 })
unfolding piperead piperead_copy take_byte
read_wraps = refl
