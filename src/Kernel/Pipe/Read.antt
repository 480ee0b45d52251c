-- ===== src/Kernel/Pipe/Read.antt =====
-- `piperead` against the queue of the bytes that the pipe holds.
use xv6_tp.Base.{
  ℕ, zero, suc, ◌+◌, ◌<◌, ◌≡◌, ◌≢◌, ◌⊎◌, inl, inr, List, [], ◌∷◌, ◌++◌, length, arith, refl, ◌==◌,
  if◌then◌else◌, ap, ◌∙◌, Bool, true, false, ◌&&◌, pos, negsuc, Bool-cases, sym,
}
use xv6_tp.Kernel.Pipe.{
  Pipe, pipesize, take_byte, ReadTurn, read, empty, nobody, writers, Wakes, piperead, piperead_copy,
  then_read,
}
use xv6_tp.Kernel.Pipe.Window.{contents, count, IsValid, take_byte-contents, length-window}

-- From `pi` to `pi'` the bytes `out` have reached the caller, and the bytes `lost` have left the
-- pipe without reaching it.
pub record Removed (pi : Pipe) (out lost : List ℕ) (pi' : Pipe) : Type 0 where
  pub order : contents pi ≡ out ++ (lost ++ contents pi')
  pub valid : IsValid pi'
  pub same_ends : (pi'.readopen ≡ pi.readopen) × (pi'.writeopen ≡ pi.writeopen)

-- What the copying loop may come to, with `left` bytes to go from position `i`.
abbrev pub Copied : (ℕ → Bool) → (left i : ℕ) → Pipe → ReadTurn → Type 0
Copied dst left i pi (read r out w pi') =
    (lost : List ℕ) × Removed pi out lost pi'
    × (r ≡ pos (i + length out))
    × (w ≡ writers)
    × ((lost ≡ []) × ((length out ≡ left) ⊎ (contents pi' ≡ []) × (length out < left))
        ⊎ (length lost ≡ 1) × (dst (i + length out) ≡ false) × (length out < left))
Copied dst left i pi (empty pi') = ⊥

contents-empty : (pi : Pipe) → pi.nread ≡ pi.nwrite → IsValid pi → contents pi ≡ []
contents-empty pi e v = ap (λ n. xv6_tp.Kernel.Pipe.Window.window pi.bytes pi.nread n) nothing
  where
    nothing : count pi ≡ 0
    nothing = omega (arith, v.read_small, v.write_small)

Removed-none : (pi : Pipe) → IsValid pi → Removed pi [] [] pi
Removed-none pi v = record { order = refl; valid = v; same_ends = (refl, refl) }

module _ {pi : Pipe} (v : IsValid pi) (some_bytes : pi.nread ≢ pi.nwrite) where
  lost_one : Removed pi [] ((take_byte pi).0 ∷ []) (take_byte pi).1
  unfolding take_byte
  lost_one = record {
    order = (take_byte-contents pi v some_bytes).0;
    valid = (take_byte-contents pi v some_bytes).1;
    same_ends = (refl, refl);
  }

  one_more :
      {out lost : List ℕ} {pi' : Pipe}
      → Removed (take_byte pi).1 out lost pi'
      → Removed pi ((take_byte pi).0 ∷ out) lost pi'
  unfolding take_byte
  one_more r = record {
    order =
        (take_byte-contents pi v some_bytes).0
        ∙ ap (λ (xs : List ℕ). (take_byte pi).0 ∷ xs) r.order;
    valid = r.valid;
    same_ends = r.same_ends;
  }

  one_more-Copied :
      (dst : ℕ → Bool) (left i : ℕ) (t : ReadTurn)
      → Copied dst left (i + 1) (take_byte pi).1 t
      → Copied dst (suc left) i pi (then_read (take_byte pi).0 t)
  one_more-Copied dst left i (read r out w pi') (lost, rem, e, f, inl (z, why)) =
      (lost, one_more rem, ground arith, f, inl (z, ground arith))
  one_more-Copied dst left i (read r out w pi') (lost, rem, e, f, inr (z, fault, lt)) =
      let place : i + 1 + length out ≡ i + suc (length out) = omega arith in
      (lost, one_more rem, ground arith, f, inr (z, ap dst (sym place) ∙ fault, omega arith))
  one_more-Copied dst left i (empty pi') bad = absurd bad

-- The copying loop of `piperead` delivers the pipe's oldest bytes in order, each once, and wakes the
-- writers. It returns their number, and stops early only on an empty pipe or on a failed `copyout`,
-- which loses the one byte that it was to copy.
pub piperead_copy-Copied :
    (dst : ℕ → Bool) (left i : ℕ) (pi : Pipe)
    → IsValid pi
    → Copied dst left i pi (piperead_copy dst left i pi)
unfolding piperead_copy
piperead_copy-Copied dst zero i pi v =
    ([], Removed-none pi v, ap pos (omega arith), refl, inl (refl, inl refl))
piperead_copy-Copied dst (suc left) i pi v = elim (Bool-cases (pi.nread == pi.nwrite)) [
  | inl none_left ↦
      let same : pi.nread ≡ pi.nwrite = ground arith in
      rw (none_left, piperead_copy)
        (
          [],
          Removed-none pi v,
          ap pos (omega arith),
          refl,
          inl (refl, inr (contents-empty pi same v, omega arith)),
        )
  | inr more ↦
      let some_bytes : pi.nread ≢ pi.nwrite = ground arith in
      elim (Bool-cases (dst i)) [
        | inl good ↦
            rw (more, good, piperead_copy)
              (one_more-Copied v some_bytes dst left i _ (
                piperead_copy-Copied dst left (i + 1) (take_byte pi).1
                  (take_byte-contents pi v some_bytes).1))
        | inr fault ↦
            let place : i + 0 ≡ i = omega arith in
            rw (more, fault, piperead_copy)
              (
                (take_byte pi).0 ∷ [],
                lost_one v some_bytes,
                ap pos (omega arith),
                refl,
                inr (refl, ap dst place ∙ fault, omega arith),
              )
      ]
]

-- `piperead` on a pipe that holds bytes, or whose write end is closed, returns the oldest bytes as
-- its copying loop does; on an empty pipe whose write end is open it sleeps, or returns -1 if the
-- caller is killed, and changes nothing.
pub piperead-Copied :
    (killed : Bool) (dst : ℕ → Bool) (n : ℕ) (pi : Pipe)
    → IsValid pi
    → ((contents pi ≡ [])
        × (pi.writeopen ≡ true)
        × (piperead killed dst n pi ≡ (if killed then read (negsuc 0) [] nobody pi else empty pi)))
      ⊎ (((contents pi ≢ []) ⊎ (pi.writeopen ≡ false))
          × Copied dst n 0 pi (piperead killed dst n pi))
unfolding piperead
piperead-Copied killed dst n pi v = elim (Bool-cases (pi.nread == pi.nwrite && pi.writeopen)) [
  | inl wait ↦
      let same : pi.nread ≡ pi.nwrite = ground arith in
      inl (contents-empty pi same v, ground arith, rw wait)
  | inr go ↦ rw go (inr (why go, piperead_copy-Copied dst n 0 pi v))
]
  where
    holds : pi.nread ≢ pi.nwrite → contents pi ≢ []
    holds ne e = omega (
      arith,
      ap length e,
      length-window pi.bytes pi.nread (count pi),
      v.fits,
      v.read_small,
      v.write_small,
    )

    why :
        (pi.nread == pi.nwrite && pi.writeopen) ≡ false
        → (contents pi ≢ []) ⊎ (pi.writeopen ≡ false)
    why go = elim (Bool-cases pi.writeopen) [ inl w ↦ inl (holds (ground arith)) | inr w ↦ inr w ]
