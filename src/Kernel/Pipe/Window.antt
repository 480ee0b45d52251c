-- ===== src/Kernel/Pipe/Window.antt =====
-- The bytes that a pipe holds, oldest first.
use xv6_tp.Base.{
  ℕ, zero, suc, ◌+◌, ◌-◌, ◌%◌, ◌^◌, ◌≤◌, ◌<◌, ◌≡◌, ◌≢◌, List, [], ◌∷◌, ◌++◌, length, update, arith,
  refl, ap, ◌∙◌,
}
use mathlib.Core.Path.{ap₂}
use xv6_tp.Kernel.Pipe.{Pipe, pipesize, put, take_byte}

-- The `n` bytes of the ring from counter value `r` on.
abbrev pub window : (ℕ → ℕ) → ℕ → ℕ → List ℕ
window d r zero = []
window d r (suc n) = d (r % pipesize) ∷ window d (r + 1) n

abbrev pub count : Pipe → ℕ
count pi = (pi.nwrite + 2 ^ 32 - pi.nread) % 2 ^ 32

abbrev pub contents : Pipe → List ℕ
contents pi = window pi.bytes pi.nread (count pi)

pub record IsValid (pi : Pipe) : Type 0 where
  pub read_small : pi.nread < 2 ^ 32
  pub write_small : pi.nwrite < 2 ^ 32
  pub fits : count pi ≤ pipesize

pub length-window : (d : ℕ → ℕ) (r n : ℕ) → length (window d r n) ≡ n
length-window d r zero = refl
length-window d r (suc n) = ap suc (length-window d (r + 1) n)

-- A window depends on the counter modulo the ring's size only.
pub window-mod : (d : ℕ → ℕ) (r q n : ℕ) → r % pipesize ≡ q % pipesize → window d r n ≡ window d q n
window-mod d r q zero e = refl
window-mod d r q (suc n) e = ap₂ ◌∷◌ (ap d e) (window-mod d (r + 1) (q + 1) n (omega arith))

-- Writing just past a window of less than the whole ring extends it.
pub window-update :
    (d : ℕ → ℕ) (ch i r n : ℕ)
    → n < pipesize
    → i ≡ (r + n) % pipesize
    → window (update d i ch) r (suc n) ≡ window d r n ++ (ch ∷ [])
window-update d ch i r zero h e = ap (λ (x : ℕ). x ∷ []) here
  where
    here : update d i ch (r % pipesize) ≡ ch
    here = ground arith
window-update d ch i r (suc n) h e =
    ap₂ ◌∷◌ away (window-update d ch i (r + 1) n (omega arith) (omega arith))
  where
    away : update d i ch (r % pipesize) ≡ d (r % pipesize)
    away = ground arith

-- `window` matches on `suc`, and the code tests `nread == nwrite`.
pub window-cons :
    (d : ℕ → ℕ) (r n : ℕ) → n ≢ 0 → window d r n ≡ d (r % pipesize) ∷ window d (r + 1) (n - 1)
window-cons d r zero h = absurd (h refl)
window-cons d r (suc n) h = ap (λ k. window d r (suc k)) (omega arith)

pub put-contents :
    (ch : ℕ) (pi : Pipe)
    → IsValid pi
    → pi.nwrite ≢ (pi.nread + pipesize) % 2 ^ 32
    → (contents (put ch pi) ≡ contents pi ++ (ch ∷ [])) × IsValid (put ch pi)
unfolding put
put-contents ch pi v room = (
  ap (window (update pi.bytes (pi.nwrite % pipesize) ch) pi.nread) more
      ∙ window-update pi.bytes ch (pi.nwrite % pipesize) pi.nread (count pi)
          (omega (arith, v.fits, v.read_small, v.write_small))
          (omega (arith, v.fits, v.read_small, v.write_small)),
  record {
    read_small = v.read_small;
    write_small = omega arith;
    fits = omega (arith, v.fits, v.read_small, v.write_small);
  },
)
  where
    more : ((pi.nwrite + 1) % 2 ^ 32 + 2 ^ 32 - pi.nread) % 2 ^ 32 ≡ suc (count pi)
    more = omega (arith, v.fits, v.read_small, v.write_small)

pub take_byte-contents :
    (pi : Pipe)
    → IsValid pi
    → pi.nread ≢ pi.nwrite
    → (contents pi ≡ (take_byte pi).0 ∷ contents (take_byte pi).1) × IsValid (take_byte pi).1
unfolding take_byte
take_byte-contents pi v some_bytes = (
  window-cons pi.bytes pi.nread (count pi) (omega (arith, v.fits, v.read_small, v.write_small))
      ∙ ap (λ (xs : List ℕ). pi.bytes (pi.nread % pipesize) ∷ xs)
          (ap (window pi.bytes (pi.nread + 1)) fewer
            ∙ window-mod pi.bytes (pi.nread + 1) ((pi.nread + 1) % 2 ^ 32) _ (omega arith)),
  record {
    read_small = omega arith;
    write_small = v.write_small;
    fits = omega (arith, v.fits, v.read_small, v.write_small);
  },
)
  where
    fewer : count pi - 1 ≡ (pi.nwrite + 2 ^ 32 - (pi.nread + 1) % 2 ^ 32) % 2 ^ 32
    fewer = omega (arith, v.fits, v.read_small, v.write_small)
