-- ===== src/Kernel/Pipe/Write.antt =====
-- `pipewrite` against the queue of the bytes that the pipe holds.
use xv6_tp.Base.{
  ℕ, zero, suc, ◌+◌, ◌%◌, ◌^◌, ◌<◌, ◌≡◌, ◌≢◌, ◌⊎◌, inl, inr, List, [], ◌∷◌, ◌++◌, length, arith,
  refl, ◌==◌, ap, ◌∙◌, Bool, true, false, not, ◌||◌, Option, some, none, pos, negsuc, Bool-cases,
  Option-cases, append_assoc, append-nil, sym,
}
use xv6_tp.Kernel.Pipe.{
  Pipe, pipesize, put, WriteTurn, wrote, full, readers, nobody, pipewrite_loop,
}
use xv6_tp.Kernel.Pipe.Window.{contents, count, IsValid, put-contents, length-window}

-- `xs` are the caller's bytes from position `i` on.
abbrev pub Sent : (ℕ → Option ℕ) → ℕ → List ℕ → Type 0
Sent src i [] = Unit {0}
Sent src i (x ∷ xs) = (src i ≡ some x) × Sent src (i + 1) xs

-- From `pi` with `i` bytes written to `pi'` with `k`.
pub record Appended (src : ℕ → Option ℕ) (pi : Pipe) (i k : ℕ) (pi' : Pipe) : Type 0 where
  pub sent : List ℕ
  pub Sent_them : Sent src i sent
  pub counted : k ≡ i + length sent
  pub appended : contents pi' ≡ contents pi ++ sent
  pub valid : IsValid pi'
  pub same_ends : (pi'.readopen ≡ pi.readopen) × (pi'.writeopen ≡ pi.writeopen)

-- What a turn with `left` bytes to go from position `i` may come to.
abbrev pub Outcome : (ℕ → Bool) → (ℕ → Option ℕ) → (left i : ℕ) → Pipe → WriteTurn → Type 0
Outcome killed src left i pi (wrote (pos k) w pi') =
    Appended src pi i k pi' × (w ≡ readers) × ((k ≡ i + left) ⊎ (src k ≡ none) × (k < i + left))
Outcome killed src left i pi (wrote (negsuc e) w pi') =
    (e ≡ 0)
    × (w ≡ nobody)
    × ((k : ℕ) × Appended src pi i k pi'
        × (k < i + left)
        × ((pi.readopen ≡ false) ⊎ (killed k ≡ true)))
Outcome killed src left i pi (full k w pi') =
    Appended src pi i k pi' × (w ≡ readers) × (k < i + left) × (length (contents pi') ≡ pipesize)

none_sent : (src : ℕ → Option ℕ) (pi : Pipe) (i : ℕ) → IsValid pi → Appended src pi i i pi
none_sent src pi i v = record {
  sent = [];
  Sent_them = tt;
  counted = omega arith;
  appended = sym (append-nil (contents pi));
  valid = v;
  same_ends = (refl, refl);
}

module _ (src : ℕ → Option ℕ) {pi : Pipe} (i : ℕ) {ch : ℕ} (v : IsValid pi) (got : src i ≡ some ch)
    (room : pi.nwrite ≢ (pi.nread + pipesize) % 2 ^ 32) where
  one_more : {k : ℕ} {pi' : Pipe} → Appended src (put ch pi) (i + 1) k pi' → Appended src pi i k pi'
  unfolding put
  one_more a = record {
    sent = ch ∷ a.sent;
    Sent_them = (got, a.Sent_them);
    counted = omega (arith, a.counted);
    appended =
        a.appended
        ∙ ap (λ (xs : List ℕ). xs ++ a.sent) (put-contents ch pi v room).0
        ∙ append_assoc (contents pi) (ch ∷ []) a.sent;
    valid = a.valid;
    same_ends = a.same_ends;
  }

  one_more-Outcome :
      (killed : ℕ → Bool) (left : ℕ) (t : WriteTurn)
      → Outcome killed src left (i + 1) (put ch pi) t
      → Outcome killed src (suc left) i pi t
  unfolding put
  one_more-Outcome killed left (wrote (pos k) w pi') (a, e, f) = (one_more a, e, ground arith)
  one_more-Outcome killed left (wrote (negsuc z) w pi') (e, f, (k, a, lt, why)) =
      (e, f, (k, one_more a, omega arith, why))
  one_more-Outcome killed left (full k w pi') (a, e, lt, len) = (one_more a, e, omega arith, len)

-- A turn of `pipewrite` appends the caller's bytes to the pipe in order, each once. It returns the
-- number written when all are or when one cannot be read, and wakes the readers; it returns -1 only
-- if the read end is closed or the caller is killed; it sleeps only on a full pipe, the readers woken.
pub pipewrite_loop-Outcome :
    (killed : ℕ → Bool) (src : ℕ → Option ℕ) (left i : ℕ) (pi : Pipe)
    → IsValid pi
    → Outcome killed src left i pi (pipewrite_loop killed src left i pi)
unfolding pipewrite_loop
pipewrite_loop-Outcome killed src zero i pi v = (none_sent src pi i v, refl, inl (omega arith))
pipewrite_loop-Outcome killed src (suc left) i pi v =
    elim (Bool-cases (not pi.readopen || killed i)) [
      | inl stop ↦
          rw (stop, pipewrite_loop)
            (refl, refl, (i, none_sent src pi i v, omega arith, ground arith))
      | inr go ↦ elim (Bool-cases (pi.nwrite == (pi.nread + pipesize) % 2 ^ 32)) [
        | inl no_room ↦
            rw (go, no_room, pipewrite_loop)
              (
                none_sent src pi i v,
                refl,
                omega arith,
                ground (
                  arith,
                  length-window pi.bytes pi.nread (count pi),
                  v.fits,
                  v.read_small,
                  v.write_small,
                ),
              )
        | inr room ↦ elim (Option-cases (src i)) [
          | inl fault ↦
              rw (go, room, fault, pipewrite_loop)
                (none_sent src pi i v, refl, inr (fault, omega arith))
          | inr (ch, got) ↦
              let vacant : pi.nwrite ≢ (pi.nread + pipesize) % 2 ^ 32 = ground arith in
              rw (go, room, got, pipewrite_loop)
                (one_more-Outcome src i v got vacant killed left _ (
                  pipewrite_loop-Outcome killed src left (i + 1) (put ch pi)
                    (put-contents ch pi v vacant).1))
        ]
      ]
    ]
