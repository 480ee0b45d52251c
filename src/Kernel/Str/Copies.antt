-- ===== src/Kernel/Str/Copies.antt =====
-- `safestrcpy` and `strncpy`.
use xv6_tp.Base.{
  ℕ, zero, suc, ◌+◌, ◌-◌, ◌≡◌, ◌≢◌, ◌≤◌, ◌<◌, ◌⊎◌, inl, inr, false, ◌==◌, Bool-cases, arith, refl,
  ap, sym, ◌∙◌, pos, update,
}
use mathlib.Core.Path.{subst}
use xv6_tp.Kernel.Str.{Memory, safestrcpy, safestrcpy_loop}

-- `u` has at `s` the string that `m` has at `t`, cut to `n` bytes, and a 0 behind it.
pub record IsCopy (s t n : ℕ) (m u : Memory) : Type 0 where
  -- where the 0 is
  pub length : ℕ
  pub fits : length ≤ n
  pub copied : (i : ℕ) → i < length → u (s + i) ≡ m (t + i)
  pub ends : u (s + length) ≡ 0
  pub whole : (length ≡ n) ⊎ (m (t + length) ≡ 0)
  pub no_zero : (i : ℕ) → i < length → m (t + i) ≢ 0
  -- the bytes from `s` to `s + n` are all that is written
  pub outside : (a : ℕ) → (a < s) ⊎ (s + n < a) → u a ≡ m a

loop-goes_on :
    (s t n : ℕ) (m : Memory)
    → (m t == 0) ≡ false
    → safestrcpy_loop (s + 1) (t + 1) n (update m s (m t)) ≡ safestrcpy_loop s t (suc n) m
unfolding safestrcpy_loop
loop-goes_on s t n m goes = ground (arith, goes)

-- One more byte in front.
longer :
    (s t n : ℕ) (m u v : Memory)
    → u ≡ update m s (m t)
    → m t ≢ 0
    → (s + suc n < t) ⊎ (t + suc n < s)
    → IsCopy (s + 1) (t + 1) n u v
    → IsCopy s t (suc n) m v
longer s t n m u v e nz h r =
    let kept : (a : ℕ) → a ≢ s → u a ≡ m a = λ a ne. ap (λ (f : Memory). f a) e ∙ ground arith in
    let src : (k : ℕ) → k ≤ n → u (t + 1 + k) ≡ m (t + 1 + k) = λ k l. kept (t + 1 + k) (λ z.
      elim h [ inl lo ↦ absurd (omega (arith, lo, z)) | inr hi ↦ absurd (omega (arith, hi, z)) ]) in
    let fits : r.length ≤ n = r.fits in
    record {
      length = r.length + 1;
      fits = omega (arith, fits);
      copied = λ i l. elim (Bool-cases (i == 0)) [
        | inl first ↦
            let at : i ≡ 0 = ground arith in
            let here : u s ≡ m t = ap (λ (f : Memory). f s) e ∙ ground arith in
            ap v (omega (arith, at))
            ∙ r.outside s (inl (omega arith))
            ∙ here
            ∙ ap m (omega (arith, at))
        | inr later ↦
            let k_lt : i - 1 < r.length = ground arith in
            ap v (ground arith)
            ∙ r.copied (i - 1) k_lt
            ∙ src (i - 1) (omega (arith, k_lt, fits))
            ∙ ap m (ground arith)
      ];
      ends = ap v (omega arith) ∙ r.ends;
      whole = elim r.whole [
        | inl full ↦ inl (omega (arith, full))
        | inr stop ↦ inr (ap m (omega arith) ∙ sym (src r.length fits) ∙ stop)
      ];
      no_zero = λ i l. elim (Bool-cases (i == 0)) [
        | inl first ↦ let at : t ≡ t + i = ground arith in λ z. nz (ap m at ∙ z)
        | inr later ↦
            let k_lt : i - 1 < r.length = ground arith in
            let at : t + 1 + (i - 1) ≡ t + i = ground arith in
            λ z. r.no_zero (i - 1) k_lt (src (i - 1) (omega (arith, k_lt, fits)) ∙ ap m at ∙ z)
      ];
      outside = λ a o.
          let o' : (a < s + 1) ⊎ (s + 1 + n < a) = elim o [
            | inl lo ↦ inl (omega (arith, lo))
            | inr hi ↦ inr (omega (arith, hi))
          ] in
          r.outside a o'
          ∙ kept a (λ z. elim o [
            | inl lo ↦ absurd (omega (arith, lo, z))
            | inr hi ↦ absurd (omega (arith, hi, z))
          ]);
    }

loop-IsCopy :
    (s t n : ℕ) (m : Memory) → (s + n < t) ⊎ (t + n < s) → IsCopy s t n m (safestrcpy_loop s t n m)
unfolding safestrcpy_loop
loop-IsCopy s t zero m h = record {
  length = 0;
  fits = omega arith;
  copied = λ i l. absurd (omega arith);
  ends = ground arith;
  whole = inl refl;
  no_zero = λ i l. absurd (omega arith);
  outside = λ a o. ground arith;
}
loop-IsCopy s t (suc n) m h = elim (Bool-cases (m t == 0)) [
  | inl last ↦
      let zero_at : m t ≡ 0 = ground arith in
      record {
        length = 0;
        fits = omega arith;
        copied = λ i l. absurd (omega arith);
        ends = ground arith;
        whole = inr (ap m (omega arith) ∙ zero_at);
        no_zero = λ i l. absurd (omega arith);
        outside = λ a o. ground arith;
      }
  | inr goes ↦
      let u : Memory = update m s (m t) in
      subst (λ (v : Memory). IsCopy s t (suc n) m v) (loop-goes_on s t n m goes)
        (longer s t n m u (safestrcpy_loop (s + 1) (t + 1) n u) refl (λ z. ground (arith, z, goes))
          h
          (loop-IsCopy (s + 1) (t + 1) n u
            (elim h [ inl lo ↦ inl (omega (arith, lo)) | inr hi ↦ inr (omega (arith, hi)) ])))
]

-- `safestrcpy` with a positive `n`, on ranges that do not overlap, copies the string up to its 0
-- or to `n - 1` bytes, always ends it with a 0, and writes nothing outside the `n` bytes.
pub safestrcpy-IsCopy :
    (s t n : ℕ) (m : Memory)
    → (s + n < t) ⊎ (t + n < s)
    → IsCopy s t n m (safestrcpy s t (pos (suc n)) m)
unfolding safestrcpy
safestrcpy-IsCopy s t n m h = loop-IsCopy s t n m h
