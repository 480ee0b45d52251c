-- ===== src/Kernel/Console/Erases.antt =====
-- The keys that erase: control-U, control-H and delete.
use xv6_tp.Base.{
  ℕ, zero, suc, ◌+◌, ◌-◌, ◌%◌, ◌^◌, ◌≡◌, ◌≢◌, ◌<◌, true, false, List, [], ◌∷◌, ◌++◌, ◌==◌,
  Bool-cases, inl, inr, arith, refl, ap, sym, ◌∙◌,
}
use xv6_tp.Base.Run.{Run, ◌>>=◌}
use xv6_tp.Kernel.Console.{
  Cons, Reply, input_buf_size, backspace, erase, before_edit, kill_line, and_erased, delete_key,
}
use xv6_tp.Kernel.Console.Ring.{line, Shows, empty-Shows}
use xv6_tp.Kernel.Console.Screen.{drop_last, Answers}

drop_last-snoc : (l : List ℕ) (x : ℕ) → drop_last (l ++ (x ∷ [])) ≡ l
drop_last-snoc [] x = refl
drop_last-snoc (y ∷ []) x = refl
drop_last-snoc (y ∷ z ∷ l) x = ap (λ (m : List ℕ). y ∷ m) (drop_last-snoc (z ∷ l) x)

-- The last typed character goes.
abbrev erase-Shows :
    (c : Cons) (ready typing : List ℕ) (s : Shows c ready typing) (t : ℕ)
    → s.t ≡ suc t
    → Shows (erase c) ready (line c.buf c.w t)
erase-Shows c ready typing s t e = record {
  a = s.a;
  t = t;
  r_small = s.r_small;
  w_at = s.w_at;
  e_at = omega (arith, s.e_at, s.w_at, e, s.fits);
  fits = omega (arith, s.fits, e);
  is_ready = s.is_ready;
  is_typing = refl;
  one_line = λ k h. s.one_line k (omega (arith, e, h));
}

-- The kill loop, with enough rounds.
pub kill_line-Answers :
    (fuel : ℕ) (c : Cons) (ready typing : List ℕ) (s : Shows c ready typing)
    → s.t < fuel
    → Answers (record { ready = ready; typing = [] }) (kill_line fuel c)
unfolding kill_line
kill_line-Answers zero c ready typing s h = absurd (omega arith)
kill_line-Answers (suc fuel) c ready typing s h = elim (Bool-cases (s.t == 0)) [
  | inl clear ↦
      let at : s.t ≡ 0 = ground arith in
      record {
        reply = record { cons = c; echo = []; wakes = false };
        answer =
            let stopped : (c.e == c.w) ≡ true = empty-Shows s ∙ clear in ground (arith, stopped);
        shows = record {
          a = s.a;
          t = 0;
          r_small = s.r_small;
          w_at = s.w_at;
          e_at = omega (arith, s.e_at, at);
          fits = omega (arith, s.fits);
          is_ready = s.is_ready;
          is_typing = refl;
          one_line = λ k l. absurd (omega (arith, l));
        };
      }
  | inr more ↦
      let e : s.t ≡ suc (s.t - 1) = ground arith in
      let r =
        kill_line-Answers fuel (erase c) ready (line c.buf c.w (s.t - 1))
          (erase-Shows c ready typing s (s.t - 1) e) (omega (arith, h, e)) in
      let goes : (c.e == c.w) ≡ false = empty-Shows s ∙ more in
      let last : (c.e + (2 ^ 32 - 1)) % 2 ^ 32 % input_buf_size
          ≡ (c.w + (s.t - 1)) % input_buf_size =
        omega (arith, s.e_at, s.w_at, e, s.fits) in
      let at : before_edit c ≡ c.buf ((c.w + (s.t - 1)) % input_buf_size) = ap c.buf last in
      let not_newline : before_edit c ≢ 10 =
        λ z. s.one_line (s.t - 1) (omega (arith, e)) (sym at ∙ z) in
      let one_round : kill_line (suc fuel) c ≡ (kill_line fuel (erase c) >>= and_erased) =
        ground (arith, goes, not_newline) in
      record {
        reply = record r.reply { echo = backspace ∷ r.reply.echo };
        answer = one_round ∙ ap (λ (x : Run Reply). x >>= and_erased) r.answer;
        shows = r.shows;
      }
]

pub delete_key-Answers :
    (c : Cons) (ready typing : List ℕ)
    → Shows c ready typing
    → Answers (record { ready = ready; typing = drop_last typing }) (delete_key c)
delete_key-Answers c ready typing s = elim (Bool-cases (s.t == 0)) [
  | inl clear ↦
      let at : s.t ≡ 0 = ground arith in
      let stopped : (c.e == c.w) ≡ true = empty-Shows s ∙ clear in
      let nothing : typing ≡ [] = s.is_typing ∙ ap (λ (k : ℕ). line c.buf c.w k) at in
      record {
        reply = record { cons = c; echo = []; wakes = false };
        answer = ground (arith, stopped);
        shows = record {
          a = s.a;
          t = s.t;
          r_small = s.r_small;
          w_at = s.w_at;
          e_at = s.e_at;
          fits = s.fits;
          is_ready = s.is_ready;
          is_typing = ap drop_last nothing ∙ sym nothing ∙ s.is_typing;
          one_line = s.one_line;
        };
      }
  | inr more ↦
      let e : s.t ≡ suc (s.t - 1) = ground arith in
      let goes : (c.e == c.w) ≡ false = empty-Shows s ∙ more in
      let r = erase-Shows c ready typing s (s.t - 1) e in
      let dropped : drop_last typing ≡ line c.buf c.w (s.t - 1) =
        ap drop_last (s.is_typing ∙ ap (λ (k : ℕ). line c.buf c.w k) e)
        ∙ drop_last-snoc (line c.buf c.w (s.t - 1)) (c.buf ((c.w + (s.t - 1)) % input_buf_size)) in
      record {
        reply = record { cons = erase c; echo = backspace ∷ []; wakes = false };
        answer = ground (arith, goes);
        shows = record {
          a = r.a;
          t = r.t;
          r_small = r.r_small;
          w_at = r.w_at;
          e_at = r.e_at;
          fits = r.fits;
          is_ready = r.is_ready;
          is_typing = dropped;
          one_line = r.one_line;
        };
      }
]
