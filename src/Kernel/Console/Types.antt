-- ===== src/Kernel/Console/Types.antt =====
-- The characters that are stored.
use xv6_tp.Base.{
  ℕ, suc, ◌+◌, ◌%◌, ◌≡◌, ◌≢◌, ◌<◌, Bool, true, false, ◌||◌, List, [], ◌∷◌, ◌++◌, ◌==◌, Bool-cases,
  inl, inr, length, arith, refl, ap, sym, ◌∙◌, update,
}
use mathlib.Core.Path.{subst}
use xv6_tp.Kernel.Console.{Cons, input_buf_size, control, held, stored, type_key}
use xv6_tp.Kernel.Console.Ring.{line, line-mod, line-++, line-update, length-line, Shows}
use xv6_tp.Kernel.Console.Screen.{Screen, enter, Answers}

-- The buffer once a character is stored, before the test that may end the line.
record Stores (c : Cons) (ch : ℕ) (ready typing : List ℕ) (a t : ℕ) : Type 0 where
  ready_kept : ready ≡ line (stored ch c).buf c.r a
  typing_grows : typing ++ (ch ∷ []) ≡ line (stored ch c).buf c.w (suc t)
  all_there : ready ++ (typing ++ (ch ∷ [])) ≡ line (stored ch c).buf c.r (a + suc t)
  others :
      (k : ℕ)
      → k < t
      → (stored ch c).buf ((c.w + k) % input_buf_size) ≡ c.buf ((c.w + k) % input_buf_size)
  newest : (stored ch c).buf ((c.w + t) % input_buf_size) ≡ ch

stored-Stores :
    (c : Cons) (ch : ℕ) (ready typing : List ℕ) (s : Shows c ready typing)
    → s.a + s.t < input_buf_size
    → Stores c ch ready typing s.a s.t
stored-Stores c ch ready typing s room =
    let d : ℕ → ℕ = (stored ch c).buf in
    let from_r : c.e % input_buf_size ≡ (c.r + (s.a + s.t)) % input_buf_size =
      omega (arith, s.e_at, s.w_at) in
    let from_w : c.e % input_buf_size ≡ (c.w + s.t) % input_buf_size = omega (arith, s.e_at) in
    let upd_r : d ≡ update c.buf ((c.r + (s.a + s.t)) % input_buf_size) ch =
      ap (λ (i : ℕ). update c.buf i ch) from_r in
    let upd_w : d ≡ update c.buf ((c.w + s.t) % input_buf_size) ch =
      ap (λ (i : ℕ). update c.buf i ch) from_w in
    let kept_r : line d c.r s.a ≡ line c.buf c.r s.a =
      ap (λ (f : ℕ → ℕ). line f c.r s.a) upd_r
      ∙ line-update c.buf ch c.r (s.a + s.t) s.a (omega arith) room in
    let kept_w : line d c.w s.t ≡ line c.buf c.w s.t =
      ap (λ (f : ℕ → ℕ). line f c.w s.t) upd_w
      ∙ line-update c.buf ch c.w s.t s.t (omega arith) (omega (arith, room)) in
    let newest : d ((c.w + s.t) % input_buf_size) ≡ ch = ground (arith, from_w) in
    let ready_kept : ready ≡ line d c.r s.a = s.is_ready ∙ sym kept_r in
    let typing_grows : typing ++ (ch ∷ []) ≡ line d c.w (suc s.t) =
      ap (λ (l : List ℕ). l ++ (ch ∷ [])) (s.is_typing ∙ sym kept_w)
      ∙ ap (λ (x : ℕ). line d c.w s.t ++ (x ∷ [])) (sym newest) in
    let from_ra : line d c.w (suc s.t) ≡ line d (c.r + s.a) (suc s.t) =
      line-mod d c.w (c.r + s.a) (suc s.t) (omega (arith, s.w_at)) in
    record {
      ready_kept = ready_kept;
      typing_grows = typing_grows;
      all_there =
          ap (λ (l : List ℕ). l ++ (typing ++ (ch ∷ []))) ready_kept
          ∙ ap (λ (l : List ℕ). line d c.r s.a ++ l) (typing_grows ∙ from_ra)
          ∙ line-++ d c.r s.a (suc s.t);
      others = λ k l.
          let ne : c.e % input_buf_size ≢ (c.w + k) % input_buf_size =
            λ z. omega (arith, z, from_w, l, room) in
          ground (arith, ne);
      newest = newest;
    }

pub lengths :
    {c : Cons} (ready typing : List ℕ) (s : Shows c ready typing)
    → length ready + length typing ≡ s.a + s.t
lengths {c} ready typing s =
    let lr : length ready ≡ s.a = ap length s.is_ready ∙ length-line c.buf c.r s.a in
    let lt : length typing ≡ s.t = ap length s.is_typing ∙ length-line c.buf c.w s.t in
    omega (arith, lr, lt)

abbrev ends_line : ℕ → ℕ → Bool
ends_line ch n = ch == 10 || ch == control 68 || n == input_buf_size

pub type_key-Answers :
    (c : Cons) (ch : ℕ) (ready typing : List ℕ) (s : Shows c ready typing)
    → s.a + s.t < input_buf_size
    → Answers (enter ch (record { ready = ready; typing = typing })) (type_key ch c)
type_key-Answers c ch ready typing s room =
    let st = stored-Stores c ch ready typing s room in
    let now_held : held (stored ch c) ≡ suc (s.a + s.t) =
      omega (arith, s.r_small, s.w_at, s.e_at, room) in
    let len : suc (length ready + length typing) ≡ suc (s.a + s.t) =
      ap suc (lengths ready typing s) in
    elim (Bool-cases (ends_line ch (suc (s.a + s.t)))) [
      | inl ends ↦
          let full : ends_line ch (held (stored ch c)) ≡ true =
            ap (λ (n : ℕ). ends_line ch n) now_held ∙ ends in
          let full' : ends_line ch (suc (length ready + length typing)) ≡ true =
            ap (λ (n : ℕ). ends_line ch n) len ∙ ends in
          let to : enter ch (record { ready = ready; typing = typing })
              ≡ record { ready = ready ++ (typing ++ (ch ∷ [])); typing = [] } =
            rw full' refl in
          subst (λ (x : Screen). Answers x (type_key ch c)) (sym to)
            (record {
              reply = record {
                cons = record (stored ch c) { w = (stored ch c).e };
                echo = ch ∷ [];
                wakes = true;
              };
              answer = rw full refl;
              shows = record {
                a = s.a + suc s.t;
                t = 0;
                r_small = s.r_small;
                w_at = omega (arith, s.w_at, s.e_at);
                e_at = omega (arith, s.w_at, s.e_at);
                fits = omega (arith, room);
                is_ready = st.all_there;
                is_typing = refl;
                one_line = λ k l. absurd (omega (arith, l));
              };
            })
      | inr goes ↦
          let open_line : ends_line ch (held (stored ch c)) ≡ false =
            ap (λ (n : ℕ). ends_line ch n) now_held ∙ goes in
          let open_line' : ends_line ch (suc (length ready + length typing)) ≡ false =
            ap (λ (n : ℕ). ends_line ch n) len ∙ goes in
          let to : enter ch (record { ready = ready; typing = typing })
              ≡ record { ready = ready; typing = typing ++ (ch ∷ []) } =
            rw open_line' refl in
          let not_newline : ch ≢ 10 = λ z. absurd (ground (arith, z, goes)) in
          subst (λ (x : Screen). Answers x (type_key ch c)) (sym to)
            (record {
              reply = record { cons = stored ch c; echo = ch ∷ []; wakes = false };
              answer = rw open_line refl;
              shows = record {
                a = s.a;
                t = suc s.t;
                r_small = s.r_small;
                w_at = s.w_at;
                e_at = omega (arith, s.e_at);
                fits = omega (arith, room);
                is_ready = st.ready_kept;
                is_typing = st.typing_grows;
                one_line = λ k l. elim (Bool-cases (k == s.t)) [
                  | inl last ↦
                      let at : k ≡ s.t = ground arith in
                      λ z. not_newline (
                        sym st.newest
                        ∙ ap (λ (n : ℕ). (stored ch c).buf ((c.w + n) % input_buf_size)) (sym at)
                        ∙ z)
                  | inr older ↦
                      let lt : k < s.t = ground arith in
                      λ z. s.one_line k lt (sym (st.others k lt) ∙ z)
                ];
              };
            })
    ]
