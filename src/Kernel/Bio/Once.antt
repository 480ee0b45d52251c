-- ===== src/Kernel/Bio/Once.antt =====
-- A block is in at most one buffer, whatever the calls.
use xv6_tp.Base.{
  ℕ, ◌≡◌, ◌≢◌, ◌<◌, Bool, true, false, ◌==◌, Bool-cases, inl, inr, arith, refl, sym, ap, ◌∙◌,
}
use mathlib.Core.Path.{subst}
use xv6_tp.Base.Run.{done}
use xv6_tp.Kernel.Bio.{
  Buf, Bcache, nbuf, set_buf, binit, caches, refer, unrefer, bread, write_back, brelse, to_front,
  modify,
}
use xv6_tp.Kernel.Bio.Scans.{stands_in, unlink-stands_in, insert_all-stands_in}
use xv6_tp.Kernel.Bio.Lookup.{Only, hit, miss, no_buffer, bread-Fetched}

-- A call on the cache by a client that reads blocks of devices other than 0.
pub data Step (s : Bcache) : Bcache → Type 0 where
  reads : (dev blockno b : ℕ) (t : Bcache) → dev ≢ 0 → bread dev blockno s ≡ done (b, t) → Step s t
  writes : (holding : Bool) (b : ℕ) (t : Bcache) → write_back holding b s ≡ done t → Step s t
  releases : (holding : Bool) (b : ℕ) (t : Bcache) → brelse holding b s ≡ done t → Step s t
  pins : (b : ℕ) → Step s (refer b s)
  unpins : (b : ℕ) → Step s (unrefer b s)
  modifies : (b : ℕ) (bytes : ℕ → ℕ) → Step s (modify b bytes s)

pub data Reach (s : Bcache) : Bcache → Type 0 where
  start : Reach s s
  next : {t u : Bcache} → Reach s t → Step t u → Reach s u

-- Every buffer stands in the list, and no two buffers have the same block of a device other than 0,
-- the device of the buffers that were never used.
pub record Once (s : Bcache) : Type 0 where
  pub listed : (b : ℕ) → b < nbuf → stands_in b s.order ≡ true
  pub once :
      (b c : ℕ)
      → b < nbuf
      → c < nbuf
      → (s.buf b).dev ≢ 0
      → (s.buf b).dev ≡ (s.buf c).dev
      → (s.buf b).blockno ≡ (s.buf c).blockno
      → b ≡ c

-- Neither the blocks of the buffers nor what is in the list changes.
record SameBlocks (s t : Bcache) : Type 0 where
  devs : (b : ℕ) → (t.buf b).dev ≡ (s.buf b).dev
  blocks : (b : ℕ) → (t.buf b).blockno ≡ (s.buf b).blockno
  keeps : (b : ℕ) → b < nbuf → stands_in b s.order ≡ true → stands_in b t.order ≡ true

SameBlocks-Once : {s t : Bcache} → SameBlocks s t → Once s → Once t
SameBlocks-Once {s} {t} m o = record {
  listed = λ b h. m.keeps b h (o.listed b h);
  once = λ b c hb hc ne e q.
      o.once b c hb hc (λ z. ne (m.devs b ∙ z)) (omega (arith, m.devs b, m.devs c, e))
        (omega (arith, m.blocks b, m.blocks c, q));
}

set_buf-SameBlocks :
    (s : Bcache) (b : ℕ) (x : Buf)
    → x.dev ≡ (s.buf b).dev
    → x.blockno ≡ (s.buf b).blockno
    → SameBlocks s (set_buf b x s)
set_buf-SameBlocks s b x e q = record {
  devs = λ c. ground (arith, e);
  blocks = λ c. ground (arith, q);
  keeps = λ c h l. l;
}

to_front-SameBlocks : (b : ℕ) (s t : Bcache) → SameBlocks s t → SameBlocks s (to_front b t)
unfolding stands_in
to_front-SameBlocks b s t m = record {
  devs = m.devs;
  blocks = m.blocks;
  keeps = λ c h l. elim (Bool-cases (b == c)) [
    | inl here ↦ ground (arith, here)
    | inr there ↦
        let ne : b ≢ c = λ z. ground arith in
        ground (arith, unlink-stands_in b c t.order ne, m.keeps c h l)
  ];
}

brelse-SameBlocks :
    (holding : Bool) (b : ℕ) (s t : Bcache) → brelse holding b s ≡ done t → SameBlocks s t
unfolding brelse
brelse-SameBlocks holding b s t e =
    let u : SameBlocks s (unrefer b s) = set_buf-SameBlocks s b _ refl refl in
    elim (Bool-cases holding) [
      | inr not_held ↦ absurd (ground (arith, e))
      | inl held ↦ elim (Bool-cases (((unrefer b s).buf b).refcnt == 0)) [
        | inl last ↦
            let at : to_front b (unrefer b s) ≡ t = ground (arith, e) in
            subst (λ (r : Bcache). SameBlocks s r) at (to_front-SameBlocks b s (unrefer b s) u)
        | inr more ↦
            let at : unrefer b s ≡ t = ground (arith, e) in
            subst (λ (r : Bcache). SameBlocks s r) at u
      ]
    ]

write_back-SameBlocks :
    (holding : Bool) (b : ℕ) (s t : Bcache) → write_back holding b s ≡ done t → SameBlocks s t
unfolding write_back
write_back-SameBlocks holding b s t e = elim (Bool-cases holding) [
  | inr not_held ↦ absurd (ground (arith, e))
  | inl held ↦ record {
    devs = λ c. ground (arith, e);
    blocks = λ c. ground (arith, e);
    keeps = λ c h l. ground (arith, e);
  }
]

hit-SameBlocks :
    (b : ℕ) (x : Buf) (s t : Bcache)
    → Only b x s t
    → x.dev ≡ (s.buf b).dev
    → x.blockno ≡ (s.buf b).blockno
    → SameBlocks s t
hit-SameBlocks b x s t o e q = record {
  devs = λ c. elim (Bool-cases (b == c)) [
    | inl here ↦ let at : b ≡ c = ground arith in ground (arith, o.here, e, at)
    | inr there ↦ ground (arith, o.elsewhere c (λ z. ground arith))
  ];
  blocks = λ c. elim (Bool-cases (b == c)) [
    | inl here ↦ let at : b ≡ c = ground arith in ground (arith, o.here, q, at)
    | inr there ↦ ground (arith, o.elsewhere c (λ z. ground arith))
  ];
  keeps = λ c h l. ground (arith, o.same_order, l);
}

-- A slot that is not the recycled one does not have the new block.
other-dev :
    (dev blockno b c : ℕ) (x : Buf) (s t : Bcache)
    → Only b x s t
    → x.dev ≡ dev
    → x.blockno ≡ blockno
    → caches dev blockno s c ≡ false
    → (t.buf b).dev ≡ (t.buf c).dev
    → (t.buf b).blockno ≡ (t.buf c).blockno
    → b ≡ c
other-dev dev blockno b c x s t o e q absent ed eb = elim (Bool-cases (b == c)) [
  | inl here ↦ ground arith
  | inr there ↦
      let other : t.buf c ≡ s.buf c = o.elsewhere c (λ z. ground arith) in
      let d : (s.buf c).dev ≡ dev = ground (arith, o.here, other, e, ed) in
      let n : (s.buf c).blockno ≡ blockno = ground (arith, o.here, other, q, eb) in
      absurd (ground (arith, d, n, absent))
]

miss-Once :
    (dev blockno b : ℕ) (x : Buf) (s t : Bcache)
    → Only b x s t
    → x.dev ≡ dev
    → x.blockno ≡ blockno
    → ((c : ℕ) → stands_in c s.order ≡ true → caches dev blockno s c ≡ false)
    → Once s
    → Once t
miss-Once dev blockno b x s t o e q none_has old = record {
  listed = λ c h. ground (arith, o.same_order, old.listed c h);
  once = λ c d hc hd ne ed eb. elim (Bool-cases (b == c)) [
    | inl here ↦
        let at : b ≡ c = ground arith in
        sym at
        ∙ other-dev dev blockno b d x s t o e q (none_has d (old.listed d hd))
            (ap (λ (z : ℕ). (t.buf z).dev) at ∙ ed) (ap (λ (z : ℕ). (t.buf z).blockno) at ∙ eb)
    | inr there ↦ elim (Bool-cases (b == d)) [
      | inl here' ↦
          let at : b ≡ d = ground arith in
          sym (
            other-dev dev blockno b c x s t o e q (none_has c (old.listed c hc))
              (ap (λ (z : ℕ). (t.buf z).dev) at ∙ sym ed)
              (ap (λ (z : ℕ). (t.buf z).blockno) at ∙ sym eb))
          ∙ at
      | inr there' ↦
          let oc : t.buf c ≡ s.buf c = o.elsewhere c (λ z. ground arith) in
          let od : t.buf d ≡ s.buf d = o.elsewhere d (λ z. ground arith) in
          let dc = ap (λ (y : Buf). y.dev) oc in
          let dd = ap (λ (y : Buf). y.dev) od in
          let bc = ap (λ (y : Buf). y.blockno) oc in
          let bd = ap (λ (y : Buf). y.blockno) od in
          old.once c d hc hd (λ z. ne (dc ∙ z)) (sym dc ∙ ed ∙ dd) (sym bc ∙ eb ∙ bd)
    ]
  ];
}

read-Once : (dev blockno b : ℕ) (s t : Bcache) → bread dev blockno s ≡ done (b, t) → Once s → Once t
read-Once dev blockno b s t e old = elim (bread-Fetched dev blockno s) [
  | hit c u out listed at_dev at_block o ↦
      let same : u ≡ t = ground (arith, e, out) in
      subst (λ (r : Bcache). Once r) same (SameBlocks-Once (hit-SameBlocks c _ s u o refl refl) old)
  | miss c u out none_has free last o ↦
      let same : u ≡ t = ground (arith, e, out) in
      subst (λ (r : Bcache). Once r) same (miss-Once dev blockno c _ s u o refl refl none_has old)
  | no_buffer none_has none_free out ↦ absurd (ground (arith, e, out))
]

Step-Once : {s t : Bcache} → Step s t → Once s → Once t
Step-Once {s} (reads dev blockno b t ne e) o = read-Once dev blockno b s t e o
Step-Once {s} (writes holding b t e) o = SameBlocks-Once (write_back-SameBlocks holding b s t e) o
Step-Once {s} (releases holding b t e) o = SameBlocks-Once (brelse-SameBlocks holding b s t e) o
Step-Once {s} (pins b) o = SameBlocks-Once (set_buf-SameBlocks s b _ refl refl) o
Step-Once {s} (unpins b) o = SameBlocks-Once (set_buf-SameBlocks s b _ refl refl) o
Step-Once {s} (modifies b bytes) o = SameBlocks-Once (set_buf-SameBlocks s b _ refl refl) o

binit-Once : (s : Bcache) → ((b : ℕ) → (s.buf b).dev ≡ 0) → Once (binit s)
unfolding binit
binit-Once s z = record {
  listed = λ b h. insert_all-stands_in nbuf b h;
  once = λ b c hb hc ne e q. absurd (ne (z b));
}

-- Start with `binit` on buffers of device 0. After any calls, each by a client that reads blocks of
-- devices other than 0, every buffer still stands in the list and no two buffers have the same
-- block of a device other than 0.
pub one_buffer_each : (s t : Bcache) → ((b : ℕ) → (s.buf b).dev ≡ 0) → Reach (binit s) t → Once t
one_buffer_each s t z start = binit-Once s z
one_buffer_each s t z (next r st) = Step-Once st (one_buffer_each s _ z r)
