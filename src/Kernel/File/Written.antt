-- ===== src/Kernel/File/Written.antt =====
-- What `filewrite` puts into a file, over an inode layer that writes bytes.
use xv6_tp.Base.{
  ℕ, zero, suc, ◌+◌, ◌-◌, ◌%◌, ◌^◌, ◌≡◌, ◌≤◌, ◌<◌, ◌⊎◌, true, false, ◌&&◌, some, Bool-cases, inl,
  inr, ◌==◌, ltb, leb, lt→ltb, if◌then◌else◌, arith, refl, ap, ◌∙◌, ℤ, pos, negsuc,
}
use xv6_tp.Base.Run.{Run, done, ◌>>=◌}
use xv6_tp.Kernel.File.{File, fd_inode}
use xv6_tp.Kernel.File.Transfer.{
  Backend, advance, chunk_size, write_chunk, write_loop, write_answer, filewrite,
}

-- A step that leaves the bytes of every file alone.
abbrev Keeps {ℓ} : {W : Type ℓ} → (W → ℕ → ℕ → ℕ) → (W → W) → Type ℓ
Keeps {W = W} bytes f = (w : W) (j o : ℕ) → bytes (f w) j o ≡ bytes w j o

-- The bytes of the files once `m` bytes of memory from `addr` are in file `ip` at `off`.
abbrev pub patched : (ℕ → ℕ) → (ip addr off m : ℕ) → (ℕ → ℕ → ℕ) → ℕ → ℕ → ℕ
patched src ip addr off m old j o =
    if (j == ip) && leb off o && ltb o (off + m) then src (addr + (o - off)) else old j o

-- What the inode layer promises: `bytes w j o` is byte `o` of file `j`, and `src` is the caller's
-- memory. `writei` answers a number of bytes that it wrote, at most `n`, or fails and writes none.
pub record WriteLaws {ℓ} {W : Type ℓ} (b : Backend W) (src : ℕ → ℕ) (bytes : W → ℕ → ℕ → ℕ)
    : Type ℓ where
  pub begins : Keeps bytes b.begin_op
  pub ends : Keeps bytes b.end_op
  pub locks : (ip : ℕ) → Keeps bytes (b.ilock ip)
  pub unlocks : (ip : ℕ) → Keeps bytes (b.iunlock ip)
  pub at_most : (ip addr off n : ℕ) (w : W) (k : ℕ) → (b.writei ip addr off n w).0 ≡ pos k → k ≤ n
  pub writes :
      (ip addr off n : ℕ) (w : W) (k : ℕ)
      → (b.writei ip addr off n w).0 ≡ pos k
      → (j o : ℕ) → bytes (b.writei ip addr off n w).1 j o ≡ patched src ip addr off k (bytes w) j o
  pub fails :
      (ip addr off n : ℕ) (w : W) (k : ℕ)
      → (b.writei ip addr off n w).0 ≡ negsuc k
      → (j o : ℕ) → bytes (b.writei ip addr off n w).1 j o ≡ bytes w j o

patched-same :
    (src : ℕ → ℕ) (ip : ℕ) {addr addr' : ℕ} (off k : ℕ) (old old' : ℕ → ℕ → ℕ) (j o : ℕ)
    → addr ≡ addr'
    → old j o ≡ old' j o
    → patched src ip addr off k old j o ≡ patched src ip addr' off k old' j o
patched-same src ip off k old old' j o e q = cc

-- Two patches in a row.
pub patched-patched :
    (src : ℕ → ℕ) (ip addr off k m : ℕ) (old mid : ℕ → ℕ → ℕ) (j o : ℕ)
    → mid j o ≡ patched src ip addr off k old j o
    → patched src ip (addr + k) (off + k) m mid j o ≡ patched src ip addr off (k + m) old j o
patched-patched src ip addr off k m old mid j o e = elim (Bool-cases (leb (off + k) o)) [
  | inl hi ↦
      let at : addr + k + (o - (off + k)) ≡ addr + (o - off) = ground arith in ground (arith, e, at)
  | inr lo ↦ ground (arith, e)
]

ℤ-cases : (r : ℤ) → ((k : ℕ) × (r ≡ pos k)) ⊎ ((k : ℕ) × (r ≡ negsuc k))
ℤ-cases (pos k) = inl (k, refl)
ℤ-cases (negsuc k) = inr (k, refl)

chunk_size_bounds : (n i : ℕ) → i < n → (0 < chunk_size n i) × (i + chunk_size n i ≤ n)
chunk_size_bounds n i h = (ground arith, ground arith)

advance_fits : (k off : ℕ) → off + k < 2 ^ 32 → advance (pos k) off ≡ off + k
advance_fits k off h = ground arith

module _ {ℓ} {W : Type ℓ} (b : Backend W) (src : ℕ → ℕ) (bytes : W → ℕ → ℕ → ℕ) where
  -- What a write of `n` bytes to an inode's file comes to.
  pub record Stored (addr n ip : ℕ) (f : File) (w : W) : Type ℓ where
    pub m : ℕ
    pub state : W
    pub at_most_n : m ≤ n
    pub answer :
        filewrite b addr (pos n) f w
        ≡ done (if m == n then pos n else negsuc 0, record f { off = f.off + m }, state)
    pub content : (j o : ℕ) → bytes state j o ≡ patched src ip addr f.off m (bytes w) j o

module _ {ℓ} {W : Type ℓ} (b : Backend W) (src : ℕ → ℕ) (bytes : W → ℕ → ℕ → ℕ)
    (laws : WriteLaws b src bytes) where
  -- One transaction.
  chunk-writes :
      (ip addr i off n1 : ℕ) (w : W) (k : ℕ)
      → (write_chunk b ip addr i off n1 w).0 ≡ pos k
      → addr + i < 2 ^ 64
      → (k ≤ n1)
        × ((j o : ℕ)
            → bytes (write_chunk b ip addr i off n1 w).1 j o
              ≡ patched src ip (addr + i) off k (bytes w) j o)
  unfolding write_chunk
  chunk-writes ip addr i off n1 w k e lt =
      let u = b.ilock ip (b.begin_op w) in
      let a : (addr + i) % 2 ^ 64 ≡ addr + i = omega arith in
      let v = (b.writei ip ((addr + i) % 2 ^ 64) off n1 u).1 in
      (
        laws.at_most ip ((addr + i) % 2 ^ 64) off n1 u k e,
        λ j o.
            let out : bytes (b.end_op (b.iunlock ip v)) j o ≡ bytes v j o =
              laws.ends (b.iunlock ip v) j o ∙ laws.unlocks ip v j o in
            let mid : bytes u j o ≡ bytes w j o =
              laws.locks ip (b.begin_op w) j o ∙ laws.begins w j o in
            let wr = laws.writes ip ((addr + i) % 2 ^ 64) off n1 u k e j o in
            out ∙ wr ∙ patched-same src ip off k (bytes u) (bytes w) j o a mid,
      )

  chunk-fails :
      (ip addr i off n1 : ℕ) (w : W) (k : ℕ)
      → (write_chunk b ip addr i off n1 w).0 ≡ negsuc k
      → (j o : ℕ) → bytes (write_chunk b ip addr i off n1 w).1 j o ≡ bytes w j o
  unfolding write_chunk
  chunk-fails ip addr i off n1 w k e j o =
      let u = b.ilock ip (b.begin_op w) in
      let v = (b.writei ip ((addr + i) % 2 ^ 64) off n1 u).1 in
      laws.ends (b.iunlock ip v) j o
      ∙ laws.unlocks ip v j o
      ∙ laws.fails ip ((addr + i) % 2 ^ 64) off n1 u k e j o
      ∙ laws.locks ip (b.begin_op w) j o
      ∙ laws.begins w j o

  record Wrote (ip addr off n : ℕ) (old : W) (i : ℕ) (out : Run (ℕ × ℕ × W)) : Type ℓ where
    m : ℕ
    stop : ℕ
    state : W
    answer : out ≡ done (stop, off + m, state)
    ended : ((stop ≡ n) × (i + m ≡ n)) ⊎ ((stop < n) × (i + m < n))
    content : (j o : ℕ) → bytes state j o ≡ patched src ip (addr + i) off m (bytes old) j o

  loop-stops :
      (ip addr n fuel i off : ℕ) (w : W) (k : ℕ)
      → i < n
      → (write_chunk b ip addr i off (chunk_size n i) w).0 ≡ pos k
      → (k == chunk_size n i) ≡ false
      → write_loop b ip addr n (suc fuel) i off w
        ≡ done (i, advance (pos k) off, (write_chunk b ip addr i off (chunk_size n i) w).1)
  unfolding write_loop
  loop-stops ip addr n fuel i off w k h e short =
      let more = lt→ltb i n h in rw (more, e, short) refl

  loop-fails :
      (ip addr n fuel i off : ℕ) (w : W) (k : ℕ)
      → i < n
      → (write_chunk b ip addr i off (chunk_size n i) w).0 ≡ negsuc k
      → write_loop b ip addr n (suc fuel) i off w
        ≡ done (i, off, (write_chunk b ip addr i off (chunk_size n i) w).1)
  unfolding write_loop
  loop-fails ip addr n fuel i off w k h e = ground arith

  loop-goes_on :
      (ip addr n fuel i off : ℕ) (w : W)
      → i < n
      → (write_chunk b ip addr i off (chunk_size n i) w).0 ≡ pos (chunk_size n i)
      → write_loop b ip addr n (suc fuel) i off w
        ≡ write_loop b ip addr n fuel
            (i + chunk_size n i)
            (advance (pos (chunk_size n i)) off)
            (write_chunk b ip addr i off (chunk_size n i) w).1
  unfolding write_loop
  loop-goes_on ip addr n fuel i off w h e = ground arith

  at_offset :
      (i : ℕ) {off off' : ℕ} (w : W)
      → off ≡ off'
      → ◌≡◌ {A = Run (ℕ × ℕ × W)} (done (i, off, w)) (done (i, off', w))
  at_offset i w e = ap (λ (o : ℕ). done (i, o, w)) e

  loop-Wrote :
      (ip addr n fuel i off : ℕ) (w : W)
      → i ≤ n
      → n ≤ i + fuel
      → addr + n < 2 ^ 64
      → off + (n - i) < 2 ^ 32
      → Wrote ip addr off n w i (write_loop b ip addr n fuel i off w)
  unfolding write_loop
  loop-Wrote ip addr n zero i off w le enough fits_a fits_o = record {
    m = 0;
    stop = i;
    state = w;
    answer = ground arith;
    ended = inl (ground arith, ground arith);
    content = λ j o. ground arith;
  }
  loop-Wrote ip addr n (suc fuel) i off w le enough fits_a fits_o = elim (Bool-cases (ltb i n)) [
    | inr end ↦ record {
      m = 0;
      stop = i;
      state = w;
      answer = ground arith;
      ended = inl (ground arith, ground arith);
      content = λ j o. ground arith;
    }
    | inl more ↦
        let n1 : ℕ = chunk_size n i in
        let h : i < n = ground arith in
        let (n1_pos, n1_le) = chunk_size_bounds n i h in
        let v : W = (write_chunk b ip addr i off n1 w).1 in
        elim (ℤ-cases (write_chunk b ip addr i off n1 w).0) [
          | inr (k, e) ↦ record {
            m = 0;
            stop = i;
            state = v;
            answer = loop-fails ip addr n fuel i off w k h e ∙ at_offset i v (omega arith);
            ended = inr (h, ground arith);
            content = λ j o. chunk-fails ip addr i off n1 w k e j o ∙ ground arith;
          }
          | inl (k, e) ↦
              let (k_le, put) = chunk-writes ip addr i off n1 w k e (omega arith) in
              elim (Bool-cases (k == n1)) [
                | inr short ↦ record {
                  m = k;
                  stop = i;
                  state = v;
                  answer =
                      loop-stops ip addr n fuel i off w k h e short
                      ∙ at_offset i v (advance_fits k off (omega arith));
                  ended = inr (h, ground arith);
                  content = put;
                }
                | inl whole ↦
                    let all : k ≡ n1 = ground arith in
                    let e' : (write_chunk b ip addr i off n1 w).0 ≡ pos n1 = e ∙ ap pos all in
                    let r =
                      loop-Wrote ip addr n fuel (i + n1) (off + n1) v n1_le (omega arith) fits_a
                        (omega arith) in
                    let next_off = advance_fits n1 off (omega arith) in
                    let to_rest =
                      ap (λ (o : ℕ). write_loop b ip addr n fuel (i + n1) o v) next_off in
                    record {
                      m = n1 + r.m;
                      stop = r.stop;
                      state = r.state;
                      answer =
                          loop-goes_on ip addr n fuel i off w h e'
                          ∙ to_rest
                          ∙ r.answer
                          ∙ at_offset r.stop r.state (omega arith);
                      ended = elim r.ended [
                        | inl (x, y) ↦ inl (x, omega arith)
                        | inr (x, y) ↦ inr (x, omega arith)
                      ];
                      content = λ j o.
                          r.content j o
                          ∙ patched-same src ip (off + n1) r.m (bytes v) (bytes v) j o (omega arith)
                              refl
                          ∙ patched-patched src ip (addr + i) off n1 r.m (bytes w) (bytes v) j o (
                              put j o
                              ∙ ap (λ (z : ℕ). patched src ip (addr + i) off z (bytes w) j o) all);
                    }
              ]
        ]
  ]

  -- A write of `n` bytes to a writable file of an inode, over an inode layer whose `writei` writes
  -- the bytes that it says and no others, ends. It
  -- puts some `m` bytes of the caller's memory, in order, at the file's offset and moves the offset
  -- on by `m`; no other byte of any file changes; the answer is `n` if `m` is `n` and -1 otherwise.
  -- The range of memory and the range of the file must not wrap around.
  pub filewrite-Stored :
      (addr n ip : ℕ) (f : File) (w : W)
      → f.writable ≡ true
      → f.type ≡ fd_inode
      → f.ip ≡ some ip
      → addr + n < 2 ^ 64
      → f.off + n < 2 ^ 32
      → Stored b src bytes addr n ip f w
  unfolding filewrite
  filewrite-Stored addr n ip f w wr ty at fits_a fits_o =
      let r = loop-Wrote ip addr n n 0 f.off w (omega arith) (omega arith) fits_a (omega arith) in
      let opened : filewrite b addr (pos n) f w
          ≡ (write_loop b ip addr n n 0 f.off w >>= write_answer b n f) =
        simp (wr, ty, at, filewrite) in
      let answered : (if r.stop == n then pos n else negsuc 0)
          ≡ (if r.m == n then pos n else negsuc 0) =
        elim r.ended [ inl (x, y) ↦ ground (arith, x, y) | inr (x, y) ↦ ground (arith, x, y) ] in
      let ran = ap (λ (l : Run (ℕ × ℕ × W)). l >>= write_answer b n f) r.answer in
      let told = ap (λ (z : ℤ). done (z, record f { off = f.off + r.m }, r.state)) answered in
      record {
        m = r.m;
        state = r.state;
        at_most_n = elim r.ended [ inl (x, y) ↦ omega arith | inr (x, y) ↦ omega arith ];
        answer = opened ∙ ran ∙ told;
        content = λ j o.
            r.content j o
            ∙ patched-same src ip f.off r.m (bytes w) (bytes w) j o (omega arith) refl;
      }
