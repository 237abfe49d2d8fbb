-- ===== src/Io/Short.antt =====
-- `xreadv` where one buffer takes three reads.
use tlpi_exercises.Base.{
  ℕ, zero, suc, ◌+◌, ◌-◌, ◌<◌, ◌≡◌, ◌∙◌, ap, inr, true, false, some, List, [], ◌∷◌, arith, ◌==◌,
  length,
}
use tlpi_exercises.Io.{Descriptors, Memory, poke, fill, readv_loop, xreadv}
use tlpi_exercises.Io.Scatter.{poke-outside}

module _ (d : Descriptors) (fd base : ℕ) where
  fill-more :
      (k off count t : ℕ) (m : Memory) (o : d.Os) (bs : List ℕ)
      → (d.read o fd count).0 ≡ some bs
      → 0 < length bs
      → length bs < count
      → fill d (suc k) fd base off count t m o
        ≡ fill d k fd base
            (length bs)
            (count - length bs)
            (t + length bs)
            (poke m (base + off) bs)
            (d.read o fd count).1
  unfolding fill
  fill-more k off count t m o bs e pos lt =
      let z : (length bs == 0) ≡ false = ground arith in
      let y : (count - length bs == 0) ≡ false = ground arith in rw (e, fill, z, y)

  fill-last :
      (k off count t : ℕ) (m : Memory) (o : d.Os) (bs : List ℕ)
      → (d.read o fd count).0 ≡ some bs
      → 0 < length bs
      → length bs ≡ count
      → fill d (suc k) fd base off count t m o
        ≡ some (record {
          num_read = some (length bs);
          total_read = t + length bs;
          memory = poke m (base + off) bs;
          os = (d.read o fd count).1;
        })
  unfolding fill
  fill-last k off count t m o bs e pos eq =
      let z : (length bs == 0) ≡ false = ground arith in
      let y : (count - length bs == 0) ≡ true = ground arith in rw (e, fill, z, y)

  readv_loop-one :
      (k n t c : ℕ) (m m' : Memory) (o o' : d.Os)
      → fill d k fd base 0 n 0 m o
        ≡ some (record { num_read = some c; total_read = t; memory = m'; os = o' })
      → xreadv d k fd (record { iov_base = base; iov_len = n } ∷ []) m o ≡ some (some t, m', o')
  unfolding xreadv readv_loop
  readv_loop-one k n t zero m m' o o' e = rw (e, readv_loop)
  readv_loop-one k n t (suc c) m m' o o' e = rw (e, readv_loop)

  -- Where the bytes of one buffer of `n` bytes come in three reads of `p`, `q` and `r`, none of
  -- them empty, `xreadv` returns `n`, but it stores the third behind the length of the second and not
  -- behind both: memory has the first at the start of the buffer, the second behind it, and then the
  -- third as many bytes from the start as the second has. The last byte of the buffer is what it was.
  pub xreadv-three_reads :
      (k n : ℕ) (m : Memory) (o : d.Os) (p q r : List ℕ)
      → let o1 = (d.read o fd n).1 in
        let o2 = (d.read o1 fd (n - length p)).1 in
        0 < length p
        → 0 < length q
        → 0 < length r
        → length p + length q + length r ≡ n
        → (d.read o fd n).0 ≡ some p
        → (d.read o1 fd (n - length p)).0 ≡ some q
        → (d.read o2 fd (n - length p - length q)).0 ≡ some r
        → (m' : Memory) × (o' : d.Os) × (xreadv d
              (suc (suc (suc k)))
              fd
              (record { iov_base = base; iov_len = n } ∷ [])
              m
              o
            ≡ some (some n, m', o'))
          × (m' ≡ poke (poke (poke m base p) (base + length p) q) (base + length q) r)
          × (m' (base + n - 1) ≡ m (base + n - 1))
  xreadv-three_reads k n m o p q r pp pq pr sum e1 e2 e3 =
      let o1 = (d.read o fd n).1 in
      let o2 = (d.read o1 fd (n - length p)).1 in
      let m1 = poke m (base + 0) p in
      let m2 = poke m1 (base + length p) q in
      let m3 = poke m2 (base + length q) r in
      let full : 0 + length p + length q + length r ≡ n = omega arith in
      let start : base + 0 ≡ base = omega arith in
      let x = base + n - 1 in
      (
        m3,
        (d.read o2 fd (n - length p - length q)).1,
        readv_loop-one (suc (suc (suc k))) n n (length r) m m3 o _ (
            fill-more (suc (suc k)) 0 n 0 m o p e1 pp (omega arith)
            ∙ fill-more (suc k) (length p) (n - length p) (0 + length p) m1 o1 q e2 pq (omega arith)
            ∙ fill-last k (length q) (n - length p - length q) (0 + length p + length q) m2 o2 r e3
                pr (omega arith)
            ∙ ap
                (λ (t : ℕ). some (record {
                  num_read = some (length r);
                  total_read = t;
                  memory = m3;
                  os = (d.read o2 fd (n - length p - length q)).1;
                }))
                full),
        ap (λ (a : ℕ). poke (poke (poke m a p) (base + length p) q) (base + length q) r) start,
        poke-outside m2 (base + length q) r x (inr (omega arith))
            ∙ poke-outside m1 (base + length p) q x (inr (omega arith))
            ∙ poke-outside m (base + 0) p x (inr (omega arith)),
      )
