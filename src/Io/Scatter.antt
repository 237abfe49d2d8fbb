-- ===== src/Io/Scatter.antt =====
-- `xreadv` over a system that delivers all that is there.
use mathlib.Core.Path.{ap₂}
use mathlib.Core.List.{append_assoc}
use tlpi_exercises.Base.{
  ℕ, zero, suc, ◌+◌, ◌-◌, ◌≤◌, ◌<◌, ◌≡◌, refl, ◌∙◌, sym, ap, ◌⊎◌, inl, inr, true, false, some, List,
  [], ◌∷◌, ◌++◌, arith, ◌==◌, if◌then◌else◌, length, min, All, length-append,
}
use tlpi_exercises.Io.{Descriptors, IsPosix, Memory, peek, poke, Iovec, fill, readv_loop, xreadv}
use tlpi_exercises.Io.Gather.{gather, room}

pub poke-outside :
    (m : Memory) (a : ℕ) (bs : List ℕ) (x : ℕ) → (x < a) ⊎ (a + length bs ≤ x) → poke m a bs x ≡ m x
unfolding poke
poke-outside m a [] x out = refl
poke-outside m a (b ∷ bs) x (inl lt) =
    poke-outside (λ y. if y == a then b else m y) (a + 1) bs x (inl (omega arith)) ∙ ground arith
poke-outside m a (b ∷ bs) x (inr ge) =
    poke-outside (λ y. if y == a then b else m y) (a + 1) bs x (inr (omega arith)) ∙ ground arith

pub peek-poke :
    (m : Memory) (a : ℕ) (bs : List ℕ) (n : ℕ) → length bs ≡ n → peek (poke m a bs) a n ≡ bs
unfolding peek poke
peek-poke m a [] zero e = refl
peek-poke m a [] (suc n) e = absurd (omega arith)
peek-poke m a (b ∷ bs) zero e = absurd (omega arith)
peek-poke m a (b ∷ bs) (suc n) e =
    let m1 : Memory = λ y. if y == a then b else m y in
    ap₂ ◌∷◌ (poke-outside m1 (a + 1) bs a (inl (omega arith)) ∙ ground arith)
      (peek-poke m1 (a + 1) bs n (omega arith))

peek-frame :
    (m m' : Memory) (a n : ℕ)
    → ((x : ℕ) → a ≤ x → x < a + n → m' x ≡ m x)
    → peek m' a n ≡ peek m a n
unfolding peek
peek-frame m m' a zero same = refl
peek-frame m m' a (suc n) same =
    ap₂ ◌∷◌ (same a (omega arith) (omega arith))
      (peek-frame m m' (a + 1) n λ x l h. same x (omega arith) (omega arith))

-- the buffers do not overlap
abbrev pub Clear : Iovec → Iovec → Type 0
Clear v w = (v.iov_base + v.iov_len ≤ w.iov_base) ⊎ (w.iov_base + w.iov_len ≤ v.iov_base)

abbrev pub Apart : List Iovec → Type 0
Apart [] = Unit
Apart (v ∷ iov) = All (Clear v) iov × Apart iov

abbrev pub Outside : List Iovec → ℕ → Type 0
Outside iov x = All (λ v. (x < v.iov_base) ⊎ (v.iov_base + v.iov_len ≤ x)) iov

Clear-Outside :
    (v : Iovec) (iov : List Iovec) (x : ℕ)
    → All (Clear v) iov
    → v.iov_base ≤ x
    → x < v.iov_base + v.iov_len
    → Outside iov x
Clear-Outside v [] x c l h = tt
Clear-Outside v (w ∷ iov) x c l h = (
  elim (c.0) [ inl p ↦ inl (omega arith) | inr p ↦ inr (omega arith) ],
  Clear-Outside v iov x c.1 l h,
)

-- no short reads, as on a regular file
abbrev pub GivesAll : Descriptors → Type 0
GivesAll d =
    (o : d.Os) (fd n : ℕ)
    → (bs : List ℕ) × ((d.read o fd n).0 ≡ some bs) × (length bs ≡ min n (length (d.input o fd)))

module _ (d : Descriptors) (law : IsPosix d) (all : GivesAll d) (fd k : ℕ) where
  fill_whole :
      (base n t : ℕ) (m : Memory) (o : d.Os)
      → 0 < n
      → n ≤ length (d.input o fd)
      → (bs : List ℕ) × (o' : d.Os) × (fill d (suc k) fd base 0 n t m o
          ≡ some
              (record { num_read = some n; total_read = t + n; memory = poke m base bs; os = o' }))
        × (length bs ≡ n)
        × (d.input o fd ≡ bs ++ d.input o' fd)
  unfolding fill
  fill_whole base n t m o pos enough =
      let (bs, e, len) = all o fd n in
      let (_, split, _) = law.read_some o fd n bs e in
      let ln : length bs ≡ n = omega arith in
      let z : (n == 0) ≡ false = ground arith in
      let y : (n - n == 0) ≡ true = ground arith in
      let b : base + 0 ≡ base = omega arith in
      (bs, (d.read o fd n).1, rw (e, fill, ln, z, y, b), ln, split)

  readv_loop-next :
      (v : Iovec) (iov : List Iovec) (t t' n : ℕ) (m m' : Memory) (o o' : d.Os)
      → fill d (suc k) fd v.iov_base 0 v.iov_len t m o
        ≡ some (record { num_read = some n; total_read = t'; memory = m'; os = o' })
      → 0 < n
      → readv_loop d (suc k) fd (v ∷ iov) t m o ≡ readv_loop d (suc k) fd iov t' m' o'
  unfolding readv_loop
  readv_loop-next v iov t t' zero m m' o o' e pos = absurd (omega arith)
  readv_loop-next v iov t t' (suc n) m m' o o' e pos = rw (e, readv_loop)

  readv_loop-scatter :
      (iov : List Iovec) (t : ℕ) (m : Memory) (o : d.Os)
      → Apart iov
      → All (λ v. 0 < v.iov_len) iov
      → room iov ≤ length (d.input o fd)
      → (m' : Memory) × (o' : d.Os) × (readv_loop d (suc k) fd iov t m o
          ≡ some (some (t + room iov), m', o'))
        × (d.input o fd ≡ gather m' iov ++ d.input o' fd)
        × ((x : ℕ) → Outside iov x → m' x ≡ m x)
  unfolding readv_loop gather room
  readv_loop-scatter [] t m o apart pos enough = (m, o, ground arith, refl, λ x out. refl)
  readv_loop-scatter (v ∷ iov) t m o apart pos enough =
      let (bs, o1, e, len, split) = fill_whole v.iov_base v.iov_len t m o pos.0 (omega arith) in
      let m1 = poke m v.iov_base bs in
      let left : room iov ≤ length (d.input o1 fd) =
        omega (arith, ap (λ (l : List ℕ). length l) split, length-append bs (d.input o1 fd)) in
      let (m', o', e', split', same) =
        readv_loop-scatter iov (t + v.iov_len) m1 o1 apart.1 pos.1 left in
      let kept : peek m' v.iov_base v.iov_len ≡ bs =
        peek-frame m1 m' v.iov_base v.iov_len (λ x l h. same x (Clear-Outside v iov x apart.0 l h))
        ∙ peek-poke m v.iov_base bs v.iov_len len in
      (
        m',
        o',
        readv_loop-next v iov t (t + v.iov_len) v.iov_len m m1 o o1 e pos.0 ∙ e' ∙ ground arith,
        split
            ∙ ap (λ (l : List ℕ). bs ++ l) split'
            ∙ sym (append_assoc bs (gather m' iov) (d.input o' fd))
            ∙ ap (λ (l : List ℕ). (l ++ gather m' iov) ++ d.input o' fd) (sym kept),
        λ x out.
            same x out.1
            ∙ poke-outside m v.iov_base bs x
                (elim (out.0) [ inl p ↦ inl p | inr p ↦ inr (omega arith) ]),
      )

  -- Over a system that delivers all that is there, into buffers that are not empty and do not
  -- overlap and that the input can fill, `xreadv` returns the sum of their lengths; they then hold,
  -- in order, the bytes taken from the input, and no other byte of memory has changed.
  pub xreadv-scatter :
      (iov : List Iovec) (m : Memory) (o : d.Os)
      → Apart iov
      → All (λ v. 0 < v.iov_len) iov
      → room iov ≤ length (d.input o fd)
      → (m' : Memory) × (o' : d.Os) × (xreadv d (suc k) fd iov m o ≡ some (some (room iov), m', o'))
        × (d.input o fd ≡ gather m' iov ++ d.input o' fd)
        × ((x : ℕ) → Outside iov x → m' x ≡ m x)
  unfolding xreadv
  xreadv-scatter iov m o apart pos enough =
      let (m', o', e, i, same) = readv_loop-scatter iov 0 m o apart pos enough in
      (m', o', e ∙ ground arith, i, same)
