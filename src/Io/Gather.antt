-- ===== src/Io/Gather.antt =====
-- `xwritev` over a system that takes all that it is offered.
use mathlib.Core.List.{append_assoc, append-nil}
use tlpi_exercises.Base.{
  ℕ, zero, suc, ◌+◌, ◌-◌, ◌≡◌, refl, ◌∙◌, sym, ap, true, false, some, List, [], ◌∷◌, ◌++◌, arith,
  ltb, length, take, take-all,
}
use tlpi_exercises.Io.{
  Descriptors, IsPosix, Memory, peek, Iovec, writep_loop, writep, writev_loop, xwritev,
}

-- the bytes of the buffers, one after the other
unfoldable pub gather : Memory → List Iovec → List ℕ
gather m [] = []
gather m (v ∷ iov) = peek m v.iov_base v.iov_len ++ gather m iov

unfoldable pub room : List Iovec → ℕ
room [] = 0
room (v ∷ iov) = v.iov_len + room iov

-- no short writes, as on a regular file with space left
abbrev pub TakesAll : Descriptors → Type 0
TakesAll d = (o : d.Os) (fd : ℕ) (bs : List ℕ) → (d.write o fd bs).0 ≡ some (length bs)

pub length-peek : (m : Memory) (a n : ℕ) → length (peek m a n) ≡ n
unfolding peek
length-peek m a zero = refl
length-peek m a (suc n) = ap suc (length-peek m (a + 1) n)

module _ (d : Descriptors) (law : IsPosix d) (all : TakesAll d) (fd k : ℕ) where
  writep_whole :
      (buf : List ℕ) (n : ℕ) (o : d.Os)
      → length buf ≡ n
      → (o' : d.Os) × (writep d (suc (suc k)) fd buf n o ≡ some (some n, o'))
        × (d.written o' fd ≡ d.written o fd ++ buf)
  unfolding writep writep_loop
  writep_whole [] n o e =
      let z : n ≡ 0 = omega arith in (o, ground arith, sym (append-nil (d.written o fd)))
  writep_whole (b ∷ buf) n o e =
      let t : take (n - 0) (b ∷ buf) ≡ b ∷ buf = take-all (n - 0) (b ∷ buf) (omega arith) in
      let w = d.write o fd (take (n - 0) (b ∷ buf)) in
      let a : w.0 ≡ some n = rw t (all o fd (b ∷ buf) ∙ ap some e) in
      let (_, _, wr) = law.write_some o fd (take (n - 0) (b ∷ buf)) n a in
      let one : ltb 0 n ≡ true = ground arith in
      let z : 0 + n ≡ n = omega arith in
      let two : ltb (0 + n) n ≡ false = ground arith in
      (
        w.1,
        rw (one, a, two, z),
        wr
            ∙ ap (λ (x : List ℕ). d.written o fd ++ x)
                (take-all n (take (n - 0) (b ∷ buf)) (rw t (omega arith)) ∙ t),
      )

  writev_loop-gather :
      (m : Memory) (iov : List Iovec) (t : ℕ) (o : d.Os)
      → (o' : d.Os) × (writev_loop d (suc (suc k)) fd m iov t o ≡ some (some (t + room iov), o'))
        × (d.written o' fd ≡ d.written o fd ++ gather m iov)
  unfolding writev_loop gather room
  writev_loop-gather m [] t o = (o, ground arith, sym (append-nil (d.written o fd)))
  writev_loop-gather m (v ∷ iov) t o =
      let (o1, e, w) =
        writep_whole (peek m v.iov_base v.iov_len) v.iov_len o
          (length-peek m v.iov_base v.iov_len) in
      let (o2, e', w') = writev_loop-gather m iov (t + v.iov_len) o1 in
      (
        o2,
        rw (e, writev_loop) (e' ∙ ground arith),
        w'
            ∙ ap (λ (x : List ℕ). x ++ gather m iov) w
            ∙ append_assoc (d.written o fd) (peek m v.iov_base v.iov_len) (gather m iov),
      )

  -- Over a system that takes all that it is offered, `xwritev` returns the sum of the lengths, and
  -- has sent the bytes of the buffers in order.
  pub xwritev-gather :
      (m : Memory) (iov : List Iovec) (o : d.Os)
      → (o' : d.Os) × (xwritev d (suc (suc k)) fd m iov o ≡ some (some (room iov), o'))
        × (d.written o' fd ≡ d.written o fd ++ gather m iov)
  unfolding xwritev
  xwritev-gather m iov o =
      let (o', e, w) = writev_loop-gather m iov 0 o in (o', e ∙ ground arith, w)
