-- ===== src/Io.antt =====
-- tlpi-solutions/mylib/mylib.c (`writep`) and tlpi-solutions/ex05-7/rwv.c (`xreadv`, `xwritev`).
-- `read` and `write` are the system's: a `Descriptors` stands for them, with what has been written
-- to and what is left to read from each descriptor. Memory is a function from addresses to bytes.
-- Sizes stay below 2 ^ 63, so that `ssize_t` holds them.
pub mod Gather
pub mod Persist
pub mod Scatter
pub mod Short
use tlpi_exercises.Base.{
  ℕ, zero, suc, ◌+◌, ◌-◌, ◌≤◌, ◌<◌, ◌≡◌, ◌⊎◌, Bool, Option, none, some, List, [], ◌∷◌, ◌++◌, ltb,
  ◌==◌, if◌then◌else◌, length, take, drop,
}

-- `none` is the return value -1.
pub record Descriptors : Type 1 where
  pub Os : Type 0
  pub written : Os → ℕ → List ℕ
  pub input : Os → ℕ → List ℕ
  pub write : Os → ℕ → List ℕ → Option ℕ × Os
  pub read : Os → ℕ → ℕ → Option (List ℕ) × Os

-- write(2) appends a prefix of the buffer, which is empty only if the buffer is. read(2) takes a
-- prefix of the input, of at most `n` bytes, which is empty only at the end of the input or if
-- no byte was asked for. A call that fails moves no bytes.
pub record IsPosix (d : Descriptors) : Type 0 where
  pub write_some :
      (o : d.Os) (fd : ℕ) (bs : List ℕ) (n : ℕ)
      → (d.write o fd bs).0 ≡ some n
      → (n ≤ length bs)
        × (0 < length bs → 0 < n)
        × (d.written (d.write o fd bs).1 fd ≡ d.written o fd ++ take n bs)
  pub write_none :
      (o : d.Os) (fd : ℕ) (bs : List ℕ)
      → (d.write o fd bs).0 ≡ none
      → d.written (d.write o fd bs).1 fd ≡ d.written o fd
  pub read_some :
      (o : d.Os) (fd n : ℕ) (bs : List ℕ)
      → (d.read o fd n).0 ≡ some bs
      → (length bs ≤ n)
        × (d.input o fd ≡ bs ++ d.input (d.read o fd n).1 fd)
        × (bs ≡ [] → (n ≡ 0) ⊎ (d.input o fd ≡ []))

abbrev pub Memory : Type 0
Memory = ℕ → ℕ

-- the bytes put at an address, and those that stand there
unfoldable pub poke : Memory → ℕ → List ℕ → Memory
poke m a [] = m
poke m a (b ∷ bs) = poke (λ x. if x == a then b else m x) (a + 1) bs

unfoldable pub peek : Memory → ℕ → ℕ → List ℕ
peek m a zero = []
peek m a (suc n) = m a ∷ peek m (a + 1) n

-- `struct iovec`
pub record Iovec : Type 0 where
  pub iov_base : ℕ
  pub iov_len : ℕ

module _ (d : Descriptors) where
  open d use {Os, read, write}

  -- Each round writes from the start of the buffer. The outer `none` is a loop that has not ended.
  unfoldable pub writep_loop : ℕ → ℕ → List ℕ → ℕ → ℕ → Os → Option (Option ℕ × Os)
  writep_loop zero fd buf count total_written o = none
  writep_loop (suc fuel) fd buf count total_written o =
      let (nr_bytes, o1) = write o fd (take (count - total_written) buf) in
      let next : Option (Option ℕ × Os) = elim nr_bytes [
        | none ↦ some (none, o1)
        | some n ↦ writep_loop fuel fd buf count (total_written + n) o1
      ] in
      if ltb total_written count then next else some (some total_written, o)

  unfoldable pub writep : ℕ → ℕ → List ℕ → ℕ → Os → Option (Option ℕ × Os)
  writep fuel fd buf count o = writep_loop fuel fd buf count 0 o

  unfoldable pub writev_loop : ℕ → ℕ → Memory → List Iovec → ℕ → Os → Option (Option ℕ × Os)
  writev_loop fuel fd m [] total_written o = some (some total_written, o)
  writev_loop fuel fd m (v ∷ iov) total_written o =
      elim (writep fuel fd (peek m v.iov_base v.iov_len) v.iov_len o) [
        | none ↦ none
        | some (none, o1) ↦ some (none, o1)
        | some (some num_written, o1) ↦ writev_loop fuel fd m iov (total_written + num_written) o1
      ]

  unfoldable pub xwritev : ℕ → ℕ → Memory → List Iovec → Os → Option (Option ℕ × Os)
  xwritev fuel fd m iov o = writev_loop fuel fd m iov 0 o

  -- What the inner loop of `xreadv` leaves: `num_read` (`none` is -1), `total_read`, the memory.
  pub record Chunk : Type 0 where
    pub num_read : Option ℕ
    pub total_read : ℕ
    pub memory : Memory
    pub os : Os

  unfoldable pub fill : ℕ → ℕ → ℕ → ℕ → ℕ → ℕ → Memory → Os → Option Chunk
  fill zero fd base num_read count total_read m o = none
  fill (suc fuel) fd base num_read count total_read m o =
      let (got, o1) = read o fd count in
      elim got [
        | none ↦ some (record { num_read = none; total_read = total_read; memory = m; os = o1 })
        | some bs ↦
            let n = length bs in
            let m1 = poke m (base + num_read) bs in
            let stop : Chunk = record {
              num_read = some n;
              total_read = total_read + n;
              memory = m1;
              os = o1;
            } in
            let next = fill fuel fd base n (count - n) (total_read + n) m1 o1 in
            if n == 0 then some stop else if count - n == 0 then some stop else next
      ]

  unfoldable pub readv_loop : ℕ → ℕ → List Iovec → ℕ → Memory → Os → Option (Option ℕ × Memory × Os)
  readv_loop fuel fd [] total_read m o = some (some total_read, m, o)
  readv_loop fuel fd (v ∷ iov) total_read m o =
      elim (fill fuel fd v.iov_base 0 v.iov_len total_read m o) [
        | none ↦ none
        | some c ↦ elim c.num_read [
          | none ↦ some (none, c.memory, c.os)
          | some zero ↦ some (some c.total_read, c.memory, c.os)
          | some (suc n) ↦ readv_loop fuel fd iov c.total_read c.memory c.os
        ]
      ]

  unfoldable pub xreadv : ℕ → ℕ → List Iovec → Memory → Os → Option (Option ℕ × Memory × Os)
  xreadv fuel fd iov m o = readv_loop fuel fd iov 0 m o
