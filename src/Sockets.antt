-- ===== src/Sockets.antt =====
-- tlpi-dist/sockets/rdwrn.c (`readn`, `writen`) and tlpi-dist/sockets/read_line.c (`readLine`).
-- `read` and `write` are the system's: a `Streams` stands for them. A call that a signal handler
-- interrupts fails with EINTR. Sizes stay below 2 ^ 63, so that `ssize_t` holds them. The `errno`
-- that a call leaves is not kept.
pub mod Line
pub mod Read
pub mod Write
use tlpi_exercises.Base.{
  ℕ, zero, suc, ◌+◌, ◌-◌, ◌≤◌, ◌<◌, ◌≡◌, ◌⊎◌, Bool, ◌||◌, Option, none, some, List, [], ◌∷◌, ◌++◌,
  ltb, ◌==◌, if◌then◌else◌, length, take, drop,
}
use tlpi_exercises.Io.{Memory, poke}

-- What `write` and `read` return; -1 comes with the number of the error.
pub data Written : Type 0 where
  wrote : ℕ → Written
  write_failed : ℕ → Written

pub data Got : Type 0 where
  got : List ℕ → Got
  read_failed : ℕ → Got

abbrev pub eintr : ℕ
eintr = 4

-- '\n'
abbrev pub newline : ℕ
newline = 10

pub record Streams : Type 1 where
  pub Os : Type 0
  pub written : Os → ℕ → List ℕ
  pub input : Os → ℕ → List ℕ
  pub interrupts : Os → ℕ
  pub write : Os → ℕ → List ℕ → Written × Os
  pub read : Os → ℕ → ℕ → Got × Os

-- write(2) appends a prefix of the buffer. read(2) takes a prefix of the input, of at most `n`
-- bytes, which is empty only at the end of the input. A call that fails moves no bytes. Only
-- finitely many signals come: `interrupts` counts the calls that one will still interrupt.
pub record IsStream (d : Streams) : Type 0 where
  pub write_some :
      (o : d.Os) (fd n : ℕ) (bs : List ℕ)
      → (d.write o fd bs).0 ≡ wrote n
      → (n ≤ length bs)
        × (d.written (d.write o fd bs).1 fd ≡ d.written o fd ++ take n bs)
        × (d.interrupts (d.write o fd bs).1 ≤ d.interrupts o)
  pub write_none :
      (o : d.Os) (fd err : ℕ) (bs : List ℕ)
      → (d.write o fd bs).0 ≡ write_failed err
      → (d.written (d.write o fd bs).1 fd ≡ d.written o fd)
        × (err ≡ eintr → d.interrupts (d.write o fd bs).1 < d.interrupts o)
  pub read_some :
      (o : d.Os) (fd n : ℕ) (bs : List ℕ)
      → (d.read o fd n).0 ≡ got bs
      → (length bs ≤ n)
        × (d.input o fd ≡ bs ++ d.input (d.read o fd n).1 fd)
        × (bs ≡ [] → 0 < n → d.input o fd ≡ [])
        × (d.interrupts (d.read o fd n).1 ≤ d.interrupts o)
  pub read_none :
      (o : d.Os) (fd n err : ℕ)
      → (d.read o fd n).0 ≡ read_failed err
      → (d.input (d.read o fd n).1 fd ≡ d.input o fd)
        × (err ≡ eintr → d.interrupts (d.read o fd n).1 < d.interrupts o)

module _ (d : Streams) where
  open d use {Os, read, write}

  -- The outer `none` is a loop that has not ended, the inner one the return value -1.
  unfoldable pub writen_loop : ℕ → ℕ → List ℕ → ℕ → ℕ → Os → Option (Option ℕ × Os)
  writen_loop zero fd buf n tot o = none
  writen_loop (suc fuel) fd buf n tot o =
      let (num_written, o1) = write o fd (take (n - tot) (drop tot buf)) in
      let again = writen_loop fuel fd buf n tot o1 in
      let next : Option (Option ℕ × Os) = elim num_written [
        | wrote zero ↦ some (none, o1)
        | wrote (suc k) ↦ writen_loop fuel fd buf n (tot + suc k) o1
        | write_failed err ↦ if err == eintr then again else some (none, o1)
      ] in
      if ltb tot n then next else some (some tot, o)

  unfoldable pub writen : ℕ → ℕ → List ℕ → ℕ → Os → Option (Option ℕ × Os)
  writen fuel fd buf n o = writen_loop fuel fd buf n 0 o

  unfoldable pub readn_loop : ℕ → ℕ → ℕ → ℕ → ℕ → Memory → Os → Option (Option ℕ × Memory × Os)
  readn_loop zero fd buf n tot m o = none
  readn_loop (suc fuel) fd buf n tot m o =
      let (num_read, o1) = read o fd (n - tot) in
      let again = readn_loop fuel fd buf n tot m o1 in
      let next : Option (Option ℕ × Memory × Os) = elim num_read [
        | got [] ↦ some (some tot, m, o1)
        | got (b ∷ bs) ↦
            readn_loop fuel fd buf n (tot + length (b ∷ bs)) (poke m (buf + tot) (b ∷ bs)) o1
        | read_failed err ↦ if err == eintr then again else some (none, m, o1)
      ] in
      if ltb tot n then next else some (some tot, m, o)

  unfoldable pub readn : ℕ → ℕ → ℕ → ℕ → Memory → Os → Option (Option ℕ × Memory × Os)
  readn fuel fd buf n m o = readn_loop fuel fd buf n 0 m o

  -- `*buf = '\0'` and the return
  unfoldable pub close_line : ℕ → ℕ → Memory → Os → Option (Option ℕ × Memory × Os)
  close_line buf tot m o = some (some tot, poke m (buf + tot) (0 ∷ []), o)

  unfoldable pub line_loop : ℕ → ℕ → ℕ → ℕ → ℕ → Memory → Os → Option (Option ℕ × Memory × Os)
  line_loop zero fd buf n tot m o = none
  line_loop (suc fuel) fd buf n tot m o =
      let (num_read, o1) = read o fd 1 in
      let again = line_loop fuel fd buf n tot m o1 in
      elim num_read [
        | read_failed err ↦ if err == eintr then again else some (none, m, o1)
        | got [] ↦ if tot == 0 then some (some 0, m, o1) else close_line buf tot m o1
        | got (ch ∷ _) ↦
            let room = ltb tot (n - 1) in
            let tot1 = if room then tot + 1 else tot in
            let m1 = if room then poke m (buf + tot) (ch ∷ []) else m in
            let more = line_loop fuel fd buf n tot1 m1 o1 in
            if ch == newline then close_line buf tot1 m1 o1 else more
      ]

  -- The address 0 is `NULL`.
  unfoldable pub read_line : ℕ → ℕ → ℕ → ℕ → Memory → Os → Option (Option ℕ × Memory × Os)
  read_line fuel fd buf n m o =
      if (n == 0) || (buf == 0) then some (none, m, o) else line_loop fuel fd buf n 0 m o
