-- ===== src/LineBuf/Same.antt =====
-- `readLineBuf` of tlpi-dist/sockets/read_line_buf.c beside `readLine` of tlpi-dist/sockets/read_line.c.
use mathlib.Core.Path.{subst, ap₂}
use mathlib.Core.List.{append_cancel_left, cons-ne-nil}
use tlpi_exercises.Base.{
  ℕ, suc, ◌+◌, ◌-◌, ◌<◌, ◌≡◌, ◌≢◌, refl, ◌∙◌, sym, ap, ◌⊎◌, inl, inr, Option, none, some, List, [],
  ◌∷◌, ◌++◌, arith, ◌==◌, if◌then◌else◌, length, take, take-nil,
}
use tlpi_exercises.Io.{Memory, poke, peek}
use tlpi_exercises.Io.Scatter.{poke-outside, peek-poke}
use tlpi_exercises.Sockets.Line.{first_line, read_line-first, ReadFailed}
use tlpi_exercises.Sockets.{Streams, IsStream, read_failed, read_line}
use tlpi_exercises.LineBuf.Refill.{pending}
use tlpi_exercises.LineBuf.Line.{read_line_buf-first}
use tlpi_exercises.LineBuf.{ReadLineBuf, rl_max_buf, read_line_buf}

peek-prefix : (t u : List ℕ) (m : Memory) (a : ℕ) → peek (poke m a (t ++ u)) a (length t) ≡ t
unfolding peek poke
peek-prefix [] u m a = refl
peek-prefix (b ∷ t) u m a =
    let m1 : Memory = λ y. if y == a then b else m y in
    ap₂ ◌∷◌ (poke-outside m1 (a + 1) (t ++ u) a (inl (omega arith)) ∙ ground arith)
      (peek-prefix t u m1 (a + 1))

-- Two calls read the same into `buffer`: the same count, the same characters, and the same left to come.
abbrev pub Agree : ℕ → Option ℕ → Memory → List ℕ → Option ℕ → Memory → List ℕ → Type 0
Agree buffer r1 m1 s1 r2 m2 s2 =
    (k : ℕ) × (r1 ≡ some k) × (r2 ≡ some k) × (peek m1 buffer k ≡ peek m2 buffer k) × (s1 ≡ s2)

module _ (d : Streams) (law : IsStream d) (buffer n fd : ℕ) where
  stored-peek :
      (s : List ℕ) (m m' : Memory)
      → (s ≡ [] → m' ≡ m)
      → (s ≢ [] → m' ≡ poke m buffer (take n (first_line s) ++ 0 ∷ []))
      → peek m' buffer (length (take n (first_line s))) ≡ take n (first_line s)
  unfolding first_line peek
  stored-peek [] m m' z f = rw (take-nil n) refl
  stored-peek (b ∷ s) m m' z f =
      let t = take n (first_line (b ∷ s)) in
      let mem = f (cons-ne-nil b s) in
      ap (λ x. peek x buffer (length t)) mem ∙ peek-prefix t (0 ∷ []) m buffer

  Agree-of :
      (s t1 t2 : List ℕ) (r1 r2 : Option ℕ) (m1 m1' m2 m2' : Memory)
      → let line = first_line s in
        r1 ≡ some (length (take n line))
        → s ≡ line ++ t1
        → m1' ≡ poke m1 buffer (take n line)
        → r2 ≡ some (length (take (n + 1 - 1) line))
        → s ≡ line ++ t2
        → (s ≡ [] → m2' ≡ m2)
        → (s ≢ [] → m2' ≡ poke m2 buffer (take (n + 1 - 1) line ++ 0 ∷ []))
        → Agree buffer r1 m1' t1 r2 m2' t2
  Agree-of s t1 t2 r1 r2 m1 m1' m2 m2' c1 p1 e1 c2 p2 z2 e2 =
      let z : n + 1 - 1 ≡ n = omega arith in
      let line = first_line s in
      let t = take n line in
      (
        length t,
        c1,
        c2 ∙ ap (λ k. some (length (take k line))) z,
        ap (λ x. peek x buffer (length t)) e1
            ∙ peek-poke m1 buffer t (length t) refl
            ∙ sym (
                stored-peek s m2 m2' z2
                  (λ ne. e2 ne ∙ ap (λ k. poke m2 buffer (take k line ++ 0 ∷ [])) z)),
        append_cancel_left line t1 t2 (sym p1 ∙ p2),
      )

  -- Where the characters to come are the same, `readLineBuf` into a buffer of `n` characters and
  -- `readLine` into one of `n + 1`, which keeps a place for the 0, both end. `readLineBuf` returns
  -- -1 only if a read(2) for its buffer failed, and `readLine` only if its last one failed otherwise
  -- than with EINTR. If neither returns -1, they return the same count, their buffers hold the same
  -- characters, and the same characters are left to come.
  pub read_line_buf-read_line :
      (rl : ReadLineBuf) (m1 m2 : Memory) (o1 o2 : d.Os)
      → 0 < n
      → 0 < buffer
      → pending d rl o1 ≡ d.input o2 fd
      → (r1 : Option ℕ) × (rl' : ReadLineBuf) × (m1' : Memory) × (o1' : d.Os) × (r2 : Option ℕ)
        × (m2' : Memory) × (o2' : d.Os) × (read_line_buf d
              (suc (length (pending d rl o1)))
              rl
              buffer
              n
              m1
              o1
            ≡ some (r1, rl', m1', o1'))
        × (read_line d (suc (length (d.input o2 fd) + d.interrupts o2)) fd buffer (n + 1) m2 o2
            ≡ some (r2, m2', o2'))
        × (((r1 ≡ none)
              × ((o : d.Os) × (err : ℕ) × ((d.read o rl.fd rl_max_buf).0 ≡ read_failed err)))
            ⊎ (((r2 ≡ none) × ReadFailed d fd 1 o2')
                ⊎ Agree buffer r1 m1' (pending d rl' o1') r2 m2' (d.input o2' fd)))
  read_line_buf-read_line rl m1 m2 o1 o2 pos buf_pos same =
      let (r1, rl', m1', o1', e1, h1) =
        read_line_buf-first buffer n d law (suc (length (pending d rl o1))) rl m1 o1 pos buf_pos
          (omega arith) in
      let (r2, m2', o2', e2, h2) =
        read_line-first buffer (n + 1) d law fd (omega arith) m2 o2 buf_pos in
      (
        r1,
        rl',
        m1',
        o1',
        r2,
        m2',
        o2',
        e1,
        e2,
        elim h1 [
          | inl failed ↦ inl failed
          | inr (c1, p1, mem1, _) ↦ elim h2 [
            | inl failed ↦ inr (inl failed)
            | inr (c2, p2, z2, mem2) ↦
                let is1 =
                  subst
                    (λ s.
                      (r1 ≡ some (length (take n (first_line s))))
                      × (s ≡ first_line s ++ pending d rl' o1')
                      × (m1' ≡ poke m1 buffer (take n (first_line s))))
                    same (c1, p1, mem1) in
                inr (
                  inr (
                    Agree-of (d.input o2 fd) _ _ r1 r2 m1 m1' m2 m2' is1.0 is1.1 is1.2 c2 p2 z2
                      mem2))
          ]
        ],
      )
