-- ===== src/Sockets/Line.antt =====
-- What `readLine` stores.
use mathlib.Core.Path.{subst}
use tlpi_exercises.Base.{
  ℕ, zero, suc, ◌+◌, ◌-◌, ◌≤◌, ◌<◌, ◌≡◌, ◌≢◌, refl, ◌∙◌, sym, ap, ◌⊎◌, inl, inr, Bool-cases,
  if◌then◌else◌, true, false, ◌||◌, Option, none, some, List, [], ◌∷◌, ◌++◌, arith, ltb, ◌==◌,
  length, take, take-nil,
}
use tlpi_exercises.Io.{Memory, poke}
use tlpi_exercises.Sockets.{
  Got, got, read_failed, eintr, newline, Streams, IsStream, close_line, line_loop, read_line,
}

-- The first line of the input, with its newline if it has one.
unfoldable pub first_line : List ℕ → List ℕ
first_line [] = []
first_line (b ∷ s) = if b == newline then b ∷ [] else b ∷ first_line s

pub first_line-more :
    (b : ℕ) (s : List ℕ) → (b == newline) ≡ false → first_line (b ∷ s) ≡ b ∷ first_line s
unfolding first_line
first_line-more b s e = rw (e) refl

pub first_line-newline : (b : ℕ) (s : List ℕ) → (b == newline) ≡ true → first_line (b ∷ s) ≡ b ∷ []
unfolding first_line
first_line-newline b s e = rw (e) refl

pub Got-cases :
    (g : Got)
    → (g ≡ got [])
      ⊎ (((b : ℕ) × (bs : List ℕ) × (g ≡ got (b ∷ bs))) ⊎ ((err : ℕ) × (g ≡ read_failed err)))
Got-cases (got []) = inl refl
Got-cases (got (b ∷ bs)) = inr (inl (b, bs, refl))
Got-cases (read_failed err) = inr (inr (err, refl))

-- The last read(2), for at most `count` bytes, failed, and not with EINTR. It left the state `o'`.
abbrev pub ReadFailed : (d : Streams) → ℕ → ℕ → d.Os → Type 0
ReadFailed d fd count o' =
    (o1 : d.Os) × (err : ℕ) × ((d.read o1 fd count).1 ≡ o')
    × ((d.read o1 fd count).0 ≡ read_failed err)
    × (err ≢ eintr)

pub poke-cons :
    (a tot b : ℕ) (bs : List ℕ) (m : Memory)
    → poke m (a + tot) (b ∷ bs) ≡ poke (poke m (a + tot) (b ∷ [])) (a + (tot + 1)) bs
unfolding poke
poke-cons a tot b bs m = let e : a + (tot + 1) ≡ a + tot + 1 = omega arith in rw (e) refl

module _ (buf n : ℕ) where
  -- the line as far as it fits behind `tot` bytes, and memory with it and a closing 0
  abbrev fitting : ℕ → List ℕ → List ℕ
  fitting tot line = take (n - 1 - tot) line

  abbrev stored : ℕ → List ℕ → Memory → Memory
  stored tot line m = poke m (buf + tot) (fitting tot line ++ 0 ∷ [])

  -- the count and the memory after one more byte
  abbrev count_after : ℕ → ℕ
  count_after tot = if ltb tot (n - 1) then tot + 1 else tot

  abbrev memory_after : ℕ → ℕ → Memory → Memory
  memory_after tot b m = if ltb tot (n - 1) then poke m (buf + tot) (b ∷ []) else m

  fitting-room :
      (tot b : ℕ) (line : List ℕ)
      → tot < n - 1
      → fitting tot (b ∷ line) ≡ b ∷ fitting (tot + 1) line
  fitting-room tot b line lt =
      let e : n - 1 - tot ≡ suc (n - 1 - (tot + 1)) = omega arith in rw (e) refl

  fitting-full : (tot : ℕ) (line : List ℕ) → n - 1 ≤ tot → fitting tot line ≡ []
  fitting-full tot line le = let e : n - 1 - tot ≡ 0 = omega arith in rw (e) refl

  stored-byte :
      (tot b : ℕ) (line : List ℕ) (m : Memory)
      → stored (count_after tot) line (memory_after tot b m) ≡ stored tot (b ∷ line) m
  stored-byte tot b line m = elim (Bool-cases (ltb tot (n - 1))) [
    | inl room ↦
        rw (room, fitting-room tot b line (ground arith))
          (sym (poke-cons buf tot b (fitting (tot + 1) line ++ 0 ∷ []) m))
    | inr full ↦
        rw (full, fitting-full tot (b ∷ line) (ground arith), fitting-full tot line (ground arith))
          refl
  ]

  count-byte :
      (tot b : ℕ) (line : List ℕ)
      → count_after tot + length (fitting (count_after tot) line)
        ≡ tot + length (fitting tot (b ∷ line))
  count-byte tot b line = elim (Bool-cases (ltb tot (n - 1))) [
    | inl room ↦ rw (room, fitting-room tot b line (ground arith)) omega arith
    | inr full ↦
        rw (full, fitting-full tot (b ∷ line) (ground arith), fitting-full tot line (ground arith))
          refl
  ]

  -- A call read the first line of `s`, after `tot` bytes.
  record Read (d : Streams) (fd tot : ℕ) (s : List ℕ) (m : Memory) (r : Option ℕ) (m' : Memory)
      (o' : d.Os) : Type 0 where
    pub result : r ≡ some (tot + length (fitting tot (first_line s)))
    pub left : s ≡ first_line s ++ d.input o' fd
    pub nothing : tot ≡ 0 → s ≡ [] → m' ≡ m
    pub line : (0 < tot) ⊎ (s ≢ []) → m' ≡ stored tot (first_line s) m

  module _ (d : Streams) (law : IsStream d) (fd : ℕ) (two : 2 ≤ n) where
    count-pos : (tot : ℕ) → 0 < count_after tot
    count-pos tot = ground arith

    line_loop-byte :
        (fuel tot b : ℕ) (bs : List ℕ) (m : Memory) (o : d.Os)
        → (d.read o fd 1).0 ≡ got (b ∷ bs)
        → line_loop d (suc fuel) fd buf n tot m o ≡ (
            if b == newline
            then close_line d buf (count_after tot) (memory_after tot b m) (d.read o fd 1).1
            else line_loop d fuel fd buf n
                (count_after tot)
                (memory_after tot b m)
                (d.read o fd 1).1)
    unfolding line_loop
    line_loop-byte fuel tot b bs m o e = rw (e, line_loop) refl

    line_loop-end :
        (fuel tot : ℕ) (m : Memory) (o : d.Os)
        → (d.read o fd 1).0 ≡ got []
        → line_loop d (suc fuel) fd buf n tot m o ≡ (
            if tot == 0
            then some (some 0, m, (d.read o fd 1).1)
            else close_line d buf tot m (d.read o fd 1).1)
    unfolding line_loop
    line_loop-end fuel tot m o e = rw (e, line_loop) refl

    line_loop-failed :
        (fuel tot err : ℕ) (m : Memory) (o : d.Os)
        → (d.read o fd 1).0 ≡ read_failed err
        → line_loop d (suc fuel) fd buf n tot m o ≡ (
            if err == eintr
            then line_loop d fuel fd buf n tot m (d.read o fd 1).1
            else some (none, m, (d.read o fd 1).1))
    unfolding line_loop
    line_loop-failed fuel tot err m o e = rw (e, line_loop) refl

    -- the end of the input
    end-Read :
        (fuel tot : ℕ) (m : Memory) (o : d.Os)
        → (d.read o fd 1).0 ≡ got []
        → d.input (d.read o fd 1).1 fd ≡ []
        → (r : Option ℕ) × (m' : Memory) × (o' : d.Os) × (line_loop d (suc fuel) fd buf n tot m o
            ≡ some (r, m', o'))
          × Read d fd tot [] m r m' o'
    unfolding close_line first_line
    end-Read fuel tot m o e i =
        let none_fit : length (fitting tot []) ≡ 0 = rw (take-nil {A = ℕ} (n - 1 - tot)) refl in
        elim (Bool-cases (tot == 0)) [
          | inl z ↦
              let is : tot ≡ 0 = ground arith in
              (
                some 0,
                m,
                (d.read o fd 1).1,
                line_loop-end fuel tot m o e ∙ rw (z) refl,
                record {
                  result = ap some (omega (arith, is, none_fit));
                  left = sym i;
                  nothing = λ a b. refl;
                  line = λ c. elim c [ inl p ↦ absurd (omega arith) | inr p ↦ absurd (p refl) ];
                },
              )
          | inr z ↦ (
            some tot,
            poke m (buf + tot) (0 ∷ []),
            (d.read o fd 1).1,
            line_loop-end fuel tot m o e ∙ rw (z) refl,
            record {
              result = ap some (omega (arith, none_fit));
              left = sym i;
              nothing = λ a b. absurd (ground arith);
              line = λ c. rw (take-nil {A = ℕ} (n - 1 - tot)) refl;
            },
          )
        ]

    -- a byte, and what the rest comes to
    Read-more :
        (tot b : ℕ) (s : List ℕ) (m m' : Memory) (r : Option ℕ) (o' : d.Os)
        → (b == newline) ≡ false
        → Read d fd (count_after tot) s (memory_after tot b m) r m' o'
        → Read d fd tot (b ∷ s) m r m' o'
    Read-more tot b s m m' r o' nl h =
        let f = first_line-more b s nl in
        record {
          result =
              h.result
              ∙ ap some (
                  count-byte tot b (first_line s)
                  ∙ ap (λ (l : List ℕ). tot + length (fitting tot l)) (sym f));
          left =
              ap (λ (l : List ℕ). b ∷ l) h.left ∙ ap (λ (l : List ℕ). l ++ d.input o' fd) (sym f);
          nothing = λ a c. absurd (cc);
          line = λ c.
              h.line (inl (count-pos tot))
              ∙ stored-byte tot b (first_line s) m
              ∙ ap (λ (l : List ℕ). stored tot l m) (sym f);
        }

    Read-newline :
        (tot b : ℕ) (s : List ℕ) (m : Memory) (o' : d.Os)
        → (b == newline) ≡ true
        → s ≡ d.input o' fd
        → Read d fd tot
            (b ∷ s)
            m
            (some (count_after tot))
            (poke (memory_after tot b m) (buf + count_after tot) (0 ∷ []))
            o'
    Read-newline tot b s m o' nl e =
        let f = first_line-newline b s nl in
        let z : fitting (count_after tot) [] ≡ [] = take-nil (n - 1 - count_after tot) in
        let l0 : length (fitting (count_after tot) []) ≡ 0 = ap (λ (l : List ℕ). length l) z in
        let c0 : count_after tot ≡ count_after tot + length (fitting (count_after tot) []) =
          omega (arith, l0) in
        record {
          result = ap some (
              c0 ∙ count-byte tot b [] ∙ ap (λ (l : List ℕ). tot + length (fitting tot l)) (sym f));
          left = ap (λ (l : List ℕ). b ∷ l) e ∙ ap (λ (l : List ℕ). l ++ d.input o' fd) (sym f);
          nothing = λ a c. absurd (cc);
          line = λ c.
              ap (λ (l : List ℕ). poke (memory_after tot b m) (buf + count_after tot) (l ++ 0 ∷ []))
                (sym z)
              ∙ stored-byte tot b [] m
              ∙ ap (λ (l : List ℕ). stored tot l m) (sym f);
        }

    Read-of :
        (tot : ℕ) (s s1 : List ℕ) (m : Memory) (r : Option ℕ) (m' : Memory) (o' : d.Os)
        → s ≡ s1
        → Read d fd tot s1 m r m' o'
        → Read d fd tot s m r m' o'
    Read-of tot s s1 m r m' o' e h = subst (λ (l : List ℕ). Read d fd tot l m r m' o') (sym e) h

    -- one byte is all that fits
    only : (b : ℕ) (bs : List ℕ) → length (b ∷ bs) ≤ 1 → bs ≡ []
    only b [] le = refl
    only b (x ∷ bs) le = absurd (omega arith)

    line_loop-Read :
        (fuel tot : ℕ) (s : List ℕ) (m : Memory) (o : d.Os)
        → d.input o fd ≡ s
        → length s + d.interrupts o < fuel
        → (r : Option ℕ) × (m' : Memory) × (o' : d.Os) × (line_loop d fuel fd buf n tot m o
            ≡ some (r, m', o'))
          × (((r ≡ none) × ReadFailed d fd 1 o') ⊎ Read d fd tot s m r m' o')
    unfolding close_line
    line_loop-Read zero tot s m o i enough = absurd (omega arith)
    line_loop-Read (suc fuel) tot s m o i enough = elim (Got-cases (d.read o fd 1).0) [
      | inl e ↦
          let (a, b, c, f) = law.read_some o fd 1 [] e in
          let nil = c refl (omega arith) in
          let (r, m', o', e', h) = end-Read fuel tot m o e (sym b ∙ nil) in
          (r, m', o', e', inr (Read-of tot s [] m r m' o' (sym i ∙ nil) h))
      | inr (inl (b, bs, e)) ↦
          let (a, c, _, f) = law.read_some o fd 1 (b ∷ bs) e in
          let s1 = d.input (d.read o fd 1).1 fd in
          let one : bs ≡ [] = only b bs a in
          let is : s ≡ b ∷ s1 = sym i ∙ c ∙ ap (λ (l : List ℕ). b ∷ (l ++ s1)) one in
          let len : length s ≡ suc (length s1) = ap (λ (l : List ℕ). length l) is in
          let t1 = count_after tot in
          let m1 = memory_after tot b m in
          elim (Bool-cases (b == newline)) [
            | inl nl ↦ (
              some t1,
              poke m1 (buf + t1) (0 ∷ []),
              (d.read o fd 1).1,
              line_loop-byte fuel tot b bs m o e ∙ rw (nl) refl,
              inr (
                  Read-of tot s (b ∷ s1) m _ _ _ is
                    (Read-newline tot b s1 m (d.read o fd 1).1 nl refl)),
            )
            | inr nl ↦
                let (r, m', o', e', h) =
                  line_loop-Read fuel t1 s1 m1 (d.read o fd 1).1 refl (omega arith) in
                (
                  r,
                  m',
                  o',
                  line_loop-byte fuel tot b bs m o e ∙ rw (nl) e',
                  elim h [
                    | inl g ↦ inl g
                    | inr g ↦
                        inr
                          (Read-of tot s (b ∷ s1) m r m' o' is (Read-more tot b s1 m m' r o' nl g))
                  ],
                )
          ]
      | inr (inr (err, e)) ↦
          let (a, b) = law.read_none o fd 1 err e in
          elim (Bool-cases (err == eintr)) [
            | inl t ↦
                let lower = b (ground arith) in
                let (r, m', o', e', h) =
                  line_loop-Read fuel tot s m (d.read o fd 1).1 (a ∙ i) (omega arith) in
                (r, m', o', line_loop-failed fuel tot err m o e ∙ rw (t) e', h)
            | inr t ↦ (
              none,
              m,
              (d.read o fd 1).1,
              line_loop-failed fuel tot err m o e ∙ rw (t) refl,
              inl (refl, (o, err, refl, e, λ is. ground arith)),
            )
          ]
    ]

    -- Where interruptions come to an end, `readLine` into a buffer that is not `NULL`, with room for
    -- at least two bytes, returns with -1 or with the number of bytes stored, -1 only if the last
    -- read(2) failed otherwise than with EINTR. If it is not -1, it has taken the first line from
    -- the input and no more, up to its newline if it has one, and the buffer holds as much of that
    -- line as fits before the last byte, with a closing 0; at the end of the input it returns 0 and
    -- stores nothing.
    pub read_line-first :
        (m : Memory) (o : d.Os)
        → 0 < buf
        → (r : Option ℕ) × (m' : Memory) × (o' : d.Os) × (read_line d
              (suc (length (d.input o fd) + d.interrupts o))
              fd
              buf
              n
              m
              o
            ≡ some (r, m', o'))
          × (((r ≡ none) × ReadFailed d fd 1 o')
              ⊎ ((r ≡ some (length (take (n - 1) (first_line (d.input o fd)))))
                  × (d.input o fd ≡ first_line (d.input o fd) ++ d.input o' fd)
                  × (d.input o fd ≡ [] → m' ≡ m)
                  × (d.input o fd ≢ []
                      → m' ≡ poke m buf (take (n - 1) (first_line (d.input o fd)) ++ 0 ∷ []))))
    unfolding read_line
    read_line-first m o pos =
        let (r, m', o', e, h) =
          line_loop-Read (suc (length (d.input o fd) + d.interrupts o)) 0 (d.input o fd) m o refl
            (omega arith) in
        let ok : ((n == 0) || (buf == 0)) ≡ false = ground arith in
        let z : n - 1 - 0 ≡ n - 1 = omega arith in
        let y : buf + 0 ≡ buf = omega arith in
        (
          r,
          m',
          o',
          rw (ok) e,
          elim h [
            | inl g ↦ inl g
            | inr g ↦ inr (
              g.result ∙ ap some (rw (z) (omega arith)),
              g.left,
              g.nothing refl,
              λ ne. g.line (inr ne) ∙ rw (z, y) refl,
            )
          ],
        )
